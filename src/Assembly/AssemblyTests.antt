-- ===== src/Assembly/AssemblyTests.antt =====
-- A context assembled from concrete texts, with hundredths rounded down.
use operational_intelligence.Prelude.{
  ℕ, ◌*◌, ◌/◌, ◌≤◌, ◌≡◌, refl, some, none, List, [], ◌∷◌, ◌++◌, codes, arith, ltb,
}
use operational_intelligence.Assembly.{
  Message, Chunk, AssembledContext, tokens_of, prune_conversation_history, assemble,
  allocate_budgets, texts_of,
}
use operational_intelligence.Assembly.Budget.{
  system_of, others_of, prune_conversation_history-suffix, assemble-total,
}

abbrev hundredths : ℕ → ℕ → ℕ
hundredths m p = m * p / 100

share : (m p : ℕ) → hundredths m p * 100 ≤ m * p
share m p = omega arith

abbrev percent : ℕ → ℕ → ℕ
percent total max_tokens = total * 100 / max_tokens

abbrev history : List Message
history =
    record { role = some "system"; content = some (codes "be brief") }
    ∷ record { role = some "user"; content = some (codes "an old question of some length") }
    ∷ record { role = some "user"; content = some (codes "why?") }
    ∷ []

abbrev chunks : List (Chunk ℕ)
chunks =
    record { text = some (codes "first"); relevance_score = 1 }
    ∷ record { text = some (codes "second"); relevance_score = 2 }
    ∷ []

newest_first_dropped :
    prune_conversation_history history 4
    ≡ record { role = some "system"; content = some (codes "be brief") }
      ∷ record { role = some "user"; content = some (codes "why?") }
      ∷ []
unfolding prune_conversation_history
newest_first_dropped = refl

prune_conversation_history-suffix_example :
    (dropped kept : List Message) × ((prune_conversation_history history 4
        ≡ system_of history ++ kept)
      × (dropped ++ kept ≡ others_of history))
prune_conversation_history-suffix_example = prune_conversation_history-suffix history 4

abbrev context : AssembledContext ℕ
context = record {
  system_prompt = codes "you are an analyst of ev";
  messages =
      record { role = some "system"; content = some (codes "be brief") }
      ∷ record { role = some "user"; content = some (codes "why?") }
      ∷ [];
  knowledge_context = codes "second\n\n---\n\nfirst";
  tool_context = none;
  total_tokens = 13;
  utilization_pct = 32;
  budget_breakdown = record {
    system_prompt = 6;
    conversation_history = 3;
    knowledge_retrieval = 4;
    tool_results = 0;
    reserve = 4;
  };
}

assemble-total_example : context.total_tokens * 10 ≤ 40 * 9
unfolding assemble tokens_of texts_of allocate_budgets
assemble-total_example =
    assemble-total ltb hundredths percent 0 40 (share 40) (codes "you are an analyst of events")
      history chunks none context (omega arith) refl
