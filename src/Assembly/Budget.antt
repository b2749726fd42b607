-- ===== src/Assembly/Budget.antt =====
-- packages/ai/context_assembly.py: the sections and their budgets, and the total.
use operational_intelligence.Prelude.{
  ℕ, ◌+◌, ◌-◌, ◌*◌, ◌≤◌, ◌≡◌, refl, sym, ap, ◌∙◌, Bool, true, false, not, Option, some, none, List,
  [], ◌∷◌, ◌++◌, if◌then◌else◌, leb, filter_by, arith, length-take-le, append-nil, codes,
}
use mathlib.Core.List.{reverse, reverse-cons, reverse-append, reverse-reverse}
use operational_intelligence.Assembly.{
  Text, Message, Chunk, ToolResult, AssembledContext, estimate_tokens, truncate_to_budget,
  message_tokens, tokens_of, is_system, keep_newest, prune_conversation_history, keep_chunks,
  rank_and_truncate_knowledge, sort_chunks, text_or, texts_of, tool_text, tool_tokens,
  assemble_texts, assemble, allocate_budgets, join,
}

-- A truncated text is within its budget.
pub truncate_to_budget-estimate :
    (text : Text) (max_tokens : ℕ)
    → estimate_tokens (truncate_to_budget text max_tokens) ≤ max_tokens
unfolding estimate_tokens truncate_to_budget
truncate_to_budget-estimate text max_tokens = ground (arith, length-take-le (max_tokens * 4) text)

tokens_of-append : (xs ys : List Message) → tokens_of (xs ++ ys) ≡ tokens_of xs + tokens_of ys
unfolding tokens_of
tokens_of-append [] ys = omega arith
tokens_of-append (x ∷ xs) ys = omega (arith, tokens_of-append xs ys)

tokens_of-reverse : (xs : List Message) → tokens_of (reverse xs) ≡ tokens_of xs
unfolding tokens_of
tokens_of-reverse [] = refl
tokens_of-reverse (x ∷ xs) = omega (
  arith,
  ap tokens_of (reverse-cons x xs),
  tokens_of-append (reverse xs) (x ∷ []),
  tokens_of-reverse xs,
)

keep_newest-budget :
    (remaining : ℕ) (ms : List Message) → tokens_of (keep_newest remaining ms) ≤ remaining
unfolding keep_newest tokens_of
keep_newest-budget remaining [] = omega arith
keep_newest-budget remaining (m ∷ ms) =
    ground (arith, keep_newest-budget (remaining - message_tokens m) ms)

-- What is kept is the beginning of the list.
keep_newest-prefix :
    (remaining : ℕ) (ms : List Message)
    → (rest : List Message) × (keep_newest remaining ms ++ rest ≡ ms)
unfolding keep_newest
keep_newest-prefix remaining [] = ([], refl)
keep_newest-prefix remaining (m ∷ ms) =
    go (leb (message_tokens m) remaining) (keep_newest (remaining - message_tokens m) ms)
      (keep_newest-prefix (remaining - message_tokens m) ms)
  where
    go :
        (b : Bool) (kept : List Message)
        → ((rest : List Message) × (kept ++ rest ≡ ms))
        → (rest : List Message) × ((if b then m ∷ kept else []) ++ rest ≡ m ∷ ms)
    go true kept r = (r.0, ap (λ l. m ∷ l) r.1)
    go false kept r = (m ∷ ms, refl)

abbrev pub system_of : List Message → List Message
system_of messages = filter_by is_system messages

abbrev pub others_of : List Message → List Message
others_of messages = filter_by (λ m. not (is_system m)) messages

-- Where the system messages fit the budget, the pruned history does.
pub prune_conversation_history-budget :
    (messages : List Message) (max_tokens : ℕ)
    → tokens_of (system_of messages) ≤ max_tokens
    → tokens_of (prune_conversation_history messages max_tokens) ≤ max_tokens
unfolding prune_conversation_history
prune_conversation_history-budget messages max_tokens h =
    let room = max_tokens - tokens_of (system_of messages) in
    let kept = keep_newest room (reverse (others_of messages)) in
    ground (
      arith,
      h,
      tokens_of-append (system_of messages) (reverse kept),
      tokens_of-reverse kept,
      keep_newest-budget room (reverse (others_of messages)),
    )

-- Messages of role system are never left out: they count in full, above the budget too.
prune_conversation_history-system :
    (messages : List Message) (max_tokens : ℕ)
    → tokens_of (system_of messages) ≤ tokens_of (prune_conversation_history messages max_tokens)
unfolding prune_conversation_history
prune_conversation_history-system messages max_tokens =
    let room = max_tokens - tokens_of (system_of messages) in
    let kept = keep_newest room (reverse (others_of messages)) in
    ground (arith, tokens_of-append (system_of messages) (reverse kept))

-- The pruned history is the system messages, all of them, and then some of the newest other messages
-- in their order: those left out are the oldest.
pub prune_conversation_history-suffix :
    (messages : List Message) (max_tokens : ℕ)
    → (dropped kept : List Message) × ((prune_conversation_history messages max_tokens
          ≡ system_of messages ++ kept)
        × (dropped ++ kept ≡ others_of messages))
unfolding prune_conversation_history
prune_conversation_history-suffix messages max_tokens =
    go (leb max_tokens (tokens_of (system_of messages)))
  where
    newest : List Message
    newest =
        keep_newest (max_tokens - tokens_of (system_of messages)) (reverse (others_of messages))

    go :
        (b : Bool)
        → (dropped kept : List Message) × (((if b
                then system_of messages
                else system_of messages ++ reverse newest)
              ≡ system_of messages ++ kept)
            × (dropped ++ kept ≡ others_of messages))
    go true = (others_of messages, [], (sym (append-nil _), append-nil _))
    go false =
        let p = keep_newest-prefix _ (reverse (others_of messages)) in
        (
          reverse p.0,
          reverse newest,
          (
            refl,
            sym (reverse-append newest p.0) ∙ ap reverse p.1 ∙ reverse-reverse (others_of messages),
          ),
        )

module _ {Score : Type 0} (less : Score → Score → Bool) where
  abbrev pub chunk_tokens : List (Chunk Score) → ℕ
  chunk_tokens [] = 0
  chunk_tokens (c ∷ cs) = estimate_tokens (text_or [] c.text) + chunk_tokens cs

  keep_chunks-budget :
      (used max_tokens : ℕ) (cs : List (Chunk Score))
      → used ≤ max_tokens
      → used + chunk_tokens (keep_chunks less used max_tokens cs) ≤ max_tokens
  unfolding keep_chunks
  keep_chunks-budget used max_tokens [] h = omega (arith, h)
  keep_chunks-budget used max_tokens (c ∷ cs) h =
      ground
        (arith, h, keep_chunks-budget (used + estimate_tokens (text_or [] c.text)) max_tokens cs)

  keep_chunks-prefix :
      (used max_tokens : ℕ) (cs : List (Chunk Score))
      → (rest : List (Chunk Score)) × (keep_chunks less used max_tokens cs ++ rest ≡ cs)
  unfolding keep_chunks
  keep_chunks-prefix used max_tokens [] = ([], refl)
  keep_chunks-prefix used max_tokens (c ∷ cs) =
      let u = used + estimate_tokens (text_or [] c.text) in
      go (leb u max_tokens) (keep_chunks less u max_tokens cs) (keep_chunks-prefix u max_tokens cs)
    where
      go :
          (b : Bool) (kept : List (Chunk Score))
          → ((rest : List (Chunk Score)) × (kept ++ rest ≡ cs))
          → (rest : List (Chunk Score)) × ((if b then c ∷ kept else []) ++ rest ≡ c ∷ cs)
      go true kept r = (r.0, ap (λ l. c ∷ l) r.1)
      go false kept r = (c ∷ cs, refl)

  -- The kept chunks have at most the budget's tokens together, and are the first of the chunks
  -- sorted by relevance.
  pub rank_and_truncate_knowledge-budget :
      (chunks : List (Chunk Score)) (max_tokens : ℕ)
      → (chunk_tokens (rank_and_truncate_knowledge less chunks max_tokens) ≤ max_tokens)
        × ((rest : List (Chunk Score)) × (rank_and_truncate_knowledge less chunks max_tokens ++ rest
              ≡ sort_chunks less chunks))
  unfolding rank_and_truncate_knowledge
  rank_and_truncate_knowledge-budget chunks max_tokens = (
    omega (arith, keep_chunks-budget 0 max_tokens (sort_chunks less chunks) (omega arith)),
    keep_chunks-prefix 0 max_tokens (sort_chunks less chunks),
  )

module _ {Score Percent : Type 0} (less : Score → Score → Bool) (scale : ℕ → ℕ → ℕ)
    (percent : (total max_tokens : ℕ) → Percent) (zero_percent : Percent) (max_tokens : ℕ)
    (share : (p : ℕ) → scale max_tokens p * 100 ≤ max_tokens * p) where
  tool_tokens-budget :
      (results : Option (List ToolResult)) (n : ℕ) → tool_tokens (tool_text results n) ≤ n
  unfolding tool_text
  tool_tokens-budget none n = omega arith
  tool_tokens-budget (some []) n = omega arith
  tool_tokens-budget (some (t ∷ ts)) n = truncate_to_budget-estimate _ n

  texts-total :
      (system : Text) (messages : List Message) (knowledge : Text)
      (results : Option (List ToolResult))
      → tokens_of messages ≤ scale max_tokens 15
      → (assemble_texts less scale percent zero_percent max_tokens
            (truncate_to_budget system (scale max_tokens 15))
            messages
            (truncate_to_budget knowledge (scale max_tokens 40))
            (tool_text results (scale max_tokens 20))).total_tokens
          * 10
        ≤ max_tokens * 9
  unfolding assemble_texts
  texts-total system messages knowledge results h = omega (
    arith,
    h,
    truncate_to_budget-estimate system (scale max_tokens 15),
    truncate_to_budget-estimate knowledge (scale max_tokens 40),
    tool_tokens-budget results (scale max_tokens 20),
    share 15,
    share 40,
    share 20,
  )

  -- Where no share is more than its hundredths of the maximum and the system messages of the
  -- history fit the history's share, a context that is assembled has at most nine tenths of the
  -- maximum.
  pub assemble-total :
      (system_prompt : Text) (history : List Message) (chunks : List (Chunk Score))
      (results : Option (List ToolResult)) (c : AssembledContext Percent)
      → tokens_of (system_of history) ≤ scale max_tokens 15
      → assemble less scale percent zero_percent max_tokens system_prompt history chunks results
        ≡ some c
      → c.total_tokens * 10 ≤ max_tokens * 9
  unfolding assemble assemble_texts allocate_budgets
  assemble-total system_prompt history chunks results c h e =
      go (texts_of (rank_and_truncate_knowledge less chunks (scale max_tokens 40))) e
    where
      messages : List Message
      messages = prune_conversation_history history (scale max_tokens 15)

      assembled : List Text → AssembledContext Percent
      assembled texts =
          assemble_texts less scale percent zero_percent max_tokens
            (truncate_to_budget system_prompt (scale max_tokens 15)) messages
            (truncate_to_budget (join (codes "\n\n---\n\n") texts) (scale max_tokens 40))
            (tool_text results (scale max_tokens 20))

      total_of : Option (AssembledContext Percent) → ℕ
      total_of none = 0
      total_of (some d) = d.total_tokens

      go :
          (o : Option (List Text))
          → (elim o as (λ _. Option (AssembledContext Percent)) [
            | none ↦ none
            | some texts ↦ some (assembled texts)
          ])
            ≡ some c
          → c.total_tokens * 10 ≤ max_tokens * 9
      go none e = ground arith
      go (some texts) e = omega (
        arith,
        ap total_of e,
        texts-total system_prompt messages (join (codes "\n\n---\n\n") texts) results
            (prune_conversation_history-budget history (scale max_tokens 15) h),
      )
