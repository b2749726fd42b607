-- ===== src/Pipeline/Jobs.antt =====
-- The jobs that the loops over the triggered rules hand to the queue.
use operational_intelligence.Prelude.{
  ℕ, suc, ◌+◌, ◌≤◌, ◌≡◌, refl, sym, List, [], ◌∷◌, ◌++◌, map, length, arith, append-nil,
  append_assoc, ◌∙◌,
}
use operational_intelligence.Rules.Syntax.{Runtime}
use operational_intelligence.Rules.Evaluator.{Triggered}
use operational_intelligence.Pipeline.{Job, Enqueue, delivered, counted, enqueue_alerts}

-- A triggered rule before the list, where its job reached the queue.
abbrev pub placed : Enqueue → Triggered → List Triggered → List Triggered
placed Enqueue.refused t rest = rest
placed _ t rest = t ∷ rest

counted-placed :
    (o : Enqueue) (t : Triggered) (n : ℕ) (rest : List Triggered)
    → n ≤ length rest
    → counted o + n ≤ length (placed o t rest)
counted-placed Enqueue.refused t n rest h = omega (arith, h)
counted-placed Enqueue.close_failed t n rest h = omega arith
counted-placed Enqueue.enqueued t n rest h = omega arith

length-placed :
    (o : Enqueue) (t : Triggered) (rest : List Triggered)
    → length (placed o t rest) ≤ suc (length rest)
length-placed Enqueue.refused t rest = omega arith
length-placed Enqueue.close_failed t rest = omega arith
length-placed Enqueue.enqueued t rest = omega arith

module _ {rt : Runtime} (job : Triggered → Job rt) (pool : ℕ → Enqueue) where
  -- The rules whose job reached the queue, from the i-th call on.
  abbrev pub reached : ℕ → List Triggered → List Triggered
  reached i [] = []
  reached i (t ∷ ts) = placed (pool i) t (reached (suc i) ts)

  delivered-placed :
      (o : Enqueue) (t : Triggered) (jobs : List (Job rt)) (rest : List Triggered)
      → delivered o (job t) jobs ++ map job rest ≡ jobs ++ map job (placed o t rest)
  delivered-placed Enqueue.refused t jobs rest = refl
  delivered-placed Enqueue.close_failed t jobs rest = append_assoc jobs (job t ∷ []) (map job rest)
  delivered-placed Enqueue.enqueued t jobs rest = append_assoc jobs (job t ∷ []) (map job rest)

  pub enqueue_alerts-reached :
      (i : ℕ) (ts : List Triggered) (jobs : List (Job rt))
      → (enqueue_alerts job pool i ts jobs).1 ≡ jobs ++ map job (reached i ts)
  unfolding enqueue_alerts
  enqueue_alerts-reached i [] jobs = sym (append-nil jobs)
  enqueue_alerts-reached i (t ∷ ts) jobs =
      enqueue_alerts-reached (suc i) ts (delivered (pool i) (job t) jobs)
      ∙ delivered-placed (pool i) t jobs (reached (suc i) ts)

  -- The count of enqueued alerts is at most the number of jobs that reached the queue, which is at
  -- most the number of triggered rules.
  pub enqueue_alerts-counts :
      (i : ℕ) (ts : List Triggered) (jobs : List (Job rt))
      → ((enqueue_alerts job pool i ts jobs).0 ≤ length (reached i ts))
        × (length (reached i ts) ≤ length ts)
  unfolding enqueue_alerts
  enqueue_alerts-counts i [] jobs = (omega arith, omega arith)
  enqueue_alerts-counts i (t ∷ ts) jobs =
      let (low, high) = enqueue_alerts-counts (suc i) ts (delivered (pool i) (job t) jobs) in
      (
        counted-placed (pool i) t _ (reached (suc i) ts) low,
        omega (arith, length-placed (pool i) t (reached (suc i) ts), high),
      )
