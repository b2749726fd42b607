-- ===== src/Edge/Queue.antt =====
-- apps/edge-agent/agent.py, `ingest_event`: the bound of the event queue, what it keeps, and its file.
use operational_intelligence.Prelude.{
  ℕ, suc, ◌+◌, ◌-◌, ◌≤◌, ◌<◌, ◌≡◌, ◌∙◌, refl, sym, ap, subst, String, Option, some, none, List, [],
  ◌∷◌, ◌++◌, length, drop, arith, leb, leb→le, if◌then◌else◌, Bool-cases, inl, inr, length-append,
  length-drop, append_assoc, append-nil, ◌⊎◌,
}
use operational_intelligence.Edge.{
  EdgeAgent, Storage, persist_queue, restored, enqueue, ingest_event, ingest_all, with_queue,
}

-- the last `n` events
abbrev pub newest {ℓ} : {A : Type ℓ} → (n : ℕ) → List A → List A
newest n xs = drop (length xs - n) xs

drop-append_le {ℓ} :
    {A : Type ℓ} (n : ℕ) (xs ys : List A) → n ≤ length xs → drop n xs ++ ys ≡ drop n (xs ++ ys)
drop-append_le ℕ.zero xs ys h = refl
drop-append_le (suc n) [] ys h = elim h [ ]
drop-append_le (suc n) (x ∷ xs) ys h = drop-append_le n xs ys (omega arith)

drop_at {ℓ} : {A : Type ℓ} {n k : ℕ} (xs : List A) → n ≡ k → drop n xs ≡ drop k xs
drop_at xs = ap (λ n. drop n xs)

drop-nil {ℓ} : {A : Type ℓ} (n : ℕ) → drop {A = A} n [] ≡ []
drop-nil ℕ.zero = refl
drop-nil (suc n) = refl

pub drop-drop {ℓ} : {A : Type ℓ} (n k : ℕ) (xs : List A) → drop n (drop k xs) ≡ drop (k + n) xs
drop-drop n ℕ.zero xs = drop_at xs (omega arith)
drop-drop n (suc k) [] = drop-nil n ∙ sym (drop-nil (suc k + n))
drop-drop n (suc k) (x ∷ xs) =
    let e : suc (k + n) ≡ suc k + n = omega arith in drop-drop n k xs ∙ drop_at (x ∷ xs) e

enqueue-newest :
    {Event : Type 0} (n : ℕ) (queue : List Event) (event : Event)
    → 0 < n
    → length queue ≤ n
    → enqueue n queue event ≡ some (newest n (queue ++ (event ∷ [])))
unfolding enqueue
enqueue-newest n [] event p h =
    let e : 0 ≡ suc 0 - n = omega arith in
    let d : (event ∷ []) ≡ drop (suc 0 - n) (event ∷ []) = drop_at (event ∷ []) e in
    ground (arith, ap some d)
enqueue-newest n (x ∷ queue) event p h =
    let all = x ∷ (queue ++ (event ∷ [])) in
    let c : length (queue ++ (event ∷ [])) ≡ suc (length queue) =
      omega (arith, length-append queue (event ∷ [])) in
    elim (Bool-cases (leb n (suc (length queue)))) [
      | inl t ↦
          let e : 1 ≡ length all - n = omega (arith, c, leb→le _ _ t) in
          ap (λ b. if b then some (queue ++ (event ∷ [])) else some all) t ∙ ap some (drop_at all e)
      | inr f ↦
          let e : 0 ≡ length all - n = ground (arith, c) in
          ap (λ b. if b then some (queue ++ (event ∷ [])) else some all) f ∙ ap some (drop_at all e)
    ]

length-newest {ℓ} : {A : Type ℓ} (n : ℕ) (xs : List A) → length (newest n xs) ≤ n
length-newest n xs = omega (arith, length-drop (length xs - n) xs)

newest_all {ℓ} : {A : Type ℓ} (n : ℕ) (xs : List A) → length xs ≤ n → newest n xs ≡ xs
newest_all n xs h = let e : length xs - n ≡ 0 = omega arith in drop_at xs e

newest-append {ℓ} :
    {A : Type ℓ} (n : ℕ) (xs ys : List A) → newest n (newest n xs ++ ys) ≡ newest n (xs ++ ys)
newest-append n xs ys =
    let k = length xs - n in
    let le : k ≤ length xs = omega arith in
    let e : k + (length (drop k (xs ++ ys)) - n) ≡ length (xs ++ ys) - n =
      omega (arith, length-drop k (xs ++ ys), length-append xs ys) in
    ap (newest n) (drop-append_le k xs ys le)
    ∙ drop-drop (length (drop k (xs ++ ys)) - n) k (xs ++ ys)
    ∙ drop_at (xs ++ ys) e

-- The agent can hold an event and holds no more than it may.
abbrev pub IsBounded : {Event : Type 0} → EdgeAgent Event → Type 0
IsBounded a = (0 < a.max_queue_size) × (length a.queue ≤ a.max_queue_size)

module _ {Event : Type 0} (save : List Event → Option String)
    (load : String → Option (List Event)) where
  pub queue-persist_queue : (a : EdgeAgent Event) → (persist_queue save load a).queue ≡ a.queue
  unfolding persist_queue
  queue-persist_queue a = ground arith

  pub max_queue_size-persist_queue :
      (a : EdgeAgent Event) → (persist_queue save load a).max_queue_size ≡ a.max_queue_size
  unfolding persist_queue
  max_queue_size-persist_queue a = ground arith

  stored : EdgeAgent Event → List Event → EdgeAgent Event
  stored a events = persist_queue save load (with_queue a (newest a.max_queue_size events))

  ingest_event_lem :
      (a : EdgeAgent Event) (event : Event)
      → IsBounded a
      → ingest_event save load a event ≡ some (stored a (a.queue ++ (event ∷ [])))
  unfolding ingest_event stored
  ingest_event_lem a event h =
      ap
        (λ q. elim q as (λ _. Option (EdgeAgent Event)) [
          | none ↦ none
          | some queue ↦ some (persist_queue save load (with_queue a queue))
        ])
        (enqueue-newest a.max_queue_size a.queue event h.0 h.1)

  queue-stored :
      (a : EdgeAgent Event) (es : List Event) → (stored a es).queue ≡ newest a.max_queue_size es
  unfolding stored
  queue-stored a es = queue-persist_queue (with_queue a (newest a.max_queue_size es))

  max_queue_size-stored :
      (a : EdgeAgent Event) (es : List Event) → (stored a es).max_queue_size ≡ a.max_queue_size
  unfolding stored
  max_queue_size-stored a es =
      max_queue_size-persist_queue (with_queue a (newest a.max_queue_size es))

  stored-IsBounded :
      (a : EdgeAgent Event) (es : List Event) → 0 < a.max_queue_size → IsBounded (stored a es)
  stored-IsBounded a es h = (
    omega (arith, max_queue_size-stored a es),
    omega (
      arith,
      max_queue_size-stored a es,
      ap length (queue-stored a es),
      length-newest a.max_queue_size es,
    ),
  )

  ingest_all-cons :
      (a : EdgeAgent Event) (event : Event) (events : List Event)
      → IsBounded a
      → ingest_all save load a (event ∷ events)
        ≡ ingest_all save load (stored a (a.queue ++ (event ∷ []))) events
  unfolding ingest_all
  ingest_all-cons a event events h =
      ap
        (λ r. elim r as (λ _. EdgeAgent Event) [
          | none ↦ ingest_all save load a events
          | some b ↦ ingest_all save load b events
        ])
        (ingest_event_lem a event h)

  -- From an agent within its bound, a run of ingestions leaves the newest events that fit, oldest
  -- first: what was queued before and then what came, less the oldest.
  pub ingest_all-newest :
      (a : EdgeAgent Event) (events : List Event)
      → IsBounded a
      → (ingest_all save load a events).queue ≡ newest a.max_queue_size (a.queue ++ events)
  unfolding ingest_all
  ingest_all-newest a [] h = sym (
      newest_all a.max_queue_size (a.queue ++ []) (omega (arith, h.1, length-append a.queue []))
      ∙ append-nil a.queue)
  ingest_all-newest a (event ∷ events) h =
      let b = stored a (a.queue ++ (event ∷ [])) in
      ap (λ c. c.queue) (ingest_all-cons a event events h)
      ∙ ingest_all-newest b events (stored-IsBounded a _ h.0)
      ∙ ap (λ n. newest n (b.queue ++ events)) (max_queue_size-stored a _)
      ∙ ap (λ q. newest a.max_queue_size (q ++ events)) (queue-stored a _)
      ∙ newest-append a.max_queue_size (a.queue ++ (event ∷ [])) events
      ∙ ap (newest a.max_queue_size) (append_assoc a.queue (event ∷ []) events)

  pub ingest_all-max_queue_size :
      (a : EdgeAgent Event) (events : List Event)
      → IsBounded a
      → (ingest_all save load a events).max_queue_size ≡ a.max_queue_size
  unfolding ingest_all
  ingest_all-max_queue_size a [] h = refl
  ingest_all-max_queue_size a (event ∷ events) h =
      ap (λ c. c.max_queue_size) (ingest_all-cons a event events h)
      ∙ ingest_all-max_queue_size (stored a _) events (stored-IsBounded a _ h.0)
      ∙ max_queue_size-stored a _

  -- Ingestion keeps the queue within its bound.
  pub ingest_all-IsBounded :
      (a : EdgeAgent Event) (events : List Event)
      → IsBounded a
      → IsBounded (ingest_all save load a events)
  ingest_all-IsBounded a events h =
      let m = ingest_all-max_queue_size a events h in
      let q = ap length (ingest_all-newest a events h) in
      (
        omega (arith, m, h.0),
        omega (arith, m, q, length-newest a.max_queue_size (a.queue ++ events)),
      )

  -- A restart reads back from the file what is queued, where a file is configured.
  abbrev pub IsStored : EdgeAgent Event → Type 0
  IsStored a = (a.storage ≡ Storage.unconfigured) ⊎ (restored save load a.storage ≡ a.queue)

  module _
      (faithful : (q : List Event)
        → (text : String) × ((save q ≡ some text) × (load text ≡ some q))) where
    pub persist_queue-IsStored : (a : EdgeAgent Event) → IsStored (persist_queue save load a)
    unfolding persist_queue
    persist_queue-IsStored a = ground (arith, (faithful a.queue).1.0, (faithful a.queue).1.1)

    pub ingest_all-IsStored :
        (a : EdgeAgent Event) (events : List Event)
        → IsBounded a
        → IsStored a
        → IsStored (ingest_all save load a events)
    unfolding ingest_all stored
    ingest_all-IsStored a [] h k = k
    ingest_all-IsStored a (event ∷ events) h k =
        let b = stored a (a.queue ++ (event ∷ [])) in
        subst IsStored (sym (ingest_all-cons a event events h)) (
          ingest_all-IsStored b events (stored-IsBounded a _ h.0) (
            persist_queue-IsStored
              (with_queue a (newest a.max_queue_size (a.queue ++ (event ∷ []))))))
