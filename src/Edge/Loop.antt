-- ===== src/Edge/Loop.antt =====
-- apps/edge-agent/agent.py, `_sync_loop`: a sync after each sleep, as long as the agent runs. An
-- exception of a sync is logged.
use operational_intelligence.Prelude.{
  ℕ, zero, suc, if◌then◌else◌, ◌≡◌, ◌≢◌, ◌∙◌, refl, sym, ap, subst, String, Bool, true, false,
  Option, List, [], ◌∷◌, ◌++◌, length, drop, drop-length, All, any_of, List-cases, Bool-cases, inl,
  inr,
}
use operational_intelligence.Edge.{
  EdgeAgent, Connection, Upload, Ending, Synced, ingest_all, finish_sync, sync, connected, accepted,
  disconnected, lost, uncaught, refused, timed_out, unreachable, is_taken, with_queue,
}
use operational_intelligence.Edge.Delivery.{sync-connected}
use operational_intelligence.Edge.Queue.{queue-persist_queue}

-- One round: the events ingested during the sleep, and what the sync meets.
pub record Round (Event : Type 0) : Type 0 where
  pub slept : List Event
  pub connection : Connection
  pub before : List Event
  pub answer : Upload
  pub during : List Event

-- The agent, and the events that the cloud has taken, in the order of the uploads.
pub record Delivered (Event : Type 0) : Type 0 where
  pub agent : EdgeAgent Event
  pub uploaded : List Event

module _ {Event : Type 0} (save : List Event → Option String)
    (load : String → Option (List Event)) where
  unfoldable pub sync_loop : List (Round Event) → EdgeAgent Event → Delivered Event
  unfolding sync ingest_all
  sync_loop [] a = record { agent = a; uploaded = [] }
  sync_loop (r ∷ rounds) a =
      let s =
        sync save load (ingest_all save load a r.slept) r.connection r.before r.answer r.during in
      let rest = sync_loop rounds s.agent in
      record { agent = rest.agent; uploaded = s.uploaded ++ rest.uploaded }

abbrev pub reaches : Connection → Upload → Bool
reaches connected accepted = true
reaches c u = false

abbrev pub is_delivered : {Event : Type 0} → Round Event → Bool
is_delivered r = reaches r.connection r.answer

-- A batch that the cloud takes while the agent keeps it.
abbrev pub is_unanswered : Connection → Upload → Bool
is_unanswered connected accepted = false
is_unanswered connected answer = is_taken answer
is_unanswered c u = false

-- How often that happens before a round is delivered.
unfoldable pub resends : {Event : Type 0} → List (Round Event) → ℕ
resends [] = 0
resends (r ∷ rounds) =
    let rest = resends rounds in
    if is_delivered r then 0 else (if is_unanswered r.connection r.answer then suc rest else rest)

unfoldable pub copies : {Event : Type 0} → ℕ → List Event → List Event
copies zero events = []
copies (suc n) events = events ++ copies n events

-- A round in which nothing is ingested.
abbrev pub IsQuiet : {Event : Type 0} → Round Event → Type 0
IsQuiet r = (r.slept ≡ []) × (r.before ≡ []) × (r.during ≡ [])

module _ {Event : Type 0} (save : List Event → Option String)
    (load : String → Option (List Event)) where
  abbrev round_of : Round Event → EdgeAgent Event → Synced Event
  round_of r a =
      sync save load (ingest_all save load a r.slept) r.connection r.before r.answer r.during

  -- What one quiet round does to the queue.
  abbrev Moves : (delivered unanswered : Bool) → EdgeAgent Event → Synced Event → Type 0
  Moves true unanswered a s = (s.uploaded ≡ a.queue) × (s.agent.queue ≡ [])
  Moves false unanswered a s =
      (s.uploaded ≡ (if unanswered then a.queue else [])) × (s.agent.queue ≡ a.queue)

  sync-idle :
      (a : EdgeAgent Event) (answer : Upload)
      → ((e : Ending) × (sync save load a disconnected [] answer []
            ≡ record { agent = a; uploaded = []; ending = e }))
        × ((e : Ending) × (sync save load a lost [] answer []
              ≡ record { agent = a; uploaded = []; ending = e }))
  unfolding sync ingest_all
  sync-idle a answer = (go a.queue, gone a.queue)
    where
      go :
          (q : List Event)
          → (e : Ending) × ((elim q as (λ _. Synced Event) [
            | [] ↦ record { agent = a; uploaded = []; ending = Ending.returned }
            | _ ∷ _ ↦ record { agent = a; uploaded = []; ending = Ending.returned }
          ])
              ≡ record { agent = a; uploaded = []; ending = e })
      go [] = (Ending.returned, refl)
      go (x ∷ q) = (Ending.returned, refl)

      gone :
          (q : List Event)
          → (e : Ending) × ((elim q as (λ _. Synced Event) [
            | [] ↦ record { agent = a; uploaded = []; ending = Ending.returned }
            | _ ∷ _ ↦ record { agent = a; uploaded = []; ending = Ending.raised }
          ])
              ≡ record { agent = a; uploaded = []; ending = e })
      gone [] = (Ending.returned, refl)
      gone (x ∷ q) = (Ending.raised, refl)

  -- With a connection: nothing to send, or the end of an upload of the whole queue.
  finished :
      (a : EdgeAgent Event) (answer : Upload)
      → Moves
          (reaches connected answer)
          (is_unanswered connected answer)
          a
          (finish_sync save load a a.queue answer)
  unfolding finish_sync
  finished a accepted = (
    refl,
    queue-persist_queue save load (with_queue a (drop (length a.queue) a.queue))
        ∙ drop-length a.queue,
  )
  finished a unreachable = (refl, refl)
  finished a (refused taken) = (refl, refl)
  finished a (timed_out taken) = (refl, refl)
  finished a (uncaught taken) = (refl, refl)

  nothing :
      (b unanswered : Bool) (a : EdgeAgent Event)
      → a.queue ≡ []
      → Moves b unanswered a (record { agent = a; uploaded = []; ending = Ending.returned })
  nothing true unanswered a e = (sym e, e)
  nothing false true a e = (sym e, refl)
  nothing false false a e = (refl, refl)

  sync-empty :
      (a : EdgeAgent Event) (answer : Upload)
      → a.queue ≡ []
      → sync save load a connected [] answer []
        ≡ record { agent = a; uploaded = []; ending = Ending.returned }
  unfolding sync
  sync-empty a answer e = go a.queue e
    where
      go :
          (q : List Event)
          → q ≡ []
          → (elim q as (λ _. Synced Event) [
            | [] ↦ record { agent = a; uploaded = []; ending = Ending.returned }
            | _ ∷ _ ↦
                finish_sync save load
                  (ingest_all save load (ingest_all save load a []) [])
                  (ingest_all save load a []).queue
                  answer
          ])
            ≡ record { agent = a; uploaded = []; ending = Ending.returned }
      go [] h = refl
      go (x ∷ q) h = cc h

  sync_quiet :
      (a : EdgeAgent Event) (connection : Connection) (answer : Upload)
      → Moves
          (reaches connection answer)
          (is_unanswered connection answer)
          a
          (sync save load a connection [] answer [])
  unfolding ingest_all
  sync_quiet a disconnected answer =
      subst (λ s. Moves false false a s) (sym (sync-idle a answer).0.1) (refl, refl)
  sync_quiet a lost answer =
      subst (λ s. Moves false false a s) (sym (sync-idle a answer).1.1) (refl, refl)
  sync_quiet a connected answer =
      let b = reaches connected answer in
      let u = is_unanswered connected answer in
      elim (List-cases a.queue) [
        | inl e ↦ subst (λ s. Moves b u a s) (sym (sync-empty a answer e)) (nothing b u a e)
        | inr (x, q, e) ↦
            let full : a.queue ≢ [] = λ f. cc (e, f) in
            subst (λ s. Moves b u a s) (sym (sync-connected save load a [] answer [] full))
              (finished a answer)
      ]

  stays :
      (b unanswered : Bool) (a : EdgeAgent Event) (s : Synced Event)
      → a.queue ≡ []
      → Moves b unanswered a s
      → (s.uploaded ≡ []) × (s.agent.queue ≡ [])
  stays true unanswered a s empty h = (h.0 ∙ empty, h.1)
  stays false true a s empty h = (h.0 ∙ empty, h.1 ∙ empty)
  stays false false a s empty h = (h.0, h.1 ∙ empty)

  round_quiet :
      (r : Round Event) (a : EdgeAgent Event)
      → IsQuiet r
      → Moves (is_delivered r) (is_unanswered r.connection r.answer) a (round_of r a)
  unfolding ingest_all
  round_quiet r a h = rw (h.0, h.1, h.2) (sync_quiet a r.connection r.answer)

  loop_quiet :
      (rounds : List (Round Event)) (a : EdgeAgent Event)
      → All IsQuiet rounds
      → a.queue ≡ []
      → let r = sync_loop save load rounds a in (r.uploaded ≡ []) × (r.agent.queue ≡ [])
  unfolding sync_loop
  loop_quiet [] a quiet empty = (refl, empty)
  loop_quiet (r ∷ rounds) a quiet empty =
      let s = round_of r a in
      let (sent, left) =
        stays (is_delivered r) (is_unanswered r.connection r.answer) a s empty
          (round_quiet r a quiet.0) in
      let (more, still) = loop_quiet rounds s.agent quiet.1 left in
      (ap (λ q. q ++ (sync_loop save load rounds s.agent).uploaded) sent ∙ more, still)

  -- While nothing is ingested, a run of rounds of which at least one is answered with a success
  -- leaves an empty queue, whatever the other rounds meet, and the cloud has taken the whole queue
  -- in its order: once by the first success, and once more for each batch before it that the cloud
  -- took without a success being answered.
  pub sync_loop-delivers :
      (rounds : List (Round Event)) (a : EdgeAgent Event)
      → All IsQuiet rounds
      → any_of is_delivered rounds ≡ true
      → let r = sync_loop save load rounds a in
        (r.uploaded ≡ copies (suc (resends rounds)) a.queue) × (r.agent.queue ≡ [])
  unfolding sync_loop copies resends
  sync_loop-delivers [] a quiet reached = cc reached
  sync_loop-delivers (r ∷ rounds) a quiet reached =
      let s = round_of r a in
      let moves = round_quiet r a quiet.0 in
      let u = is_unanswered r.connection r.answer in
      let later = (sync_loop save load rounds s.agent).uploaded in
      elim (Bool-cases (is_delivered r)) [
        | inl hit ↦
            let (sent, empty) = subst (λ b. Moves b u a s) hit moves in
            let (more, still) = loop_quiet rounds s.agent quiet.1 empty in
            (rw (hit, resends) (ap (λ q. s.uploaded ++ q) more ∙ ap (λ q. q ++ []) sent), still)
        | inr miss ↦
            let (more, still) = sync_loop-delivers rounds s.agent quiet.1 (rw miss at reached) in
            let (kept, same) = subst (λ b. Moves b u a s) miss moves in
            let rest = more ∙ ap (copies (suc (resends rounds))) same in
            elim (Bool-cases u) [
              | inl twice ↦ (
                rw (miss, twice, resends)
                    (ap (λ q. q ++ later) (rw twice at kept) ∙ ap (λ q. a.queue ++ q) rest),
                still,
              )
              | inr once ↦
                  (rw (miss, once, resends) (ap (λ q. q ++ later) (rw once at kept) ∙ rest), still)
            ]
      ]
