-- ===== src/Edge/Delivery.antt =====
-- apps/edge-agent/agent.py, `sync`: what is sent and what stays, with events ingested meanwhile.
use operational_intelligence.Prelude.{
  if◌then◌else◌, ℕ, suc, ◌+◌, ◌-◌, ◌≡◌, ◌≢◌, ◌∙◌, refl, sym, ap, subst, String, Option, some, List,
  [], ◌∷◌, ◌++◌, length, drop, arith, length-append, drop-length, length-drop,
}
use operational_intelligence.Edge.{
  EdgeAgent, Connection, Upload, Ending, Synced, persist_queue, ingest_all, finish_sync, sync,
  connected, accepted, disconnected, lost, uncaught, refused, timed_out, unreachable, is_taken,
  with_queue,
}
use operational_intelligence.Edge.Queue.{
  newest, drop-drop, IsBounded, IsStored, ingest_all-newest, ingest_all-IsBounded,
  ingest_all-IsStored, persist_queue-IsStored, queue-persist_queue, max_queue_size-persist_queue,
  ingest_all-max_queue_size,
}

drop-append {ℓ} :
    {A : Type ℓ} (k : ℕ) (xs ys : List A) → drop (length xs + k) (xs ++ ys) ≡ drop k ys
drop-append k [] ys = let e : 0 + k ≡ k = omega arith in ap (λ j. drop j ys) e
drop-append k (x ∷ xs) ys =
    let e : suc (length xs) + k ≡ suc (length xs + k) = omega arith in
    ap (λ j. drop j (x ∷ (xs ++ ys))) e ∙ drop-append k xs ys

-- Dropping a batch from the newest `n` of it and what came after.
drop-newest {ℓ} :
    {A : Type ℓ} (n : ℕ) (xs ys : List A)
    → drop (length xs) (newest n (xs ++ ys)) ≡ drop (length xs + length ys - n) ys
drop-newest n xs ys =
    let k = length (xs ++ ys) - n in
    let e : k + length xs ≡ length xs + (length xs + length ys - n) =
      omega (arith, length-append xs ys) in
    drop-drop (length xs) k (xs ++ ys)
    ∙ ap (λ j. drop j (xs ++ ys)) e
    ∙ drop-append (length xs + length ys - n) xs ys

module _ {Event : Type 0} (save : List Event → Option String)
    (load : String → Option (List Event)) where
  pub sync-connected :
      (a : EdgeAgent Event) (before : List Event) (answer : Upload) (during : List Event)
      → a.queue ≢ []
      → sync save load a connected before answer during
        ≡ finish_sync save load
            (ingest_all save load (ingest_all save load a before) during)
            (ingest_all save load a before).queue
            answer
  unfolding sync
  sync-connected a before answer during h = go a.queue h
    where
      go :
          (q : List Event)
          → q ≢ []
          → (elim q as (λ _. Synced Event) [
            | [] ↦ record { agent = a; uploaded = []; ending = Ending.returned }
            | _ ∷ _ ↦
                finish_sync save load
                  (ingest_all save load (ingest_all save load a before) during)
                  (ingest_all save load a before).queue
                  answer
          ])
            ≡ finish_sync save load
                (ingest_all save load (ingest_all save load a before) during)
                (ingest_all save load a before).queue
                answer
      go [] n = elim (n refl) [ ]
      go (x ∷ q) n = refl

  -- For an agent within its bound that has events queued, an upload that succeeds has sent all
  -- that was queued when it began. Of the events ingested meanwhile the queue then holds all but
  -- the oldest, as many as batch and new events together exceed the bound by: those are neither
  -- sent nor queued.
  pub sync_accepted :
      (a : EdgeAgent Event) (before during : List Event)
      → IsBounded a
      → a.queue ≢ []
      → let r = sync save load a connected before accepted during in
        let batch = (ingest_all save load a before).queue in
        (r.uploaded ≡ batch)
        × (r.agent.queue ≡ drop (length batch + length during - a.max_queue_size) during)
  unfolding finish_sync
  sync_accepted a before during h n =
      let b = ingest_all save load a before in
      let bounded = ingest_all-IsBounded save load a before h in
      let c = ingest_all save load b during in
      let e = sync-connected a before accepted during n in
      (
        ap (λ r. r.uploaded) e,
        ap (λ r. r.agent.queue) e
            ∙ queue-persist_queue save load (with_queue c (drop (length b.queue) c.queue))
            ∙ ap (drop (length b.queue)) (ingest_all-newest save load b during bounded)
            ∙ drop-newest b.max_queue_size b.queue during
            ∙ ap (λ m. drop (length b.queue + length during - m) during)
                (ingest_all-max_queue_size save load a before h),
      )

  -- After an upload that began with a full queue, every event ingested meanwhile is gone.
  pub sync_full :
      (a : EdgeAgent Event) (before during : List Event)
      → IsBounded a
      → a.queue ≢ []
      → length (ingest_all save load a before).queue ≡ a.max_queue_size
      → (sync save load a connected before accepted during).agent.queue ≡ []
  sync_full a before during h n full =
      let e : length (ingest_all save load a before).queue + length during - a.max_queue_size
          ≡ length during =
        omega (arith, full) in
      (sync_accepted a before during h n).1 ∙ ap (λ k. drop k during) e ∙ drop-length during

  -- For an agent that has events queued and reaches the cloud, an upload that does not succeed
  -- loses nothing: the agent is as the ingestions alone leave it, also where the cloud has taken
  -- the batch.
  pub sync_retained :
      (a : EdgeAgent Event) (before : List Event) (answer : Upload) (during : List Event)
      → a.queue ≢ []
      → answer ≢ accepted
      → let r = sync save load a connected before answer during in
        (r.uploaded ≡ (if is_taken answer then (ingest_all save load a before).queue else []))
        × (r.agent ≡ ingest_all save load (ingest_all save load a before) during)
  unfolding finish_sync
  sync_retained a before answer during n h =
      subst
        (λ (r : Synced Event).
          (r.uploaded ≡ (if is_taken answer then (ingest_all save load a before).queue else []))
          × (r.agent ≡ ingest_all save load (ingest_all save load a before) during))
        (sym (sync-connected a before answer during n)) (go answer h)
    where
      go :
          (u : Upload)
          → u ≢ accepted
          → let r =
              finish_sync save load
                (ingest_all save load (ingest_all save load a before) during)
                (ingest_all save load a before).queue
                u in
            (r.uploaded ≡ (if is_taken u then (ingest_all save load a before).queue else []))
            × (r.agent ≡ ingest_all save load (ingest_all save load a before) during)
      go accepted k = elim (k refl) [ ]
      go unreachable k = (refl, refl)
      go (refused taken) k = (refl, refl)
      go (timed_out taken) k = (refl, refl)
      go (uncaught taken) k = (refl, refl)

  -- What holds of the agents at which a `sync` can end holds of the agent it leaves.
  sync-cases {κ} :
      (P : EdgeAgent Event → Type κ) (a : EdgeAgent Event) (connection : Connection)
      (before : List Event) (answer : Upload) (during : List Event)
      → P a
      → P (ingest_all save load a before)
      → P (ingest_all save load (ingest_all save load a before) during)
      → ((c : EdgeAgent Event) (k : ℕ)
          → P c
          → P (persist_queue save load (with_queue c (drop k c.queue))))
      → P (sync save load a connection before answer during).agent
  unfolding sync finish_sync
  sync-cases P a connection before answer during start tried ended step =
      go a.queue connection answer
    where
      c : EdgeAgent Event
      c = ingest_all save load (ingest_all save load a before) during

      finished :
          (u : Upload) → P (finish_sync save load c (ingest_all save load a before).queue u).agent
      finished accepted = step c (length (ingest_all save load a before).queue) ended
      finished unreachable = ended
      finished (refused taken) = ended
      finished (timed_out taken) = ended
      finished (uncaught taken) = ended

      go :
          (q : List Event) (d : Connection) (u : Upload)
          → P
              (elim q as (λ _. Synced Event) [
                | [] ↦ record { agent = a; uploaded = []; ending = Ending.returned }
                | _ ∷ _ ↦ elim d as (λ _. Synced Event) [
                  | connected ↦ finish_sync save load c (ingest_all save load a before).queue u
                  | disconnected ↦ record {
                    agent = ingest_all save load a before;
                    uploaded = [];
                    ending = Ending.returned;
                  }
                  | lost ↦ record {
                    agent = ingest_all save load a before;
                    uploaded = [];
                    ending = Ending.raised;
                  }
                ]
              ]).agent
      go [] d u = start
      go (_ ∷ _) connected u = finished u
      go (_ ∷ _) disconnected u = tried
      go (_ ∷ _) lost u = tried

  -- A `sync` of an agent within its bound leaves it within its bound, on every branch and whatever
  -- is ingested meanwhile.
  pub sync-IsBounded :
      (a : EdgeAgent Event) (connection : Connection) (before : List Event) (answer : Upload)
      (during : List Event)
      → IsBounded a
      → IsBounded (sync save load a connection before answer during).agent
  sync-IsBounded a connection before answer during h =
      let tried = ingest_all-IsBounded save load a before h in
      sync-cases IsBounded a connection before answer during h tried
        (ingest_all-IsBounded save load _ during tried)
        (λ c k b. (
          omega
              (arith, b.0, max_queue_size-persist_queue save load (with_queue c (drop k c.queue))),
          omega (
            arith,
            b.1,
            length-drop k c.queue,
            ap length (queue-persist_queue save load (with_queue c (drop k c.queue))),
            max_queue_size-persist_queue save load (with_queue c (drop k c.queue)),
          ),
        ))

  -- Where the file can be read back, an agent within its bound whose file holds its queue still
  -- has such a file after a `sync`, however that ended and whatever was ingested meanwhile: a
  -- restart has the queue it had. Without a configured file there is nothing to show.
  pub sync-IsStored :
      (faithful : (q : List Event)
        → (text : String) × ((save q ≡ some text) × (load text ≡ some q)))
      (a : EdgeAgent Event) (connection : Connection) (before : List Event) (answer : Upload)
      (during : List Event)
      → IsBounded a
      → IsStored save load a
      → IsStored save load (sync save load a connection before answer during).agent
  sync-IsStored faithful a connection before answer during h k =
      let tried = ingest_all-IsStored save load faithful a before h k in
      let bounded = ingest_all-IsBounded save load a before h in
      sync-cases (IsStored save load) a connection before answer during k tried
        (ingest_all-IsStored save load faithful _ during bounded tried)
        (λ c n _. persist_queue-IsStored save load faithful (with_queue c (drop n c.queue)))
