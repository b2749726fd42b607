-- ===== src/Edge.antt =====
-- apps/edge-agent/agent.py, class `EdgeAgent`, with the fields of `EdgeConfig` it reads: the queue of
-- events, its file, and the batch upload. `Event` is one event, stamped. `save` is the text that
-- `_persist_queue` leaves in the file (`none`: an exception before the file is written, which is
-- logged), `load` reads it back (`none`: an exception). While an upload waits for its answer, the agent ingests other events.
pub mod LocalRules
pub mod Queue
pub mod Delivery
pub mod Loop
pub mod EdgeTests
use operational_intelligence.Prelude.{
  ℕ, suc, ◌+◌, String, Bool, true, false, Option, some, none, List, [], ◌∷◌, ◌++◌, if◌then◌else◌,
  leb, length, drop, ◌==◌,
}

-- What `offline_storage_path` names: nothing is configured, there is no file, or its text.
pub data Storage : Type 0 where
  unconfigured missing : Storage
  file : String → Storage

pub record EdgeAgent (Event : Type 0) : Type 0 where
  pub max_queue_size : ℕ
  pub queue : List Event
  pub storage : Storage

-- The answer to `_is_connected`: reachable, ConnectError and TimeoutException or a status other than
-- 200, or another exception.
pub data Connection : Type 0 where
  connected disconnected lost : Connection

-- What comes of the POST of a batch: a success, HTTPStatusError, ConnectError, TimeoutException, or
-- an exception that `sync` does not catch. The cloud may have taken the batch although no success
-- is answered, as when the answer is late; `taken` says so.
pub data Upload : Type 0 where
  accepted unreachable : Upload
  refused timed_out uncaught : (taken : Bool) → Upload

-- Whether the cloud has the batch.
abbrev pub is_taken : Upload → Bool
is_taken accepted = true
is_taken unreachable = false
is_taken (refused taken) = taken
is_taken (timed_out taken) = taken
is_taken (uncaught taken) = taken

pub data Ending : Type 0 where
  returned raised : Ending

-- What a call of `sync` leaves: the agent, the events the cloud has taken, and how it ends.
pub record Synced (Event : Type 0) : Type 0 where
  pub agent : EdgeAgent Event
  pub uploaded : List Event
  pub ending : Ending

abbrev pub with_queue : {Event : Type 0} → EdgeAgent Event → List Event → EdgeAgent Event
with_queue a queue = record {
  max_queue_size = a.max_queue_size;
  queue = queue;
  storage = a.storage;
}

unfoldable pub enqueue :
    {Event : Type 0} → (max_queue_size : ℕ) → List Event → Event → Option (List Event)
enqueue max_queue_size [] event = if leb max_queue_size 0 then none else some (event ∷ [])
enqueue max_queue_size (oldest ∷ queue) event =
    if leb max_queue_size (length (oldest ∷ queue))
    then some (queue ++ (event ∷ []))
    else some ((oldest ∷ queue) ++ (event ∷ []))

module _ {Event : Type 0} (save : List Event → Option String)
    (load : String → Option (List Event)) where
  unfoldable pub persist_queue : EdgeAgent Event → EdgeAgent Event
  persist_queue a = elim a.storage [
    | unconfigured ↦ a
    | _ ↦ elim (save a.queue) [
      | none ↦ a
      | some text ↦ record {
        max_queue_size = a.max_queue_size;
        queue = a.queue;
        storage = file text;
      }
    ]
  ]

  abbrev pub restored : Storage → List Event
  restored unconfigured = []
  restored missing = []
  restored (file text) = elim (load text) [ none ↦ [] | some events ↦ events ]

  -- `__init__`, which restores the queue
  unfoldable pub new_agent : (max_queue_size : ℕ) → Storage → EdgeAgent Event
  new_agent max_queue_size storage = record {
    max_queue_size = max_queue_size;
    queue = restored storage;
    storage = storage;
  }

  -- `ingest_event` up to the local rules; `none` is IndexError
  unfoldable pub ingest_event : EdgeAgent Event → Event → Option (EdgeAgent Event)
  unfolding enqueue persist_queue
  ingest_event a event = elim (enqueue a.max_queue_size a.queue event) [
    | none ↦ none
    | some queue ↦ some (persist_queue (with_queue a queue))
  ]

  -- A run of ingestions, each of which may raise for its caller only.
  unfoldable pub ingest_all : EdgeAgent Event → List Event → EdgeAgent Event
  unfolding ingest_event
  ingest_all a [] = a
  ingest_all a (event ∷ events) = elim (ingest_event a event) [
    | none ↦ ingest_all a events
    | some b ↦ ingest_all b events
  ]

  -- The end of an upload of `batch`, with the queue as it is by then.
  unfoldable pub finish_sync : EdgeAgent Event → (batch : List Event) → Upload → Synced Event
  unfolding persist_queue
  finish_sync a batch accepted = record {
    agent = persist_queue (with_queue a (drop (length batch) a.queue));
    uploaded = batch;
    ending = returned;
  }
  finish_sync a batch (uncaught taken) = record {
    agent = a;
    uploaded = if taken then batch else [];
    ending = raised;
  }
  finish_sync a batch answer = record {
    agent = a;
    uploaded = if is_taken answer then batch else [];
    ending = returned;
  }

  -- `sync`, with the events ingested while the connection is tried and while the batch is uploaded
  unfoldable pub sync :
      EdgeAgent Event
      → Connection
      → (before : List Event) → Upload
      → (during : List Event) → Synced Event
  unfolding ingest_all finish_sync
  sync a connection before answer during = elim a.queue [
    | [] ↦ record { agent = a; uploaded = []; ending = returned }
    | _ ∷ _ ↦ elim connection [
      | connected ↦
          finish_sync (ingest_all (ingest_all a before) during) (ingest_all a before).queue answer
      | disconnected ↦ record { agent = ingest_all a before; uploaded = []; ending = returned }
      | lost ↦ record { agent = ingest_all a before; uploaded = []; ending = raised }
    ]
  ]

  -- `stop`: a last `sync`, and the queue is persisted unless that raises
  unfoldable pub stop :
      EdgeAgent Event
      → Connection
      → (before : List Event) → Upload
      → (during : List Event) → Synced Event
  unfolding sync persist_queue
  stop a connection before answer during =
      let r = sync a connection before answer during in
      elim r.ending [
        | returned ↦ record {
          agent = persist_queue r.agent;
          uploaded = r.uploaded;
          ending = returned;
        }
        | raised ↦ r
      ]
