-- ===== src/Edge/EdgeTests.antt =====
-- The edge agent with numbers for events.
use operational_intelligence.Prelude.{
  true, false, ℕ, ◌+◌, ◌-◌, ◌≡◌, ◌≢◌, refl, ap, String, Option, some, none, List, [], ◌∷◌, length,
  drop, arith,
}
use operational_intelligence.Prelude.Int.{pos}
use operational_intelligence.Prelude.Dict.{Dict}
use operational_intelligence.Rules.Syntax.{Value}
use operational_intelligence.Rules.Samples.{tiny}
use operational_intelligence.Edge.{
  EdgeAgent, Connection, Upload, file, connected, accepted, ingest_all, sync,
}
use operational_intelligence.Edge.Queue.{newest, IsBounded, ingest_all-newest}
use operational_intelligence.Edge.Delivery.{sync_accepted}
use operational_intelligence.Edge.Loop.{Round, sync_loop, copies, resends, sync_loop-delivers}
use operational_intelligence.Edge.LocalRules.{LocalRule}

pub data Ping : Type 0 where
  ping : Ping

-- The file of a queue of pings holds one letter for each.
abbrev letters : List Ping → String
letters [] = String.[]
letters (ping ∷ q) = String.◌∷◌ "x" (letters q)

abbrev pings : String → List Ping
pings String.[] = []
pings (String.◌∷◌ c s) = ping ∷ pings s

abbrev save : List Ping → Option String
save q = some (letters q)

abbrev load : String → Option (List Ping)
load s = some (pings s)

pings-letters : (q : List Ping) → pings (letters q) ≡ q
pings-letters [] = refl
pings-letters (ping ∷ q) = rw (pings-letters q) refl

saved : (q : List Ping) → (text : String) × ((save q ≡ some text) × (load text ≡ some q))
saved q = (letters q, (refl, ap some (pings-letters q)))

abbrev agent : EdgeAgent Ping
agent = record { max_queue_size = 2; queue = ping ∷ []; storage = file "x" }

abbrev two : List Ping
two = ping ∷ ping ∷ []

bounded : IsBounded agent
bounded = (omega arith, omega arith)

queued : agent.queue ≢ []
queued e = ground arith

ingest_all-newest_example : (ingest_all save load agent two).queue ≡ newest 2 (ping ∷ two)
ingest_all-newest_example = ingest_all-newest save load agent two bounded

sync_accepted_example :
    let r = sync save load agent connected [] accepted two in
    let batch = (ingest_all save load agent []).queue in
    (r.uploaded ≡ batch) × (r.agent.queue ≡ drop (length batch + length two - 2) two)
sync_accepted_example = sync_accepted save load agent [] two bounded queued

abbrev no_dict : Value tiny → Option (Dict (Value tiny))
no_dict v = none

abbrev no_json : String → Option (Value tiny)
no_json text = some Value.null

abbrev cold : LocalRule tiny
cold = record {
  name = some "cold";
  field = some "temperature";
  operator = some "<";
  threshold = some (Value.int (pos 5));
  severity = none;
}

abbrev reading : ℕ → Dict (Value tiny)
reading n = ("temperature", Value.int (pos n)) ∷ []

abbrev textual : Dict (Value tiny)
textual = ("payload", Value.str "null") ∷ []

abbrev meets : Connection → Upload → Round Ping
meets c u = record { slept = []; connection = c; before = []; answer = u; during = [] }

abbrev rounds : List (Round Ping)
rounds =
    meets Connection.disconnected accepted
    ∷ meets connected (Upload.timed_out true)
    ∷ meets connected (Upload.refused false)
    ∷ meets connected accepted
    ∷ meets Connection.lost accepted
    ∷ []

sync_loop-delivers_example :
    let r = sync_loop save load rounds agent in
    (r.uploaded ≡ ping ∷ ping ∷ []) × (r.agent.queue ≡ [])
unfolding copies resends
sync_loop-delivers_example =
    sync_loop-delivers save load rounds agent
      (
        (refl, refl, refl),
        ((refl, refl, refl), ((refl, refl, refl), ((refl, refl, refl), ((refl, refl, refl), tt)))),
      )
      refl
