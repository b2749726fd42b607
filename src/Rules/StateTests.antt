-- ===== src/Rules/StateTests.antt =====
-- Reads and writes of the rule states at concrete stores.
use operational_intelligence.Prelude.{String, true, false, ◌≡◌, refl, Option, some, none, arith}
use operational_intelligence.Rules.State.{RuleKey, same_key, Entry, Stores, get_state, update_state}
use operational_intelligence.Rules.State.Reads.{both_up, later, get-update_fresh, get-update_stale}

-- A state is its own text.
abbrev write : String → String
write st = st

abbrev read : String → Option String
read text = some text

abbrev first_key : RuleKey
first_key = record { rule_id = 1; tenant_id = 1 }

abbrev second_key : RuleKey
second_key = record { rule_id = 1; tenant_id = 2 }

-- Redis holds a state of the first key until time 100.
abbrev stores : Stores
stores = record { redis = λ k. if_key k; pg = λ _. none; clock = 10 }
  where
    if_key : RuleKey → Option Entry
    if_key k = elim (same_key first_key k) [
      | true ↦ some (record { text = "old"; expires = 100 })
      | false ↦ none
    ]

get-update_fresh_example :
    get_state read "" both_up first_key
      (later 59 (update_state write both_up first_key "new" 60 stores))
    ≡ "new"
get-update_fresh_example =
    get-update_fresh write read "" first_key "new" 60 59 stores refl (omega arith) (omega arith)

get-update_stale_example :
    get_state read "" both_up first_key (update_state write both_up first_key "new" 86400 stores)
    ≡ "old"
get-update_stale_example =
    get-update_stale write read "" first_key "new" "old" "old" 86400 stores (omega arith) refl refl
