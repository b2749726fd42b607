-- ===== src/SqlTools.antt =====
-- apps/mcp-sql-tools/server.py, the handlers of `SQLToolsServer`: the SQL text and the parameters
-- that a handler gives to the session, or its exception. `int_of_text` and `int_of` are int() of a
-- text and of a limit, and `is_date` says whether so many units before the current time are a date;
-- the database is outside.
pub mod Queries
pub mod SqlToolsTests
use Prim.Native.String.{◌++◌}
use operational_intelligence.Prelude.{
  ℕ, String, Bool, true, false, Option, some, none, List, [], ◌∷◌, if◌then◌else◌, str_eq,
}
use operational_intelligence.Prelude.Int.{ℤ, pos, ltb_ℤ}
use operational_intelligence.Prelude.Dict.{Dict, insert}

-- A value of a query's parameters; `before` is the current time less so many units of seconds.
pub data Param : Type 0 where
  text : String → Param
  number : ℤ → Param
  before : (value : ℤ) → (unit_seconds : ℕ) → Param

abbrev pub Params : Type 0
Params = Dict Param

-- A query for the session, or the exceptions ValueError, IndexError, OverflowError and
-- RuntimeError.
pub data Prepared : Type 0 where
  prepared : (query : String) → Params → Prepared
  value_error index_error overflow_error no_factory : Prepared

-- A time range without its last character, and this character.
abbrev pub split_last : String → Option (String × String)
split_last String.[] = none
split_last (String.◌∷◌ c s) =
    let rest = split_last s in
    elim rest [ none ↦ some ("", String.◌∷◌ c "") | some p ↦ some (String.◌∷◌ c p.0, p.1) ]

-- The filters of an event query; a filter is `none` where the key is absent.
pub record EventFilters (Limit : Type 0) : Type 0 where
  pub event_type : Option String
  pub entity_id : Option String
  pub date_range : Option String
  pub limit : Option Limit

pub record AlertFilters : Type 0 where
  pub severity : Option String
  pub status : Option String
  pub entity_id : Option String

-- filters.get(key), where an empty text is false
abbrev pub given : Option String → Option String
given none = none
given (some s) = if str_eq s "" then none else some s

-- if filters.get(key): query += clause; params[key] = filters[key]
abbrev pub add_clause : (key clause : String) → Option String → String × Params → String × Params
add_clause key clause none q = q
add_clause key clause (some s) q = (q.0 ++ clause, insert key (text s) q.1)

abbrev pub min_limit : ℤ → ℤ
min_limit n = if ltb_ℤ n (pos 1000) then n else pos 1000

abbrev pub done : String × Params → Prepared
done q = prepared q.0 q.1

module _ (int_of_text : String → Option ℤ) (is_date : (value : ℤ) → (unit_seconds : ℕ) → Bool) where
  abbrev pub before_now : ℤ → ℕ → (Param → Prepared) → Prepared
  before_now n seconds next = if is_date n seconds then next (before n seconds) else overflow_error

  abbrev pub range_of : (unit : String) → Option ℤ → (Param → Prepared) → Prepared
  range_of unit none next = value_error
  range_of unit (some n) next =
      if str_eq unit "h"
      then before_now n 3600 next
      else (if str_eq unit "d" then before_now n 86400 next else value_error)

  -- The value comes before the unit: int() is called first.
  unfoldable pub parse_time_range : String → (Param → Prepared) → Prepared
  parse_time_range time_range next = elim (split_last time_range) [
    | none ↦ index_error
    | some (value, unit) ↦ range_of unit (int_of_text value) next
  ]

  -- if filters.get("date_range"): …, and then `next`
  abbrev pub add_cutoff : Option String → String × Params → (String × Params → Prepared) → Prepared
  add_cutoff none q next = next q
  add_cutoff (some range) q next =
      parse_time_range range
        (λ cutoff. next (q.0 ++ " AND created_at >= :cutoff", insert "cutoff" cutoff q.1))

  module _ {Limit : Type 0} (int_of : Limit → Option ℤ) where
    -- int(filters.get("limit", 100)); `none` is ValueError or TypeError
    abbrev pub limit_of : Option Limit → Option ℤ
    limit_of none = some (pos 100)
    limit_of (some l) = int_of l

    abbrev pub events_query : (tenant_id : String) → EventFilters Limit → ℤ → Prepared
    events_query tenant_id filters limit =
        let q0 : String × Params = (
          "SELECT id, event_type, entity_id, payload, created_at FROM events WHERE tenant_id = :tenant_id",
          ("tenant_id", text tenant_id) ∷ [],
        ) in
        let q1 =
          add_clause "event_type" " AND event_type = :event_type" (given filters.event_type) q0 in
        let q2 =
          add_clause "entity_id" " AND entity_id = :entity_id" (given filters.entity_id) q1 in
        add_cutoff (given filters.date_range) q2 (λ q. done (
          q.0 ++ " ORDER BY created_at DESC LIMIT :limit",
          insert "limit" (number (min_limit limit)) q.1,
        ))

    -- `_query_events`; `has_factory` says whether a session factory was given
    unfoldable pub query_events :
        (has_factory : Bool) → (tenant_id : String) → EventFilters Limit → Prepared
    unfolding parse_time_range insert
    query_events has_factory tenant_id filters = elim (limit_of filters.limit) [
      | none ↦ value_error
      | some limit ↦ if has_factory then events_query tenant_id filters limit else no_factory
    ]

  -- `_get_event_stats`
  unfoldable pub get_event_stats : (has_factory : Bool) → (tenant_id time_range : String) → Prepared
  unfolding parse_time_range
  get_event_stats has_factory tenant_id time_range = parse_time_range time_range λ cutoff.
      if has_factory
      then prepared
          "SELECT event_type, COUNT(*) as count FROM events WHERE tenant_id = :tenant_id AND created_at >= :cutoff GROUP BY event_type ORDER BY count DESC"
          (("tenant_id", text tenant_id) ∷ ("cutoff", cutoff) ∷ [])
      else no_factory

-- `_query_alerts`
unfoldable pub query_alerts : (has_factory : Bool) → (tenant_id : String) → AlertFilters → Prepared
unfolding insert
query_alerts false tenant_id filters = no_factory
query_alerts true tenant_id filters =
    let q0 : String × Params = (
      "SELECT id, severity, status, entity_id, rule_id, message, created_at, acknowledged_at, resolved_at FROM alerts WHERE tenant_id = :tenant_id",
      ("tenant_id", text tenant_id) ∷ [],
    ) in
    let q1 = add_clause "severity" " AND severity = :severity" (given filters.severity) q0 in
    let q2 = add_clause "status" " AND status = :status" (given filters.status) q1 in
    let q3 = add_clause "entity_id" " AND entity_id = :entity_id" (given filters.entity_id) q2 in
    done (q3.0 ++ " ORDER BY created_at DESC LIMIT 200", q3.1)

-- `_get_entity_history`
unfoldable pub get_entity_history :
    (has_factory : Bool) → (tenant_id entity_type entity_id : String) → Prepared
get_entity_history false tenant_id entity_type entity_id = no_factory
get_entity_history true tenant_id entity_type entity_id =
    prepared
      "SELECT id, event_type, payload, created_at FROM events WHERE tenant_id = :tenant_id   AND entity_type = :entity_type   AND entity_id = :entity_id ORDER BY created_at ASC"
      (("tenant_id", text tenant_id)
        ∷ ("entity_type", text entity_type)
        ∷ ("entity_id", text entity_id)
        ∷ [])
