-- ===== src/SqlTools/SqlToolsTests.antt =====
-- Runs of the handlers of apps/mcp-sql-tools/server.py, and the theorem about them at one question.
use operational_intelligence.Prelude.{
  ℕ, ◌≡◌, refl, String, Bool, true, false, Option, some, none, [], ◌∷◌, if◌then◌else◌, str_eq,
}
use operational_intelligence.Prelude.Int.{ℤ, pos, ltb_ℤ}
use operational_intelligence.Prelude.Dict.{lookup, insert}
use operational_intelligence.SqlTools.{
  Params, EventFilters, prepared, value_error, index_error, no_factory, text, number, before,
  parse_time_range, query_events, query_alerts, get_event_stats,
}
use operational_intelligence.SqlTools.Queries.{query_events-scoped, events_text}

abbrev small_int : String → Option ℤ
small_int s = if str_eq s "7" then some (pos 7) else none

abbrev any_date : ℤ → ℕ → Bool
any_date value seconds = true

abbrev as_int : ℕ → Option ℤ
as_int n = some (pos n)

-- A filter that tries to leave its place in the text.
abbrev hostile : EventFilters ℕ
hostile = record {
  event_type = some "x' OR '1'='1";
  entity_id = none;
  date_range = some "7d";
  limit = some 5000;
}

abbrev hostile_query : String
hostile_query =
    "SELECT id, event_type, entity_id, payload, created_at FROM events WHERE tenant_id = :tenant_id AND event_type = :event_type AND created_at >= :cutoff ORDER BY created_at DESC LIMIT :limit"

abbrev hostile_params : Params
hostile_params =
    ("tenant_id", text "acme")
    ∷ ("event_type", text "x' OR '1'='1")
    ∷ ("cutoff", before (pos 7) 86400)
    ∷ ("limit", number (pos 1000))
    ∷ []

hostile_run :
    query_events small_int any_date as_int true "acme" hostile
    ≡ prepared hostile_query hostile_params
unfolding query_events parse_time_range insert
hostile_run = refl

query_events-scoped_example :
    (hostile_query ≡ events_text hostile)
    × (lookup "tenant_id" hostile_params ≡ some (text "acme"))
    × ((limit : ℤ) × (lookup "limit" hostile_params ≡ some (number limit))
        × (ltb_ℤ (pos 1000) limit ≡ false))
query_events-scoped_example =
    query_events-scoped small_int any_date as_int "acme" hostile true hostile_query hostile_params
      hostile_run

no_time_range : get_event_stats small_int any_date true "acme" "" ≡ index_error
unfolding get_event_stats parse_time_range
no_time_range = refl

bad_unit : get_event_stats small_int any_date true "acme" "7w" ≡ value_error
unfolding get_event_stats parse_time_range
bad_unit = refl

no_session :
    query_alerts false "acme" (record { severity = none; status = none; entity_id = none })
    ≡ no_factory
unfolding query_alerts
no_session = refl
