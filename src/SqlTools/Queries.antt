-- ===== src/SqlTools/Queries.antt =====
-- apps/mcp-sql-tools/server.py: the texts of the queries, and whose rows they ask for.
use Prim.Native.String.{◌++◌}
use operational_intelligence.Prelude.{
  ℕ, arith, ◌≡◌, refl, ap, String, Bool, true, false, Option, some, none, [], ◌∷◌, if◌then◌else◌,
  str_eq, Bool-cases, Option-cases, inl, inr, ◌∙◌, sym,
}
use operational_intelligence.Prelude.Int.{ℤ, pos, negsuc, ltb_ℤ}
use operational_intelligence.Prelude.Dict.{lookup, insert, lookup-insert, lookup-insert_ne}
use operational_intelligence.SqlTools.{
  Param, Params, Prepared, prepared, value_error, index_error, overflow_error, text, number, before,
  EventFilters, given, add_clause, min_limit, done, before_now, range_of, parse_time_range,
  add_cutoff, limit_of, events_query, query_events, split_last,
}

abbrev pub is_given : Option String → Bool
is_given none = false
is_given (some s) = if str_eq s "" then false else true

-- The text with a clause where the filter is given.
abbrev pub with_clause : String → Option String → String → String
with_clause clause filter query = if is_given filter then query ++ clause else query

-- The text of an event query; of a filter it holds only that it is given.
abbrev pub events_text : {Limit : Type 0} → EventFilters Limit → String
events_text filters =
    with_clause " AND created_at >= :cutoff" filters.date_range (
      with_clause " AND entity_id = :entity_id" filters.entity_id (
        with_clause " AND event_type = :event_type" filters.event_type
          "SELECT id, event_type, entity_id, payload, created_at FROM events WHERE tenant_id = :tenant_id"))
    ++ " ORDER BY created_at DESC LIMIT :limit"

abbrev query_of : Prepared → String
query_of (prepared query ps) = query
query_of failed = ""

abbrev params_of : Prepared → Params
params_of (prepared query ps) = ps
params_of failed = []

add_clause_lem :
    (key clause : String) (filter : Option String) (q : String × Params)
    → str_eq key "tenant_id" ≡ false
    → ((add_clause key clause (given filter) q).0 ≡ with_clause clause filter q.0)
      × (lookup "tenant_id" (add_clause key clause (given filter) q).1 ≡ lookup "tenant_id" q.1)
add_clause_lem key clause none q ne = (refl, refl)
add_clause_lem key clause (some s) q ne = elim (Bool-cases (str_eq s "")) [
  | inl e ↦ rw (e) (refl, refl)
  | inr e ↦ rw (e) (refl, lookup-insert_ne key "tenant_id" (text s) q.1 ne)
]

-- A query that comes out of a continuation has been given by it.
abbrev pub ComesFrom : {A : Type 0} → (A → Prepared) → Prepared → Type 0
ComesFrom {A} next r =
    (query : String) (ps : Params) → r ≡ prepared query ps → (x : A) × (next x ≡ prepared query ps)

if-ComesFrom :
    {A : Type 0} (next : A → Prepared) (b : Bool) (x y : Prepared)
    → ComesFrom next x
    → ComesFrom next y
    → ComesFrom next (if b then x else y)
if-ComesFrom next true x y hx hy = hx
if-ComesFrom next false x y hx hy = hy

module _ (int_of_text : String → Option ℤ) (is_date : (value : ℤ) → (unit_seconds : ℕ) → Bool)
    (next : Param → Prepared) where
  before_now-ComesFrom :
      (n : ℤ) (seconds : ℕ) → ComesFrom next (before_now int_of_text is_date n seconds next)
  before_now-ComesFrom n seconds =
      if-ComesFrom next (is_date n seconds) (next (before n seconds)) overflow_error
        (λ query ps e. (before n seconds, e)) (λ query ps e. cc e)

  range_of-ComesFrom :
      (unit : String) (value : Option ℤ)
      → ComesFrom next (range_of int_of_text is_date unit value next)
  range_of-ComesFrom unit none = λ query ps e. cc e
  range_of-ComesFrom unit (some n) =
      if-ComesFrom next (str_eq unit "h") (before_now int_of_text is_date n 3600 next)
        (if str_eq unit "d" then before_now int_of_text is_date n 86400 next else value_error)
        (before_now-ComesFrom n 3600)
        (if-ComesFrom next (str_eq unit "d") (before_now int_of_text is_date n 86400 next)
          value_error (before_now-ComesFrom n 86400) (λ query ps e. cc e))

  parse_time_range-ComesFrom :
      (range : String) → ComesFrom next (parse_time_range int_of_text is_date range next)
  unfolding parse_time_range
  parse_time_range-ComesFrom range =
      elim (split_last range)
        as (λ o. ComesFrom next (elim o [
          | none ↦ index_error
          | some (value, unit) ↦ range_of int_of_text is_date unit (int_of_text value) next
        ])) [
          | none ↦ λ query ps e. cc e
          | some (value, unit) ↦ range_of-ComesFrom unit (int_of_text value)
        ]

min_limit-bound : (n : ℤ) → ltb_ℤ (pos 1000) (min_limit n) ≡ false
min_limit-bound (pos n) = ground arith
min_limit-bound (negsuc n) = ground arith

module _ (int_of_text : String → Option ℤ) (is_date : (value : ℤ) → (unit_seconds : ℕ) → Bool) where
  -- What a time range adds to a query.
  add_cutoff-cases :
      (filter : Option String) (q : String × Params) (next : String × Params → Prepared)
      (query : String) (ps : Params)
      → add_cutoff int_of_text is_date (given filter) q next ≡ prepared query ps
      → (p : String × Params) × (next p ≡ prepared query ps)
        × (p.0 ≡ with_clause " AND created_at >= :cutoff" filter q.0)
        × (lookup "tenant_id" p.1 ≡ lookup "tenant_id" q.1)
  add_cutoff-cases none q next query ps e = (q, e, refl, refl)
  add_cutoff-cases (some range) q next query ps e = elim (Bool-cases (str_eq range "")) [
    | inl empty ↦ (q, rw empty at e, rw empty refl, refl)
    | inr full ↦
        let (cutoff, got) =
          parse_time_range-ComesFrom int_of_text is_date
            (λ cutoff. next (q.0 ++ " AND created_at >= :cutoff", insert "cutoff" cutoff q.1)) range
            query ps (rw full at e) in
        (
          (q.0 ++ " AND created_at >= :cutoff", insert "cutoff" cutoff q.1),
          got,
          rw full refl,
          lookup-insert_ne "cutoff" "tenant_id" cutoff q.1 refl,
        )
  ]

  module _ {Limit : Type 0} (int_of : Limit → Option ℤ) (tenant_id : String)
      (filters : EventFilters Limit) where
    events_query-scoped :
        (limit : ℤ) (query : String) (ps : Params)
        → events_query int_of_text is_date int_of tenant_id filters limit ≡ prepared query ps
        → (query ≡ events_text filters)
          × (lookup "tenant_id" ps ≡ some (text tenant_id))
          × (lookup "limit" ps ≡ some (number (min_limit limit)))
    unfolding lookup
    events_query-scoped limit query ps e =
        let q0 : String × Params = (
          "SELECT id, event_type, entity_id, payload, created_at FROM events WHERE tenant_id = :tenant_id",
          ("tenant_id", text tenant_id) ∷ [],
        ) in
        let q1 =
          add_clause "event_type" " AND event_type = :event_type" (given filters.event_type) q0 in
        let (text1, kept1) =
          add_clause_lem "event_type" " AND event_type = :event_type" filters.event_type q0 refl in
        let (text2, kept2) =
          add_clause_lem "entity_id" " AND entity_id = :entity_id" filters.entity_id q1 refl in
        let q2 =
          add_clause "entity_id" " AND entity_id = :entity_id" (given filters.entity_id) q1 in
        let (p, got, text3, kept3) =
          add_cutoff-cases filters.date_range q2
            (λ q. done (
              q.0 ++ " ORDER BY created_at DESC LIMIT :limit",
              insert "limit" (number (min_limit limit)) q.1,
            ))
            query ps e in
        let limited = number (min_limit limit) in
        let query_is = sym (ap query_of got) in
        let ps_is = sym (ap params_of got) in
        let whole =
          text3
          ∙ ap (with_clause " AND created_at >= :cutoff" filters.date_range)
              (text2 ∙ ap (with_clause " AND entity_id = :entity_id" filters.entity_id) text1) in
        (
          query_is ∙ ap (λ t. t ++ " ORDER BY created_at DESC LIMIT :limit") whole,
          ap (lookup "tenant_id") ps_is
              ∙ (lookup-insert_ne "limit" "tenant_id" limited p.1 refl ∙ (kept3 ∙ (kept2 ∙ kept1))),
          ap (lookup "limit") ps_is ∙ lookup-insert "limit" "limit" limited p.1,
        )

    -- Where `query_events` comes to a query, whatever the filters hold, its text is one of eight that
    -- depend only on which of the filters are given, so that no value of a filter stands in the text;
    -- the tenant it asks for is the caller's, and it asks for at most 1000 rows.
    pub query_events-scoped :
        (has_factory : Bool) (query : String) (ps : Params)
        → query_events int_of_text is_date int_of has_factory tenant_id filters ≡ prepared query ps
        → (query ≡ events_text filters)
          × (lookup "tenant_id" ps ≡ some (text tenant_id))
          × ((limit : ℤ) × (lookup "limit" ps ≡ some (number limit))
              × (ltb_ℤ (pos 1000) limit ≡ false))
    unfolding query_events
    query_events-scoped has_factory query ps e =
        elim (Option-cases (limit_of int_of_text is_date int_of filters.limit)) [
          | inl absent ↦ cc (rw (absent, query_events) at e)
          | inr (limit, known) ↦ elim (Bool-cases has_factory) [
            | inl ready ↦
                let (same_text, same_tenant, same_limit) =
                  events_query-scoped limit query ps (rw (known, ready, query_events) at e) in
                (same_text, same_tenant, (min_limit limit, same_limit, min_limit-bound limit))
            | inr missing ↦ cc (rw (known, missing, query_events) at e)
          ]
        ]
