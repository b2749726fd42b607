-- ===== src/Api/RateLimit.antt =====
-- apps/api/deps.py, `RateLimiter`: the calls of one tenant to one endpoint within a minute.
use operational_intelligence.Prelude.{
  ℕ, zero, suc, ◌+◌, ◌/◌, ◌≡◌, refl, String, Bool, true, false, ◌&&◌, Option, some, none, List, [],
  ◌∷◌, ◌==◌, leb, ltb, str_eq, eq_refl, eq_iff, filter_by, map, length, All, Bool-cases,
  Option-cases, sym, ◌∙◌, subst, inl, inr, arith, if◌then◌else◌,
}
use operational_intelligence.Api.{
  Key, same_key, Counter, Counters, Verdict, allowed, exceeded, live, kept_expiry, write, key_of,
  check_rate, Call, check_all, up,
}

-- The verdicts of n calls, of which `so_far` came before.
abbrev pub verdicts : (limit so_far : ℕ) → (n : ℕ) → List Verdict
verdicts limit so_far zero = []
verdicts limit so_far (suc n) =
    (if ltb limit (so_far + 1) then exceeded else allowed) ∷ verdicts limit (so_far + 1) n

same_minute : (now first : ℕ) → now / 60 ≡ first / 60 → leb (first + 60) now ≡ false
same_minute now first h = ground (arith, h)

-- What a counter holds after one more call, at any time of the same minute.
counted :
    (n now later : ℕ) (o : Option Counter)
    → now / 60 ≡ later / 60
    → live now o ≡ n
    → live later o ≡ n
    → live later (
        some (record {
          value = live now o + 1;
          expires = if (live now o + 1) == 1 then some (now + 60) else kept_expiry now o;
        }))
      ≡ n + 1
counted n now later none same h k = rw (same_minute later now (sym same)) (omega (arith, h))
counted n now later (some c) same h k =
    let alive = same_minute later now (sym same) in
    elim (Option-cases c.expires) [
      | inl e ↦ rw e (let h' = rw e at h in ground (arith, alive, h'))
      | inr (t, e) ↦
          rw e (let h' = rw e at h in let k' = rw e at k in ground (arith, alive, h', k'))
    ]

module _ (limit bucket tenant : ℕ) (endpoint : String) where
  abbrev pub own_key : Key
  own_key = record { tenant_id = tenant; endpoint = endpoint; minute_bucket = bucket }

  -- The counter holds `n`, for the whole minute.
  abbrev Holds : ℕ → Counters → Type 0
  Holds n counters = (now : ℕ) → now / 60 ≡ bucket → live now (counters own_key) ≡ n

  abbrev pub is_own_call : Call → Bool
  is_own_call c = (c.tenant_id == tenant) && str_eq c.endpoint endpoint

  own_key_of :
      (c : Call)
      → c.now / 60 ≡ bucket
      → is_own_call c ≡ true
      → key_of c.now c.tenant_id c.endpoint ≡ own_key
  own_key_of c inside own =
      let same_tenant : c.tenant_id ≡ tenant = ground (arith, own) in
      let same_endpoint : c.endpoint ≡ endpoint = ground (arith, own, eq_iff c.endpoint endpoint) in
      rw (inside, same_tenant, same_endpoint) refl

  self_key : same_key own_key own_key ≡ true
  self_key = ground (arith, eq_refl endpoint)

  step_own :
      (n : ℕ) (c : Call) (counters : Counters)
      → c.now / 60 ≡ bucket
      → Holds n counters
      → is_own_call c ≡ true
      → ((check_rate limit up c.now c.tenant_id c.endpoint counters).0
          ≡ (if ltb limit (n + 1) then exceeded else allowed))
        × Holds (n + 1) (check_rate limit up c.now c.tenant_id c.endpoint counters).1
  unfolding check_rate
  step_own n c counters inside h own =
      let key = own_key_of c inside own in
      (
        subst
            (λ k.
              (if ltb limit (live c.now (counters k) + 1) then exceeded else allowed)
              ≡ (if ltb limit (n + 1) then exceeded else allowed))
            (sym key) (rw (h c.now inside) refl),
        λ later at.
            subst
              (λ k.
                live later (
                  write k
                    (record {
                      value = live c.now (counters k) + 1;
                      expires =
                          if (live c.now (counters k) + 1) == 1
                          then some (c.now + 60)
                          else kept_expiry c.now (counters k);
                    })
                    counters own_key)
                ≡ n + 1)
              (sym key)
              (rw self_key (
                counted n c.now later (counters own_key) (inside ∙ sym at) (h c.now inside)
                  (h later at))),
      )

  step_other :
      (n : ℕ) (c : Call) (counters : Counters)
      → Holds n counters
      → is_own_call c ≡ false
      → Holds n (check_rate limit up c.now c.tenant_id c.endpoint counters).1
  unfolding check_rate
  step_other n c counters h other later at =
      let apart : same_key (key_of c.now c.tenant_id c.endpoint) own_key ≡ false =
        ground (arith, other) in
      rw apart (h later at)

  abbrev pub own_verdicts : List (Call × Verdict) → List Verdict
  own_verdicts results =
      map (λ (r : Call × Verdict). r.1)
        (filter_by (λ (r : Call × Verdict). is_own_call r.0) results)

  run_verdicts :
      (n : ℕ) (calls : List Call) (counters : Counters)
      → All (λ (c : Call). c.now / 60 ≡ bucket) calls
      → Holds n counters
      → own_verdicts (check_all limit calls counters)
        ≡ verdicts limit n (length (filter_by is_own_call calls))
  unfolding check_all
  run_verdicts n [] counters inside h = refl
  run_verdicts n (c ∷ calls) counters inside h = elim (Bool-cases (is_own_call c)) [
    | inl own ↦
        let (verdict, holds) = step_own n c counters inside.0 h own in
        rw (own, verdict, run_verdicts (n + 1) calls _ inside.1 holds) refl
    | inr other ↦ rw (other, run_verdicts n calls _ inside.1 (step_other n c counters h other)) refl
  ]

  -- Of any run of calls within one minute, while Redis answers and no counter of a tenant and an
  -- endpoint is there at the start, the tenant's calls of the endpoint are allowed up to the limit
  -- and refused from then on, in their order and whatever calls of others come between them.
  pub check_all-verdicts :
      (calls : List Call) (counters : Counters)
      → All (λ (c : Call). c.now / 60 ≡ bucket) calls
      → counters own_key ≡ none
      → own_verdicts (check_all limit calls counters)
        ≡ verdicts limit 0 (length (filter_by is_own_call calls))
  check_all-verdicts calls counters inside fresh =
      run_verdicts 0 calls counters inside (λ now at. rw fresh refl)
