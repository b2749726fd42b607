-- ===== src/Api.antt =====
-- apps/api/deps.py and apps/api/middleware.py: the rate limiter over the counters of Redis, the
-- dependencies that read the token, and the middleware that sets the tenant of a request. Times are
-- seconds; `verify_token`, a JWT check, is a parameter.
pub mod RateLimit
pub mod Tenants
pub mod ApiTests
use operational_intelligence.Prelude.{
  ℕ, zero, suc, ◌+◌, ◌/◌, String, Bool, true, false, ◌&&◌, Option, some, none, List, [], ◌∷◌, ◌==◌,
  leb, ltb, if◌then◌else◌, str_eq, str_in,
}

-- The key of a counter: the tenant, the endpoint and the minute.
pub record Key : Type 0 where
  pub tenant_id : ℕ
  pub endpoint : String
  pub minute_bucket : ℕ

abbrev pub same_key : Key → Key → Bool
same_key k j =
    (k.tenant_id == j.tenant_id)
    && (str_eq k.endpoint j.endpoint && (k.minute_bucket == j.minute_bucket))

-- A counter of Redis, with the time at which it expires.
pub record Counter : Type 0 where
  pub value : ℕ
  pub expires : Option ℕ

abbrev pub Counters : Type 0
Counters = Key → Option Counter

-- Whether Redis answers: not at all, only the INCR, or each call.
pub data Link : Type 0 where
  down incr_only up : Link

pub data Verdict : Type 0 where
  allowed exceeded : Verdict

-- The value of a counter that is there and not expired, and 0 otherwise.
abbrev pub live : (now : ℕ) → Option Counter → ℕ
live now none = 0
live now (some c) = elim c.expires [ none ↦ c.value | some t ↦ if leb t now then 0 else c.value ]

-- The expiry that INCR keeps.
abbrev pub kept_expiry : (now : ℕ) → Option Counter → Option ℕ
kept_expiry now none = none
kept_expiry now (some c) = elim c.expires [
  | none ↦ none
  | some t ↦ if leb t now then none else some t
]

abbrev pub write : Key → Counter → Counters → Counters
write k c counters j = if same_key k j then some c else counters j

abbrev pub key_of : (now tenant_id : ℕ) (endpoint : String) → Key
key_of now tenant_id endpoint = record {
  tenant_id = tenant_id;
  endpoint = endpoint;
  minute_bucket = now / 60;
}

-- current = await r.incr(key); if current == 1: await r.expire(key, 60)
abbrev pub count_request : Link → (now : ℕ) → Key → Counters → ℕ × Counters
count_request link now k counters =
    let current = live now (counters k) + 1 in
    let expiry =
      if current == 1
      then elim link [ up ↦ some (now + 60) | other ↦ none ]
      else kept_expiry now (counters k) in
    (current, write k (record { value = current; expires = expiry }) counters)

-- `RateLimiter.__call__`. An exception of Redis lets the request through.
unfoldable pub check_rate :
    (requests_per_minute : ℕ)
    → Link
    → (now tenant_id : ℕ) → (endpoint : String) → Counters
    → Verdict × Counters
check_rate requests_per_minute down now tenant_id endpoint counters = (allowed, counters)
check_rate requests_per_minute incr_only now tenant_id endpoint counters =
    let (current, after) = count_request incr_only now (key_of now tenant_id endpoint) counters in
    if current == 1
    then (allowed, after)
    else ((if ltb requests_per_minute current then exceeded else allowed), after)
check_rate requests_per_minute up now tenant_id endpoint counters =
    let (current, after) = count_request up now (key_of now tenant_id endpoint) counters in
    ((if ltb requests_per_minute current then exceeded else allowed), after)

-- One call of an endpoint.
pub record Call : Type 0 where
  pub now : ℕ
  pub tenant_id : ℕ
  pub endpoint : String

-- The verdicts of a run of calls while Redis answers.
unfoldable pub check_all : (requests_per_minute : ℕ) → List Call → Counters → List (Call × Verdict)
unfolding check_rate
check_all limit [] counters = []
check_all limit (c ∷ calls) counters =
    let (verdict, after) = check_rate limit up c.now c.tenant_id c.endpoint counters in
    (c, verdict) ∷ check_all limit calls after
