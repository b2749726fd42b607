-- ===== src/Api/ApiTests.antt =====
-- Calls within one minute, and a run of requests.
use operational_intelligence.Prelude.{
  ℕ, ◌≡◌, refl, String, true, Option, some, none, List, [], ◌∷◌, codes, codes_eq, if◌then◌else◌,
}
use operational_intelligence.Api.{Counters, allowed, exceeded, Call, check_all}
use operational_intelligence.Api.RateLimit.{own_verdicts, check_all-verdicts}
use operational_intelligence.Api.Tenants.{Claim, Payload, Scope}

abbrev items : ℕ → ℕ → Call
items now tenant = record { now = now; tenant_id = tenant; endpoint = "/items" }

abbrev calls : List Call
calls = items 120 1 ∷ items 121 2 ∷ items 125 1 ∷ items 179 1 ∷ []

abbrev no_counters : Counters
no_counters key = none

check_all-verdicts_example :
    own_verdicts 2 2 1 "/items" (check_all 2 calls no_counters) ≡ allowed ∷ allowed ∷ exceeded ∷ []
check_all-verdicts_example =
    check_all-verdicts 2 2 1 "/items" calls no_counters (refl, (refl, (refl, (refl, tt)))) refl

abbrev payload : ℕ → Payload
payload tenant = record {
  sub = none;
  tenant_id = some (Claim.uuid tenant);
  email = none;
  role = none;
}

abbrev verify : List ℕ → Option Payload
verify token =
    if codes_eq token (codes "one")
    then some (payload 1)
    else (if codes_eq token (codes "two") then some (payload 2) else none)

abbrev request : String → Option (List ℕ) → Scope
request path header = record { is_request = true; path = codes path; authorization = header }

abbrev requests : List Scope
requests =
    request "/items" (some (codes "Bearer one "))
    ∷ request "/items" none
    ∷ request "/docs" (some (codes "Bearer one"))
    ∷ request "/items" (some (codes "Bearer two"))
    ∷ request "/items" (some (codes "Bearer three"))
    ∷ []
