-- ===== src/Rules/State.antt =====
-- packages/rules/state.py, class `RuleStateManager`: the state of a composite rule, in Redis for
-- short windows, in PostgreSQL for long ones, and in both between.
-- A key is a (rule, tenant) pair, by number. Redis holds the text with the time at which it
-- expires. An operation is given which of the two stores answer it (`Links`): an exception of a
-- store is logged and dropped. `json.dumps` and `json.loads` are the section's `dumps` and `loads`.
pub mod Reads
use operational_intelligence.Prelude.{
  ℕ, ◌+◌, String, Bool, true, false, ◌&&◌, Option, some, none, ltb, ◌==◌, if◌then◌else◌,
}
use Prim.Native.Nat.{max}

pub record RuleKey : Type 0 where
  pub rule_id : ℕ
  pub tenant_id : ℕ

abbrev pub same_key : RuleKey → RuleKey → Bool
same_key a b = (a.rule_id == b.rule_id) && (a.tenant_id == b.tenant_id)

-- a stored text and, in Redis, the time from which it is gone
pub record Entry : Type 0 where
  pub text : String
  pub expires : ℕ

pub record Stores : Type 0 where
  pub redis : RuleKey → Option Entry
  pub pg : RuleKey → Option String
  pub clock : ℕ

-- which stores answer without an exception
pub record Links : Type 0 where
  pub redis_up : Bool
  pub pg_up : Bool

abbrev pub update {ℓ} : {A : Type ℓ} → (RuleKey → A) → RuleKey → A → RuleKey → A
update f k a j = if same_key k j then a else f j

-- GET of a key in Redis: nothing once the entry has expired
abbrev pub alive : ℕ → Option Entry → Option String
alive clock none = none
alive clock (some e) = if ltb clock e.expires then some e.text else none

abbrev pub redis_get : Stores → RuleKey → Option String
redis_get s k = alive s.clock (s.redis k)

-- r.set(key, data, ex=max(ttl, 1))
unfoldable pub write_redis : Links → RuleKey → String → ℕ → Stores → Stores
write_redis links k text ttl s =
    if links.redis_up
    then record s {
      redis = update s.redis k (some (record { text = text; expires = s.clock + max ttl 1 }));
    }
    else s

-- INSERT … ON CONFLICT (rule_id, tenant_id) DO UPDATE
unfoldable pub write_pg : Links → RuleKey → String → Stores → Stores
write_pg links k text s = if links.pg_up then record s { pg = update s.pg k (some text) } else s

unfoldable pub clear_state : Links → RuleKey → Stores → Stores
clear_state links k s =
    let s' : Stores = if links.redis_up then record s { redis = update s.redis k none } else s in
    if links.pg_up then record s' { pg = update s'.pg k none } else s'

module _ {ℓ} {State : Type ℓ} (loads : String → Option State) (empty : State) where
  -- the PostgreSQL half of `get_state`, on what the query found; a text that `json.loads` refuses
  -- counts as no state
  unfoldable pub read_pg : Links → Option String → State
  read_pg links none = empty
  read_pg links (some text) =
      if links.pg_up then elim (loads text) [ some state ↦ state | none ↦ empty ] else empty

  -- `get_state` on what GET and the query find
  unfoldable pub read_stores : Links → Option String → Option String → State
  unfolding read_pg
  read_stores links none found = read_pg links found
  read_stores links (some text) found =
      if links.redis_up
      then elim (loads text) [ some state ↦ state | none ↦ read_pg links found ]
      else read_pg links found

  unfoldable pub get_state : Links → RuleKey → Stores → State
  unfolding read_stores
  get_state links k s = read_stores links (redis_get s k) (s.pg k)

unfoldable pub update_state {ℓ} :
    {State : Type ℓ} → (State → String) → Links → RuleKey → State → ℕ → Stores → Stores
unfolding write_redis write_pg
update_state dumps links k state window_seconds s =
    let serialised = dumps state in
    if ltb window_seconds 3600
    then write_redis links k serialised window_seconds s
    else if ltb window_seconds 86400
    then write_pg links k serialised (write_redis links k serialised window_seconds s)
    else write_pg links k serialised s
