-- ===== src/Rules/State/Reads.antt =====
-- packages/rules/state.py: what `get_state` returns after `update_state` and `clear_state`, at any later time.
use Prim.Native.Nat.{max}
use operational_intelligence.Prelude.{
  ℕ, ◌+◌, ◌≤◌, ◌<◌, ◌≡◌, String, true, false, Option, some, none, ltb, arith, lt→ltb, tests,
  Bool-cases, inl, inr,
}
use operational_intelligence.Rules.State.{
  RuleKey, same_key, Stores, Links, redis_get, clear_state, get_state, update_state,
}

abbrev pub both_up : Links
both_up = record { redis_up = true; pg_up = true }

abbrev pub later : ℕ → Stores → Stores
later t s = record s { clock = s.clock + t }

same_key_refl : (k : RuleKey) → same_key k k ≡ true
same_key_refl k = ground arith

module _ {ℓ} {State : Type ℓ} (dumps : State → String) where
  redis-update_short :
      (k : RuleKey) (st : State) (window t : ℕ) (s : Stores)
      → window < 86400
      → t < max window 1
      → redis_get (later t (update_state dumps both_up k st window s)) k ≡ some (dumps st)
  unfolding update_state
  redis-update_short k st window t s short early =
      rw (lt→ltb window 86400 short) (ground (arith, same_key_refl k))

  redis-update_over :
      (k : RuleKey) (st : State) (window t : ℕ) (s : Stores)
      → window < 86400
      → max window 1 ≤ t
      → redis_get (later t (update_state dumps both_up k st window s)) k ≡ none
  unfolding update_state
  redis-update_over k st window t s short late =
      rw (lt→ltb window 86400 short) (ground (arith, same_key_refl k))

  pg-update_long :
      (k : RuleKey) (st : State) (window : ℕ) (s : Stores)
      → 3600 ≤ window
      → (update_state dumps both_up k st window s).pg k ≡ some (dumps st)
  unfolding update_state
  pg-update_long k st window s low = ground (arith, same_key_refl k)

  update_state_ne :
      (links : Links) (j k : RuleKey) (st : State) (window : ℕ) (s : Stores)
      → same_key k j ≡ false
      → (redis_get (update_state dumps links k st window s) j ≡ redis_get s j)
        × ((update_state dumps links k st window s).pg j ≡ s.pg j)
  unfolding update_state
  update_state_ne links j k st window s h = (ground arith, ground arith)

  redis-update_long :
      (k : RuleKey) (st : State) (window : ℕ) (s : Stores)
      → 86400 ≤ window
      → redis_get (update_state dumps both_up k st window s) k ≡ redis_get s k
  unfolding update_state
  redis-update_long k st window s long = ground arith

module _ {ℓ} {State : Type ℓ} (dumps : State → String) (loads : String → Option State)
    (empty : State) where
  -- A state written with a window below a day is read back until its time to live has passed, where
  -- both stores answer and `loads` reads what `dumps` wrote.
  pub get-update_fresh :
      (k : RuleKey) (st : State) (window t : ℕ) (s : Stores)
      → loads (dumps st) ≡ some st
      → window < 86400
      → t < max window 1
      → get_state loads empty both_up k (later t (update_state dumps both_up k st window s)) ≡ st
  unfolding get_state
  get-update_fresh k st window t s round short early =
      rw (redis-update_short dumps k st window t s short early) (rw round)

  -- A state written with a window from an hour to a day is read back at every later time, also when the
  -- window is long over, where both stores answer and `loads` reads what `dumps` wrote.
  pub get-update_medium :
      (k : RuleKey) (st : State) (window t : ℕ) (s : Stores)
      → loads (dumps st) ≡ some st
      → 3600 ≤ window
      → window < 86400
      → get_state loads empty both_up k (later t (update_state dumps both_up k st window s)) ≡ st
  unfolding get_state
  get-update_medium k st window t s round low high = elim (Bool-cases (ltb t (max window 1))) [
    | inl early ↦
        rw (redis-update_short dumps k st window t s high (omega (tests, early))) (rw round)
    | inr late ↦
        rw (redis-update_over dumps k st window t s high (ground arith))
          (rw (pg-update_long dumps k st window s low) (rw round))
  ]

  -- With a window of a day or more only PostgreSQL is written: where both stores answer and Redis still
  -- holds a readable state of the key, `get_state` returns that state and not the one just written.
  pub get-update_stale :
      (k : RuleKey) (st old : State) (text : String) (window : ℕ) (s : Stores)
      → 86400 ≤ window
      → redis_get s k ≡ some text
      → loads text ≡ some old
      → get_state loads empty both_up k (update_state dumps both_up k st window s) ≡ old
  unfolding get_state
  get-update_stale k st old text window s long held read =
      rw (redis-update_long dumps k st window s long) (rw held (rw read))

  -- A write under one key changes what no other key reads, whichever stores answer.
  pub get-update_ne :
      (links : Links) (j k : RuleKey) (st : State) (window : ℕ) (s : Stores)
      → same_key k j ≡ false
      → get_state loads empty links j (update_state dumps links k st window s)
        ≡ get_state loads empty links j s
  unfolding get_state
  get-update_ne links j k st window s h =
      let (r, p) = update_state_ne dumps links j k st window s h in rw r (rw p)

  -- Once both stores have answered a clear, the key reads as the empty state.
  pub get-clear :
      (k : RuleKey) (s : Stores) (t : ℕ)
      → get_state loads empty both_up k (later t (clear_state both_up k s)) ≡ empty
  unfolding get_state clear_state
  get-clear k s t = rw (same_key_refl k)
