-- ===== src/Rules/Samples.antt =====
-- A small interpreter for the tests: its floats are the integers, and it has no containers.
use operational_intelligence.Prelude.{
  ℕ, ◌+◌, ◌-◌, ◌*◌, Bool, true, false, not, ◌&&◌, Option, some, none, List, [], ◌∷◌, leb, ◌==◌,
  codes, if◌then◌else◌,
}
use operational_intelligence.Prelude.Int.{ℤ, pos, ltb_ℤ, eqb_ℤ}
use operational_intelligence.Rules.Syntax.{Runtime}

abbrev pub is_digit : ℕ → Bool
is_digit c = leb 48 c && leb c 57

-- The number of a text of decimal digits.
abbrev pub digits : (so_far : ℕ) → List ℕ → Option ℤ
digits n [] = some (pos n)
digits n (c ∷ cs) = let rest = digits (n * 10 + (c - 48)) cs in if is_digit c then rest else none

abbrev pub tiny : Runtime
tiny = record {
  Float = ℤ;
  Obj = ⊥;
  is_space = λ c. c == 32;
  is_digit = is_digit;
  int_of_text = λ s. digits 0 (codes s);
  float_of_int = λ n. some n;
  float_of_text = λ s. digits 0 (codes s);
  float_truthy = λ x. not (eqb_ℤ x (pos 0));
  float_eq = eqb_ℤ;
  float_lt = ltb_ℤ;
  float_le = λ x y. not (ltb_ℤ y x);
  obj_truthy = λ _. false;
  obj_eq = λ _ _. true;
  obj_lt = λ _ _. none;
  obj_le = λ _ _. none;
}

-- The same without floats for large integers, as `float(10 ** 400)` is an OverflowError.
abbrev pub narrow : Runtime
narrow = record tiny { float_of_int = λ n. if ltb_ℤ (pos 1000) n then none else some n }
