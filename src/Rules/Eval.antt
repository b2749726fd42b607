-- ===== src/Rules/Eval.antt =====
-- packages/rules/expression_parser.py: `_coerce_for_comparison`, `_eval_node`, `evaluate`, and the
-- facade `ExpressionParser`. A context is a dict from field names to values.
pub mod Laws
pub mod Fields
pub mod Facade
use operational_intelligence.Prelude.{
  ℕ, String, Bool, true, false, not, ◌&&◌, ◌||◌, Option, some, none, str_eq, str_lt,
}
use operational_intelligence.Prelude.Int.{ℤ, pos, eqb_ℤ, ltb_ℤ}
use operational_intelligence.Prelude.Dict.{Dict, lookup}
use operational_intelligence.Rules.Syntax.{
  Runtime, Value, CompOp, BinaryOp, AstNode, binary_op, not_op, literal, Result, ok, err, invalid,
  overflow, ◌>>=◌,
}

abbrev pub Context : Runtime → Type 0
Context rt = Dict (Value rt)

abbrev pub bool_to_int : Bool → ℤ
bool_to_int true = pos 1
bool_to_int false = pos 0

abbrev pub bool_eq : Bool → Bool → Bool
bool_eq true b = b
bool_eq false b = not b

-- float(n) of an int, which may raise OverflowError
unfoldable pub int_to_float : (rt : Runtime) → ℤ → Result rt.Float
int_to_float rt n = elim (rt.float_of_int n) [ some x ↦ ok x | none ↦ err overflow ]

module _ {rt : Runtime} where
  -- bool(v)
  unfoldable pub truthy : Value rt → Bool
  truthy Value.null = false
  truthy (Value.bool b) = b
  truthy (Value.int n) = not (eqb_ℤ n (pos 0))
  truthy (Value.float x) = rt.float_truthy x
  truthy (Value.str s) = not (str_eq s "")
  truthy (Value.obj o) = rt.obj_truthy o

  abbrev pub floats : Result rt.Float → Result rt.Float → Result (Value rt × Value rt)
  floats l r = l >>= λ x. r >>= λ y. ok (Value.float x, Value.float y)

  -- `float(left), float(right)` for a str on the left; a ValueError leaves both as they were
  unfoldable pub coerce_left : String → Result rt.Float → Value rt → Result (Value rt × Value rt)
  coerce_left s y r = elim (rt.float_of_text s) [
    | some x ↦ (y >>= λ y'. ok (Value.float x, Value.float y'))
    | none ↦ ok (Value.str s, r)
  ]

  -- the same with the str on the right: an OverflowError of the left operand comes first
  unfoldable pub coerce_right : Value rt → Result rt.Float → String → Result (Value rt × Value rt)
  coerce_right l x s = x >>= λ x'. elim (rt.float_of_text s) [
    | some y ↦ ok (Value.float x', Value.float y)
    | none ↦ ok (l, Value.str s)
  ]

  -- `bool` is a subclass of `int`, so `isinstance(v, (int, float))` holds of it too.
  unfoldable pub coerce_for_comparison : Value rt → Value rt → Result (Value rt × Value rt)
  unfolding int_to_float coerce_left coerce_right
  coerce_for_comparison (Value.bool a) (Value.int n) =
      floats (int_to_float rt (bool_to_int a)) (int_to_float rt n)
  coerce_for_comparison (Value.bool a) (Value.float y) =
      floats (int_to_float rt (bool_to_int a)) (ok y)
  coerce_for_comparison (Value.int n) (Value.bool b) =
      floats (int_to_float rt n) (int_to_float rt (bool_to_int b))
  coerce_for_comparison (Value.int n) (Value.float y) = floats (int_to_float rt n) (ok y)
  coerce_for_comparison (Value.float x) (Value.bool b) =
      floats (ok x) (int_to_float rt (bool_to_int b))
  coerce_for_comparison (Value.float x) (Value.int n) = floats (ok x) (int_to_float rt n)
  coerce_for_comparison (Value.str s) (Value.bool b) =
      coerce_left s (int_to_float rt (bool_to_int b)) (Value.bool b)
  coerce_for_comparison (Value.str s) (Value.int n) =
      coerce_left s (int_to_float rt n) (Value.int n)
  coerce_for_comparison (Value.str s) (Value.float y) = coerce_left s (ok y) (Value.float y)
  coerce_for_comparison (Value.bool a) (Value.str s) =
      coerce_right (Value.bool a) (int_to_float rt (bool_to_int a)) s
  coerce_for_comparison (Value.int n) (Value.str s) =
      coerce_right (Value.int n) (int_to_float rt n) s
  coerce_for_comparison (Value.float x) (Value.str s) = coerce_right (Value.float x) (ok x) s
  coerce_for_comparison l r = ok (l, r)

  -- Python's `==`, on what the coercion returns: values of two types are equal to no other.
  unfoldable pub py_eq : Value rt → Value rt → Bool
  py_eq Value.null Value.null = true
  py_eq (Value.bool a) (Value.bool b) = bool_eq a b
  py_eq (Value.int m) (Value.int n) = eqb_ℤ m n
  py_eq (Value.float x) (Value.float y) = rt.float_eq x y
  py_eq (Value.str s) (Value.str t) = str_eq s t
  py_eq (Value.obj o) (Value.obj p) = rt.obj_eq o p
  py_eq _ _ = false

  -- Python's `<`; `none` is TypeError
  unfoldable pub py_lt : Value rt → Value rt → Option Bool
  py_lt (Value.bool a) (Value.bool b) = some (not a && b)
  py_lt (Value.int m) (Value.int n) = some (ltb_ℤ m n)
  py_lt (Value.float x) (Value.float y) = some (rt.float_lt x y)
  py_lt (Value.str s) (Value.str t) = some (str_lt s t)
  py_lt (Value.obj o) (Value.obj p) = rt.obj_lt o p
  py_lt _ _ = none

  unfoldable pub py_le : Value rt → Value rt → Option Bool
  py_le (Value.bool a) (Value.bool b) = some (not a || b)
  py_le (Value.int m) (Value.int n) = some (not (ltb_ℤ n m))
  py_le (Value.float x) (Value.float y) = some (rt.float_le x y)
  py_le (Value.str s) (Value.str t) = some (not (str_lt t s))
  py_le (Value.obj o) (Value.obj p) = rt.obj_le o p
  py_le _ _ = none

  -- `except TypeError: raise ExpressionValidationError`
  abbrev pub ordered : Option Bool → Result (Value rt)
  ordered (some b) = ok (Value.bool b)
  ordered none = err (invalid none)

  unfoldable pub apply_comparison : CompOp → Value rt × Value rt → Result (Value rt)
  unfolding py_eq py_lt py_le
  apply_comparison CompOp.eq (l, r) = ok (Value.bool (py_eq l r))
  apply_comparison CompOp.neq (l, r) = ok (Value.bool (not (py_eq l r)))
  apply_comparison CompOp.lt (l, r) = ordered (py_lt l r)
  apply_comparison CompOp.gt (l, r) = ordered (py_lt r l)
  apply_comparison CompOp.lte (l, r) = ordered (py_le l r)
  apply_comparison CompOp.gte (l, r) = ordered (py_le r l)

  unfoldable pub compare_values : CompOp → Value rt → Value rt → Result (Value rt)
  unfolding apply_comparison coerce_for_comparison
  compare_values op l r = coerce_for_comparison l r >>= apply_comparison op

  unfoldable pub field_value : Context rt → String → Result (Value rt)
  unfolding lookup
  field_value context name = elim (lookup name context) [
    | some v ↦ ok v
    | none ↦ err (invalid none)
  ]

  -- AND and OR: the right operand counts only where the left one does not decide.
  unfoldable pub both : Result (Value rt) → Result (Value rt) → Result (Value rt)
  unfolding truthy
  both left right = left >>= λ l. elim (truthy l) [
    | false ↦ ok (Value.bool false)
    | true ↦ (right >>= λ v. ok (Value.bool (truthy v)))
  ]

  unfoldable pub either : Result (Value rt) → Result (Value rt) → Result (Value rt)
  unfolding truthy
  either left right = left >>= λ l. elim (truthy l) [
    | true ↦ ok (Value.bool true)
    | false ↦ (right >>= λ v. ok (Value.bool (truthy v)))
  ]

  unfoldable pub eval_node : Context rt → AstNode rt → Result (Value rt)
  unfolding field_value both either compare_values
  eval_node context (literal v) = ok v
  eval_node context (AstNode.field name) = field_value context name
  eval_node context (not_op operand) =
      eval_node context operand >>= λ v. ok (Value.bool (not (truthy v)))
  eval_node context (binary_op BinaryOp.and left right) =
      both (eval_node context left) (eval_node context right)
  eval_node context (binary_op BinaryOp.or left right) =
      either (eval_node context left) (eval_node context right)
  eval_node context (binary_op (BinaryOp.comp op) left right) =
      eval_node context left >>= λ l. eval_node context right >>= λ r. compare_values op l r

  unfoldable pub evaluate : AstNode rt → Context rt → Result Bool
  unfolding eval_node
  evaluate ast context = eval_node context ast >>= λ v. ok (truthy v)
