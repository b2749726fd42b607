-- ===== src/Rules/Eval/Fields.antt =====
-- packages/rules/expression_parser.py: what an evaluation reads of its context, and when it raises.
use operational_intelligence.Prelude.{String, ◌≡◌, refl, some, Bool-cases, Option-cases, inl, inr}
use operational_intelligence.Prelude.Int.{ℤ}
use mathlib.Core.Path.{ap₂}
use operational_intelligence.Prelude.Dict.{lookup}
use operational_intelligence.Rules.Syntax.{
  Runtime, Value, CompOp, BinaryOp, AstNode, binary_op, not_op, literal, Result, ok, err, invalid,
  overflow, ◌>>=◌,
}
use operational_intelligence.Rules.Eval.{
  Context, truthy, int_to_float, bool_to_int, floats, coerce_left, coerce_right, both, either,
  coerce_for_comparison, compare_values, field_value, eval_node, evaluate,
}

abbrev pub IsEquality : CompOp → Type 0
IsEquality CompOp.eq = Unit
IsEquality CompOp.neq = Unit
IsEquality _ = ⊥

module _ {rt : Runtime} where
  -- `P` of every field that the expression names
  abbrev pub AllFields : (String → Type 0) → AstNode rt → Type 0
  AllFields P (literal v) = Unit
  AllFields P (AstNode.field name) = P name
  AllFields P (not_op a) = AllFields P a
  AllFields P (binary_op op a b) = AllFields P a × AllFields P b

  -- every comparison is `==` or `!=`
  abbrev pub NoOrder : AstNode rt → Type 0
  NoOrder (literal v) = Unit
  NoOrder (AstNode.field name) = Unit
  NoOrder (not_op a) = NoOrder a
  NoOrder (binary_op (BinaryOp.comp op) a b) = IsEquality op × NoOrder a × NoOrder b
  NoOrder (binary_op op a b) = NoOrder a × NoOrder b

  module _ (c d : Context rt) where
    eval_node_agree :
        (e : AstNode rt)
        → AllFields (λ name. lookup name c ≡ lookup name d) e
        → eval_node c e ≡ eval_node d e
    unfolding eval_node
    eval_node_agree (literal v) h = refl
    eval_node_agree (AstNode.field name) h = rw (h, field_value)
    eval_node_agree (not_op a) h = rw (eval_node_agree a h)
    eval_node_agree (binary_op BinaryOp.and a b) h =
        ap₂ both (eval_node_agree a h.0) (eval_node_agree b h.1)
    eval_node_agree (binary_op BinaryOp.or a b) h =
        ap₂ either (eval_node_agree a h.0) (eval_node_agree b h.1)
    eval_node_agree (binary_op (BinaryOp.comp op) a b) h =
        ap₂ (λ l r. l >>= λ v. r >>= λ w. compare_values op v w) (eval_node_agree a h.0)
          (eval_node_agree b h.1)

    -- Two contexts with the same values for the fields that an expression names give the same result
    -- or the same error.
    pub evaluate_agree :
        (e : AstNode rt)
        → AllFields (λ name. lookup name c ≡ lookup name d) e
        → evaluate e c ≡ evaluate e d
    unfolding evaluate
    evaluate_agree e h = rw (eval_node_agree e h)

-- no exception but OverflowError
abbrev pub Fine {ℓ} : {A : Type ℓ} → Result A → Type 0
Fine (ok v) = Unit
Fine (err overflow) = Unit
Fine (err _) = ⊥

bind-Fine {ℓ κ} :
    {A : Type ℓ} {B : Type κ} (r : Result A) (k : A → Result B)
    → Fine r
    → ((v : A) → Fine (k v))
    → Fine (r >>= k)
bind-Fine (ok v) k h f = f v
bind-Fine (err overflow) k h f = tt
bind-Fine (err (invalid p)) k h f = h
bind-Fine (err _) k h f = h

int_to_float-Fine : (rt : Runtime) (n : ℤ) → Fine (int_to_float rt n)
unfolding int_to_float
int_to_float-Fine rt n = elim (Option-cases (rt.float_of_int n)) [
  | inl e ↦ rw (e, int_to_float) tt
  | inr (x, e) ↦ rw (e, int_to_float) tt
]

floats-Fine : (rt : Runtime) (l r : Result rt.Float) → Fine l → Fine r → Fine (floats {rt = rt} l r)
floats-Fine rt l r hl hr = bind-Fine l _ hl (λ x. bind-Fine r _ hr (λ y. tt))

module _ {rt : Runtime} where
  coerce_left-Fine :
      (s : String) (y : Result rt.Float) (r : Value rt) → Fine y → Fine (coerce_left s y r)
  unfolding coerce_left
  coerce_left-Fine s y r h = elim (Option-cases (rt.float_of_text s)) [
    | inl e ↦ rw (e, coerce_left) tt
    | inr (x, e) ↦ rw (e, coerce_left) (bind-Fine y _ h (λ _. tt))
  ]

  text-Fine : (l : Value rt) (x : rt.Float) (s : String) → Fine (coerce_right l (ok x) s)
  unfolding coerce_right
  text-Fine l x s = elim (Option-cases (rt.float_of_text s)) [
    | inl e ↦ rw (e, coerce_right) tt
    | inr (y, e) ↦ rw (e, coerce_right) tt
  ]

  coerce_right-Fine :
      (l : Value rt) (x : Result rt.Float) (s : String) → Fine x → Fine (coerce_right l x s)
  unfolding coerce_right
  coerce_right-Fine l (ok x) s h = text-Fine l x s
  coerce_right-Fine l (err overflow) s h = tt
  coerce_right-Fine l (err (invalid p)) s h = h
  coerce_right-Fine l (err _) s h = h

  pub coerce-Fine : (l r : Value rt) → Fine (coerce_for_comparison l r)
  unfolding coerce_for_comparison
  coerce-Fine (Value.bool a) (Value.int n) =
      floats-Fine rt _ _ (int_to_float-Fine rt (bool_to_int a)) (int_to_float-Fine rt n)
  coerce-Fine (Value.bool a) (Value.float y) =
      floats-Fine rt _ (ok y) (int_to_float-Fine rt (bool_to_int a)) tt
  coerce-Fine (Value.int n) (Value.bool b) =
      floats-Fine rt _ _ (int_to_float-Fine rt n) (int_to_float-Fine rt (bool_to_int b))
  coerce-Fine (Value.int n) (Value.float y) = floats-Fine rt _ (ok y) (int_to_float-Fine rt n) tt
  coerce-Fine (Value.float x) (Value.bool b) =
      floats-Fine rt (ok x) _ tt (int_to_float-Fine rt (bool_to_int b))
  coerce-Fine (Value.float x) (Value.int n) = floats-Fine rt (ok x) _ tt (int_to_float-Fine rt n)
  coerce-Fine (Value.str s) (Value.bool b) =
      coerce_left-Fine s _ _ (int_to_float-Fine rt (bool_to_int b))
  coerce-Fine (Value.str s) (Value.int n) = coerce_left-Fine s _ _ (int_to_float-Fine rt n)
  coerce-Fine (Value.str s) (Value.float y) = coerce_left-Fine s (ok y) _ tt
  coerce-Fine (Value.bool a) (Value.str s) =
      coerce_right-Fine _ _ s (int_to_float-Fine rt (bool_to_int a))
  coerce-Fine (Value.int n) (Value.str s) = coerce_right-Fine _ _ s (int_to_float-Fine rt n)
  coerce-Fine (Value.float x) (Value.str s) = coerce_right-Fine _ (ok x) s tt
  coerce-Fine l r = tt

  compare-Fine : (op : CompOp) (l r : Value rt) → IsEquality op → Fine (compare_values op l r)
  unfolding compare_values
  compare-Fine CompOp.eq l r h = bind-Fine _ _ (coerce-Fine l r) (λ x. tt)
  compare-Fine CompOp.neq l r h = bind-Fine _ _ (coerce-Fine l r) (λ x. tt)
  compare-Fine _ l r h = absurd h

  both-Fine : (l r : Result (Value rt)) → Fine l → Fine r → Fine (both l r)
  unfolding both
  both-Fine l r hl hr = bind-Fine l _ hl λ v. elim (Bool-cases (truthy v)) [
    | inl e ↦ rw e (bind-Fine r _ hr (λ w. tt))
    | inr e ↦ rw e tt
  ]

  either-Fine : (l r : Result (Value rt)) → Fine l → Fine r → Fine (either l r)
  unfolding either
  either-Fine l r hl hr = bind-Fine l _ hl λ v. elim (Bool-cases (truthy v)) [
    | inl e ↦ rw e tt
    | inr e ↦ rw e (bind-Fine r _ hr (λ w. tt))
  ]

  module _ (c : Context rt) where
    eval_node-Fine :
        (e : AstNode rt)
        → AllFields (λ name. (v : Value rt) × (lookup name c ≡ some v)) e
        → NoOrder e
        → Fine (eval_node c e)
    unfolding eval_node
    eval_node-Fine (literal v) h n = tt
    eval_node-Fine (AstNode.field name) h n = rw (h.1, field_value) tt
    eval_node-Fine (not_op a) h n = bind-Fine _ _ (eval_node-Fine a h n) (λ v. tt)
    eval_node-Fine (binary_op BinaryOp.and a b) h n =
        both-Fine _ _ (eval_node-Fine a h.0 n.0) (eval_node-Fine b h.1 n.1)
    eval_node-Fine (binary_op BinaryOp.or a b) h n =
        either-Fine _ _ (eval_node-Fine a h.0 n.0) (eval_node-Fine b h.1 n.1)
    eval_node-Fine (binary_op (BinaryOp.comp op) a b) h n =
        bind-Fine _ _ (eval_node-Fine a h.0 n.1)
          λ l. bind-Fine _ _ (eval_node-Fine b h.1 n.2) λ r. compare-Fine op l r n.0

    -- An expression without `<`, `>`, `<=` and `>=`, all of whose fields the context has, evaluates
    -- to a value or raises OverflowError: it never raises ExpressionValidationError.
    pub evaluate-Fine :
        (e : AstNode rt)
        → AllFields (λ name. (v : Value rt) × (lookup name c ≡ some v)) e
        → NoOrder e
        → Fine (evaluate e c)
    unfolding evaluate
    evaluate-Fine e h n = bind-Fine _ _ (eval_node-Fine e h n) (λ v. tt)
