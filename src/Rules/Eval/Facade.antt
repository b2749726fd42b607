-- ===== src/Rules/Eval/Facade.antt =====
-- packages/rules/expression_parser.py, class `ExpressionParser`.
use operational_intelligence.Prelude.{
  String, Bool, true, Option, some, none, Bool-cases, Option-cases, inl, inr,
}
use operational_intelligence.Prelude.Dict.{lookup}
use operational_intelligence.Rules.Syntax.{
  Runtime, Value, CompOp, BinaryOp, AstNode, binary_op, not_op, literal, Tokens, Result, ok, err,
  invalid, index_error, value_error, out_of_fuel, ◌>>=◌,
}
use operational_intelligence.Rules.Lexer.{tokenize_expression}
use operational_intelligence.Rules.Lexer.Eof.{Lexed, tokenize_expression-Lexed}
use operational_intelligence.Rules.Parser.{parse}
use operational_intelligence.Rules.Parser.Sound.{Ensures, holds, rejected, parse-Ensures}
use operational_intelligence.Rules.Eval.{
  Context, truthy, apply_comparison, compare_values, field_value, eval_node, evaluate, ordered,
}
use operational_intelligence.Rules.Eval.Fields.{Fine, coerce-Fine}

-- ExpressionParser.evaluate
unfoldable pub evaluate_expression : (rt : Runtime) → String → Context rt → Result Bool
unfolding tokenize_expression parse evaluate
evaluate_expression rt expression context =
    tokenize_expression rt expression >>= λ tokens. parse tokens >>= λ ast. evaluate ast context

-- ExpressionParser.validate
unfoldable pub validate : (rt : Runtime) → String → Result Bool
unfolding tokenize_expression parse
validate rt expression =
    tokenize_expression rt expression >>= λ tokens. parse tokens >>= λ ast. ok true

-- The call returned, or raised ExpressionValidationError, ValueError or OverflowError.
abbrev pub Reported {ℓ} : {A : Type ℓ} → Result A → Type 0
Reported (ok a) = Unit
Reported (err index_error) = ⊥
Reported (err out_of_fuel) = ⊥
Reported (err _) = Unit

bind-Reported {ℓ κ} :
    {A : Type ℓ} {B : Type κ} (r : Result A) (k : A → Result B)
    → Reported r
    → ((v : A) → Reported (k v))
    → Reported (r >>= k)
bind-Reported (ok v) k h f = f v
bind-Reported (err index_error) k h f = h
bind-Reported (err out_of_fuel) k h f = h
bind-Reported (err _) k h f = tt

Fine-Reported {ℓ} : {A : Type ℓ} (r : Result A) → Fine r → Reported r
Fine-Reported (ok v) h = tt
Fine-Reported (err index_error) h = h
Fine-Reported (err out_of_fuel) h = h
Fine-Reported (err _) h = tt

ordered-Reported : (rt : Runtime) (o : Option Bool) → Reported (ordered {rt = rt} o)
ordered-Reported rt none = tt
ordered-Reported rt (some b) = tt

module _ {rt : Runtime} where
  compare-Reported : (op : CompOp) (l r : Value rt) → Reported (compare_values op l r)
  unfolding compare_values
  compare-Reported op l r =
      bind-Reported _ _ (Fine-Reported _ (coerce-Fine l r)) (λ (v, w). after op v w)
    where
      after : (op : CompOp) (v w : Value rt) → Reported (apply_comparison op (v, w))
      after CompOp.eq v w = tt
      after CompOp.neq v w = tt
      after CompOp.lt v w = ordered-Reported rt _
      after CompOp.gt v w = ordered-Reported rt _
      after CompOp.lte v w = ordered-Reported rt _
      after CompOp.gte v w = ordered-Reported rt _

  field-Reported : (c : Context rt) (name : String) → Reported (field_value c name)
  unfolding field_value
  field-Reported c name = elim (Option-cases (lookup name c)) [
    | inl e ↦ rw (e, field_value) tt
    | inr (v, e) ↦ rw (e, field_value) tt
  ]

  eval_node-Reported : (c : Context rt) (e : AstNode rt) → Reported (eval_node c e)
  unfolding eval_node
  eval_node-Reported c (literal v) = tt
  eval_node-Reported c (AstNode.field name) = field-Reported c name
  eval_node-Reported c (not_op a) = bind-Reported _ _ (eval_node-Reported c a) (λ v. tt)
  eval_node-Reported c (binary_op BinaryOp.and a b) =
      bind-Reported _ _ (eval_node-Reported c a) λ v. elim (Bool-cases (truthy v)) [
        | inl e ↦ rw e (bind-Reported _ _ (eval_node-Reported c b) (λ w. tt))
        | inr e ↦ rw e tt
      ]
  eval_node-Reported c (binary_op BinaryOp.or a b) = bind-Reported _ _ (eval_node-Reported c a) λ v.
      elim (Bool-cases (truthy v)) [
        | inl e ↦ rw e tt
        | inr e ↦ rw e (bind-Reported _ _ (eval_node-Reported c b) (λ w. tt))
      ]
  eval_node-Reported c (binary_op (BinaryOp.comp op) a b) =
      bind-Reported _ _ (eval_node-Reported c a)
        λ l. bind-Reported _ _ (eval_node-Reported c b) λ r. compare-Reported op l r

  parsed-Reported :
      {P : AstNode rt → Type 0} {r : Result (AstNode rt)} (k : AstNode rt → Result Bool)
      → Ensures P r
      → ((e : AstNode rt) → Reported (k e))
      → Reported (r >>= k)
  parsed-Reported k (holds {a} h) f = f a
  parsed-Reported k rejected f = tt

  Lexed-Reported :
      (r : Result (Tokens rt)) (k : AstNode rt → Result Bool)
      → Lexed r
      → ((e : AstNode rt) → Reported (k e))
      → Reported (r >>= λ tokens. parse tokens >>= k)
  Lexed-Reported (ok ts) k h f = parsed-Reported k (parse-Ensures ts h) f
  Lexed-Reported (err (invalid p)) k h f = tt
  Lexed-Reported (err value_error) k h f = tt
  Lexed-Reported (err _) k h f = absurd h

-- Evaluating any text in any context ends with a truth value, ExpressionValidationError, ValueError
-- or OverflowError: no loop runs on, and the parser reads no token past the last one.
pub evaluate_expression-Reported :
    (rt : Runtime) (s : String) (c : Context rt) → Reported (evaluate_expression rt s c)
unfolding evaluate_expression
evaluate_expression-Reported rt s c =
    Lexed-Reported (tokenize_expression rt s) (λ ast. evaluate ast c)
      (tokenize_expression-Lexed rt s)
      (λ ast. bind-Reported _ _ (eval_node-Reported c ast) (λ v. tt))
