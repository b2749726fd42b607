-- ===== src/Rules/Parser.antt =====
-- packages/rules/expression_parser.py, class `_Parser`: recursive descent over the tokens that are
-- left. A method is a function of the tokens from `_pos` on, and returns what it leaves of them.
-- What a call leaves is no structural part of its input, so each call costs a unit of fuel.
pub mod Grammar
pub mod Sound
pub mod Complete
use operational_intelligence.Prelude.{ℕ, zero, suc, ◌+◌, ◌*◌, [], ◌∷◌, some, length}
use operational_intelligence.Rules.Syntax.{
  Runtime, Value, Tokens, token, TokenType, BinaryOp, AstNode, binary_op, not_op, literal, Result,
  ok, err, invalid, index_error, out_of_fuel,
}
use operational_intelligence.Rules.Syntax

abbrev pub Parser {ℓ} : Runtime → Type ℓ → Type ℓ
Parser rt A = Tokens rt → Result (A × Tokens rt)

module _ {rt : Runtime} where
  infixl 1 ◌>>=◌ ◌>>◌
  abbrev pub ◌>>=◌ {ℓ κ} : {A : Type ℓ} {B : Type κ} → Parser rt A → (A → Parser rt B) → Parser rt B
  p >>= f = λ ts. Syntax.◌>>=◌ (p ts) λ (a, rest). f a rest

  abbrev pub ◌>>◌ {ℓ κ} : {A : Type ℓ} {B : Type κ} → Parser rt A → Parser rt B → Parser rt B
  p >> q = p >>= λ _. q

  abbrev pub pure {ℓ} : {A : Type ℓ} → A → Parser rt A
  pure a ts = ok (a, ts)

  abbrev pub run {ℓ} : {A : Type ℓ} → Tokens rt → Parser rt A → Result (A × Tokens rt)
  run ts p = p ts

  -- self._expect(TokenType.RPAREN)
  unfoldable pub expect_rparen : Parser rt (Unit {0})
  expect_rparen [] = err index_error
  expect_rparen (token TokenType.rparen p ∷ ts) = ok (tt, ts)
  expect_rparen (token _ p ∷ ts) = err (invalid (some p))

  unfoldable mutual
    pub or_expr : ℕ → Parser rt (AstNode rt)
    or_expr zero ts = err out_of_fuel
    or_expr (suc f) ts = run ts do left ← and_expr f; or_loop f left

    -- while self._peek() == TokenType.OR
    pub or_loop : ℕ → AstNode rt → Parser rt (AstNode rt)
    or_loop zero left ts = err out_of_fuel
    or_loop (suc f) left [] = err index_error
    or_loop (suc f) left (token TokenType.or p ∷ ts) =
        run ts do right ← and_expr f; or_loop f (binary_op BinaryOp.or left right)
    or_loop (suc f) left ts = ok (left, ts)

    pub and_expr : ℕ → Parser rt (AstNode rt)
    and_expr zero ts = err out_of_fuel
    and_expr (suc f) ts = run ts do left ← not_expr f; and_loop f left

    -- while self._peek() == TokenType.AND
    pub and_loop : ℕ → AstNode rt → Parser rt (AstNode rt)
    and_loop zero left ts = err out_of_fuel
    and_loop (suc f) left [] = err index_error
    and_loop (suc f) left (token TokenType.and p ∷ ts) =
        run ts do right ← not_expr f; and_loop f (binary_op BinaryOp.and left right)
    and_loop (suc f) left ts = ok (left, ts)

    pub not_expr : ℕ → Parser rt (AstNode rt)
    not_expr zero ts = err out_of_fuel
    not_expr (suc f) (token TokenType.not p ∷ ts) =
        run ts do operand ← not_expr f; pure (not_op operand)
    not_expr (suc f) ts = comparison f ts

    pub comparison : ℕ → Parser rt (AstNode rt)
    comparison zero ts = err out_of_fuel
    comparison (suc f) ts = run ts do left ← primary f; comparison_tail f left

    -- the `if` of `_comparison` on the operator behind its left operand
    pub comparison_tail : ℕ → AstNode rt → Parser rt (AstNode rt)
    comparison_tail zero left ts = err out_of_fuel
    comparison_tail (suc f) left [] = err index_error
    comparison_tail (suc f) left (token (TokenType.comp op) p ∷ ts) =
        run ts do right ← primary f; pure (binary_op (BinaryOp.comp op) left right)
    comparison_tail (suc f) left ts = ok (left, ts)

    pub primary : ℕ → Parser rt (AstNode rt)
    primary zero ts = err out_of_fuel
    primary (suc f) [] = err index_error
    primary (suc f) (token TokenType.lparen p ∷ ts) =
        run ts do node ← or_expr f; expect_rparen; pure node
    primary (suc f) (token (TokenType.string s) p ∷ ts) = ok (literal (Value.str s), ts)
    primary (suc f) (token (TokenType.number v) p ∷ ts) = ok (literal v, ts)
    primary (suc f) (token (TokenType.boolean b) p ∷ ts) = ok (literal (Value.bool b), ts)
    primary (suc f) (token (TokenType.field name) p ∷ ts) = ok (AstNode.field name, ts)
    primary (suc f) (token _ p ∷ ts) = err (invalid (some p))

  -- the test of `parse` that the expression ends at EOF
  unfoldable pub finish : AstNode rt → Tokens rt → Result (AstNode rt)
  finish node [] = err index_error
  finish node (token TokenType.eof p ∷ ts) = ok node
  finish node (token _ p ∷ ts) = err (invalid (some p))

  unfoldable pub parse : Tokens rt → Result (AstNode rt)
  unfolding finish
  parse ts = Syntax.◌>>=◌ (or_expr (7 * length ts + 5) ts) λ (node, rest). finish node rest
