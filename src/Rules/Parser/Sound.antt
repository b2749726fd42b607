-- ===== src/Rules/Parser/Sound.antt =====
-- packages/rules/expression_parser.py: `_Parser.parse` on what `tokenize` returns, against the grammar.
use operational_intelligence.Prelude.{
  ℕ, zero, suc, ◌+◌, ◌*◌, ◌<◌, ◌≤◌, ◌≡◌, refl, ap, subst, [], ◌∷◌, Option, arith, length,
}
use operational_intelligence.Rules.Syntax.{
  Runtime, Value, Tokens, token, TokenType, CompOp, BinaryOp, AstNode, binary_op, literal, Result,
  ok, err, invalid,
}
use operational_intelligence.Rules.Syntax
use operational_intelligence.Rules.Parser.Grammar.{
  OrExpr, OrTail, AndExpr, AndTail, NotExpr, Comparison, Primary, or_of, or_end, or_more, and_of,
  and_end, and_more, not_of, not_none, compared, single, paren, EndsInEof, Expression,
}
use operational_intelligence.Rules.Parser.Grammar
use operational_intelligence.Rules.Parser.{
  expect_rparen, or_expr, or_loop, and_expr, and_loop, not_expr, comparison, comparison_tail,
  primary, finish, parse,
}

-- The run returned a value of which `P` holds, or raised ExpressionValidationError.
pub data Ensures {ℓ κ} {A : Type ℓ} (P : A → Type κ) : Result A → Type (ℓ ⊔ κ) where
  holds : {a : A} → P a → Ensures P (ok a)
  rejected : {p : Option ℕ} → Ensures P (err (invalid p))

pub Ensures-bind {ℓ κ ℓ' κ'} :
    {A : Type ℓ} {P : A → Type κ} {B : Type ℓ'} {Q : B → Type κ'} {first : Result A}
    {next : A → Result B}
    → Ensures P first
    → ((x : A) → P x → Ensures Q (next x))
    → Ensures Q (Syntax.◌>>=◌ first next)
Ensures-bind (holds {a} h) k = k a h
Ensures-bind rejected k = rejected

pub Ensures-imp {ℓ κ κ'} :
    {A : Type ℓ} {P : A → Type κ} {Q : A → Type κ'} {r : Result A}
    → Ensures P r
    → ((a : A) → P a → Q a)
    → Ensures Q r
Ensures-imp (holds {a} h) k = holds (k a h)
Ensures-imp rejected k = rejected

module _ {rt : Runtime} where
  -- what is left is shorter, and still ends in EOF
  record Leaves (R : Tokens rt → AstNode rt → Tokens rt → Type 0) (ts : Tokens rt)
      (x : AstNode rt × Tokens rt) : Type 0 where
    derived : R ts x.0 x.1
    shorter : length x.1 < length ts
    ended : EndsInEof x.1

  record Stops (R : AstNode rt → Tokens rt → AstNode rt → Tokens rt → Type 0) (l : AstNode rt)
      (ts : Tokens rt) (x : AstNode rt × Tokens rt) : Type 0 where
    derived : R l ts x.0 x.1
    shorter : length x.1 ≤ length ts
    ended : EndsInEof x.1

  expect_rparen-Ensures :
      (ts : Tokens rt)
      → EndsInEof ts
      → Ensures
          (λ x. (p : ℕ) × (ts ≡ token TokenType.rparen p ∷ x.1) × EndsInEof x.1)
          (expect_rparen ts)
  unfolding expect_rparen
  expect_rparen-Ensures [] e = absurd e
  expect_rparen-Ensures (token TokenType.rparen p ∷ ts) e = holds (p, refl, e)
  expect_rparen-Ensures (token _ p ∷ ts) e = rejected

  -- One induction on the fuel: every call leaves fewer tokens, so the fuel stays above its bound.
  mutual
    unfolding or_expr

    or_expr-Ensures :
        (f : ℕ) (ts : Tokens rt)
        → EndsInEof ts
        → 7 * length ts + 4 < f
        → Ensures (Leaves (OrExpr rt) ts) (or_expr f ts)
    or_expr-Ensures zero ts e h = absurd (omega arith)
    or_expr-Ensures (suc f) ts e h =
        Ensures-bind (and_expr-Ensures f ts e (omega arith)) λ (l, mid) a.
          let short : length mid < length ts = a.shorter in
          Ensures-imp (or_loop-Ensures f l mid a.ended (omega arith)) λ (r, rest) b.
            let le : length rest ≤ length mid = b.shorter in
            record { derived = or_of a.derived b.derived; shorter = omega arith; ended = b.ended }

    or_loop-Ensures :
        (f : ℕ) (l : AstNode rt) (ts : Tokens rt)
        → EndsInEof ts
        → 7 * length ts < f
        → Ensures (Stops (OrTail rt) l ts) (or_loop f l ts)
    or_loop-Ensures zero l ts e h = absurd (omega arith)
    or_loop-Ensures (suc f) l [] e h = absurd e
    or_loop-Ensures (suc f) l (token TokenType.or p ∷ ts) e h =
        Ensures-bind (and_expr-Ensures f ts e (omega arith)) λ (r, mid) a.
          let short : length mid < length ts = a.shorter in
          Ensures-imp (or_loop-Ensures f (binary_op BinaryOp.or l r) mid a.ended (omega arith))
            λ (x, rest) b.
              let le : length rest ≤ length mid = b.shorter in
              record {
                derived = or_more a.derived b.derived;
                shorter = omega arith;
                ended = b.ended;
              }
    or_loop-Ensures (suc f) l ts e h =
        holds (record { derived = or_end; shorter = omega arith; ended = e })

    and_expr-Ensures :
        (f : ℕ) (ts : Tokens rt)
        → EndsInEof ts
        → 7 * length ts + 3 < f
        → Ensures (Leaves (AndExpr rt) ts) (and_expr f ts)
    and_expr-Ensures zero ts e h = absurd (omega arith)
    and_expr-Ensures (suc f) ts e h =
        Ensures-bind (not_expr-Ensures f ts e (omega arith)) λ (l, mid) a.
          let short : length mid < length ts = a.shorter in
          Ensures-imp (and_loop-Ensures f l mid a.ended (omega arith)) λ (r, rest) b.
            let le : length rest ≤ length mid = b.shorter in
            record { derived = and_of a.derived b.derived; shorter = omega arith; ended = b.ended }

    and_loop-Ensures :
        (f : ℕ) (l : AstNode rt) (ts : Tokens rt)
        → EndsInEof ts
        → 7 * length ts < f
        → Ensures (Stops (AndTail rt) l ts) (and_loop f l ts)
    and_loop-Ensures zero l ts e h = absurd (omega arith)
    and_loop-Ensures (suc f) l [] e h = absurd e
    and_loop-Ensures (suc f) l (token TokenType.and p ∷ ts) e h =
        Ensures-bind (not_expr-Ensures f ts e (omega arith)) λ (r, mid) a.
          let short : length mid < length ts = a.shorter in
          Ensures-imp (and_loop-Ensures f (binary_op BinaryOp.and l r) mid a.ended (omega arith))
            λ (x, rest) b.
              let le : length rest ≤ length mid = b.shorter in
              record {
                derived = and_more a.derived b.derived;
                shorter = omega arith;
                ended = b.ended;
              }
    and_loop-Ensures (suc f) l ts e h =
        holds (record { derived = and_end; shorter = omega arith; ended = e })

    not_expr-Ensures :
        (f : ℕ) (ts : Tokens rt)
        → EndsInEof ts
        → 7 * length ts + 2 < f
        → Ensures (Leaves (NotExpr rt) ts) (not_expr f ts)
    not_expr-Ensures zero ts e h = absurd (omega arith)
    not_expr-Ensures (suc f) (token TokenType.not p ∷ ts) e h =
        Ensures-bind (not_expr-Ensures f ts e (omega arith)) λ (x, rest) a.
          let short : length rest < length ts = a.shorter in
          holds (record { derived = not_of a.derived; shorter = omega arith; ended = a.ended })
    not_expr-Ensures (suc f) ts e h =
        Ensures-imp (comparison-Ensures f ts e (omega arith))
          λ _ a. record { derived = not_none a.derived; shorter = a.shorter; ended = a.ended }

    comparison-Ensures :
        (f : ℕ) (ts : Tokens rt)
        → EndsInEof ts
        → 7 * length ts + 1 < f
        → Ensures (Leaves (Comparison rt) ts) (comparison f ts)
    comparison-Ensures zero ts e h = absurd (omega arith)
    comparison-Ensures (suc f) ts e h =
        Ensures-bind (primary-Ensures f ts e (omega arith)) λ (l, mid) a.
          let short : length mid < length ts = a.shorter in
          comparison_tail-Ensures f l ts mid a.derived short a.ended (omega arith)

    comparison_tail-Ensures :
        (f : ℕ) (l : AstNode rt) (ts mid : Tokens rt)
        → Primary rt ts l mid
        → length mid < length ts
        → EndsInEof mid
        → 7 * length mid < f
        → Ensures (Leaves (Comparison rt) ts) (comparison_tail f l mid)
    comparison_tail-Ensures zero l ts mid d s e h = absurd (omega arith)
    comparison_tail-Ensures (suc f) l ts [] d s e h = absurd e
    comparison_tail-Ensures (suc f) l ts (token (TokenType.comp op) p ∷ mid) d s e h =
        Ensures-bind (primary-Ensures f mid e (omega arith)) λ (r, rest) b.
          let short : length rest < length mid = b.shorter in
          holds (record { derived = compared d b.derived; shorter = omega arith; ended = b.ended })
    comparison_tail-Ensures (suc f) l ts mid d s e h =
        holds (record { derived = single d; shorter = omega arith; ended = e })

    primary-Ensures :
        (f : ℕ) (ts : Tokens rt)
        → EndsInEof ts
        → 7 * length ts < f
        → Ensures (Leaves (Primary rt) ts) (primary f ts)
    primary-Ensures zero ts e h = absurd (omega arith)
    primary-Ensures (suc f) [] e h = absurd e
    primary-Ensures (suc f) (token TokenType.lparen p ∷ ts) e h =
        Ensures-bind (or_expr-Ensures f ts e (omega arith)) λ (node, mid) a.
          let short : length mid < length ts = a.shorter in
          Ensures-bind (expect_rparen-Ensures mid a.ended) λ (_, rest) (q, same, ended).
            let len : length mid ≡ suc (length rest) = ap length same in
            holds (record {
              derived = paren (subst (λ m. OrExpr rt ts node m) same a.derived);
              shorter = omega arith;
              ended = ended;
            })
    primary-Ensures (suc f) (token (TokenType.string s) p ∷ ts) e h =
        holds (record { derived = Grammar.string; shorter = omega arith; ended = e })
    primary-Ensures (suc f) (token (TokenType.number v) p ∷ ts) e h =
        holds (record { derived = Grammar.number; shorter = omega arith; ended = e })
    primary-Ensures (suc f) (token (TokenType.boolean b) p ∷ ts) e h =
        holds (record { derived = Grammar.boolean; shorter = omega arith; ended = e })
    primary-Ensures (suc f) (token (TokenType.field name) p ∷ ts) e h =
        holds (record { derived = Grammar.field; shorter = omega arith; ended = e })
    primary-Ensures (suc f) (token _ p ∷ ts) e h = rejected

  finish-Ensures :
      (node : AstNode rt) (ts rest : Tokens rt)
      → OrExpr rt ts node rest
      → EndsInEof rest
      → Ensures (Expression rt ts) (finish node rest)
  unfolding finish
  finish-Ensures node ts [] d e = absurd e
  finish-Ensures node ts (token TokenType.eof p ∷ []) d e = holds (p, d)
  finish-Ensures node ts (token TokenType.eof p ∷ t ∷ rest) d e = absurd e
  finish-Ensures node ts (token _ p ∷ rest) d e = rejected

  -- On tokens with one EOF, at their end, `parse` returns a tree that the grammar gives to the
  -- whole input, or raises ExpressionValidationError: it always ends, and never runs off the list.
  pub parse-Ensures : (ts : Tokens rt) → EndsInEof ts → Ensures (Expression rt ts) (parse ts)
  unfolding parse
  parse-Ensures ts e =
      Ensures-bind (or_expr-Ensures (7 * length ts + 5) ts e (omega arith))
        λ (node, rest) a. finish-Ensures node ts rest a.derived a.ended
