-- ===== src/Rules/Eval/Laws.antt =====
-- packages/rules/expression_parser.py: laws of `evaluate`, its errors and its order included.
use operational_intelligence.Prelude.{◌≡◌, arith}
use operational_intelligence.Rules.Syntax.{Runtime, CompOp, BinaryOp, AstNode, binary_op, not_op}
use operational_intelligence.Rules.Eval.{Context, evaluate}

module _ {rt : Runtime} (context : Context rt) (a b : AstNode rt) where
  -- `NOT (a AND b)` and `NOT a OR NOT b` evaluate the same operands in the same order: they return
  -- the same value or raise the same error.
  pub not_and-eq-or_not :
      evaluate (not_op (binary_op BinaryOp.and a b)) context
      ≡ evaluate (binary_op BinaryOp.or (not_op a) (not_op b)) context
  unfolding evaluate
  not_and-eq-or_not = ground arith

  -- `NOT (a OR b)` and `NOT a AND NOT b` evaluate the same operands in the same order: they return
  -- the same value or raise the same error.
  pub not_or-eq-and_not :
      evaluate (not_op (binary_op BinaryOp.or a b)) context
      ≡ evaluate (binary_op BinaryOp.and (not_op a) (not_op b)) context
  unfolding evaluate
  not_or-eq-and_not = ground arith

-- Which operator compares the same two values in the other order.
abbrev pub flip : CompOp → CompOp
flip CompOp.lt = CompOp.gt
flip CompOp.gt = CompOp.lt
flip CompOp.lte = CompOp.gte
flip CompOp.gte = CompOp.lte
flip op = op

abbrev pub swap {ℓ} : {A : Type ℓ} → A × A → A × A
swap (x, y) = (y, x)
