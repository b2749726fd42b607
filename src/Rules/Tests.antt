-- ===== src/Rules/Tests.antt =====
-- Runs of the expression language, and the theorems about it at concrete inputs.
use operational_intelligence.Prelude.{true, ◌≡◌, ◌↔◌, refl, [], ◌∷◌}
use operational_intelligence.Prelude.Int.{pos}
use operational_intelligence.Rules.Syntax.{
  Value, CompOp, Tokens, token, TokenType, BinaryOp, AstNode, binary_op, not_op, literal, ok, err,
  overflow,
}
use operational_intelligence.Rules.Samples.{tiny, narrow}
use operational_intelligence.Rules.Lexer.{tokenize_expression}
use operational_intelligence.Rules.Lexer.Eof.{Lexed, tokenize_expression-Lexed}
use operational_intelligence.Rules.Parser.{parse, or_expr}
use operational_intelligence.Rules.Parser.Grammar.{Expression}
use operational_intelligence.Rules.Parser.Sound.{Ensures, parse-Ensures}
use operational_intelligence.Rules.Parser.Complete.{parse-eq-ok_iff}
use operational_intelligence.Rules.Eval.{Context}
use operational_intelligence.Rules.Eval.Facade.{
  evaluate_expression, Reported, evaluate_expression-Reported,
}

abbrev sample : Context tiny
sample = ("event.count", Value.int (pos 7)) ∷ ("event.event_type", Value.str "scan") ∷ []

count_over_three : evaluate_expression tiny "event.count > 3 AND NOT false" sample ≡ ok true
unfolding evaluate_expression or_expr
count_over_three = refl

precedence : evaluate_expression tiny "true OR true AND false" [] ≡ ok true
unfolding evaluate_expression or_expr
precedence = refl

escaping_overflow :
    evaluate_expression narrow "event.count > '5'" (("event.count", Value.int (pos 2000)) ∷ [])
    ≡ err overflow
unfolding evaluate_expression or_expr
escaping_overflow = refl

-- `event.count > 3`
abbrev compared_tokens : Tokens tiny
compared_tokens =
    token (TokenType.field "event.count") 0
    ∷ token (TokenType.comp CompOp.gt) 12
    ∷ token (TokenType.number (Value.int (pos 3))) 14
    ∷ token TokenType.eof 15
    ∷ []

abbrev compared_tree : AstNode tiny
compared_tree =
    binary_op (BinaryOp.comp CompOp.gt) (AstNode.field "event.count") (literal (Value.int (pos 3)))

tokenized : tokenize_expression tiny "event.count > 3" ≡ ok compared_tokens
unfolding tokenize_expression
tokenized = refl

tokenize_expression-Lexed_example : Lexed (tokenize_expression tiny "event.count > 3")
tokenize_expression-Lexed_example = tokenize_expression-Lexed tiny "event.count > 3"

parse-Ensures_example : Ensures (Expression tiny compared_tokens) (parse compared_tokens)
parse-Ensures_example = parse-Ensures compared_tokens tt

parse-eq-ok_iff_example :
    (parse compared_tokens ≡ ok compared_tree) ↔ Expression tiny compared_tokens compared_tree
parse-eq-ok_iff_example = parse-eq-ok_iff compared_tokens compared_tree tt

evaluate_expression-Reported_example : Reported (evaluate_expression tiny "event.count > 3" sample)
evaluate_expression-Reported_example = evaluate_expression-Reported tiny "event.count > 3" sample

abbrev equality_tree : AstNode tiny
equality_tree = not_op (
    binary_op (BinaryOp.comp CompOp.eq) (AstNode.field "event.event_type")
      (literal (Value.str "scan")))
