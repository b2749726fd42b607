-- ===== src/Rules/Lexer.antt =====
-- packages/rules/expression_parser.py, `tokenize` and `ExpressionParser.tokenize`.
-- A regular expression is the function that returns what it matches at the head of the text and
-- what follows. None of the four backtracks into another match, so each is a greedy scan.
mod Scan
pub mod Eof
pub use Scan.{size}
unfoldable pub use Scan.{match_string, match_number, match_field, match_ident, match_operator}
use operational_intelligence.Prelude.{
  ℕ, zero, suc, ◌+◌, String, Bool, true, false, not, ◌&&◌, Option, some, none, List, [], ◌∷◌, ◌++◌,
  map, codes, if◌then◌else◌, ltb, lower, codes_eq,
}
use Prim.Native.Char.{code}
use operational_intelligence.Rules.Syntax.{
  Runtime, Value, Token, Tokens, token, TokenType, Result, ok, err, invalid, value_error,
  out_of_fuel, ◌>>=◌,
}
use Scan.{has_dot, starts_minus}

module _ (rt : Runtime) where
  -- `_KEYWORD_MAP`
  unfoldable pub keyword : String → Option (TokenType rt)
  keyword word =
      let low = map lower (codes word) in
      if codes_eq low (codes "and")
      then some TokenType.and
      else if codes_eq low (codes "or")
      then some TokenType.or
      else if codes_eq low (codes "not")
      then some TokenType.not
      else if codes_eq low (codes "true")
      then some (TokenType.boolean true)
      else if codes_eq low (codes "false")
      then some (TokenType.boolean false)
      else none

  -- `tokens and tokens[-1].type in (NUMBER, STRING, BOOLEAN, FIELD, RPAREN)`
  unfoldable pub is_operand : Option (TokenType rt) → Bool
  is_operand (some (TokenType.number v)) = true
  is_operand (some (TokenType.string s)) = true
  is_operand (some (TokenType.boolean b)) = true
  is_operand (some (TokenType.field s)) = true
  is_operand (some TokenType.rparen) = true
  is_operand _ = false

  -- float(num_str) if "." in num_str else int(num_str)
  unfoldable pub number_value : String → Result (Value rt)
  number_value num_str =
      if has_dot num_str
      then elim (rt.float_of_text num_str) [ some x ↦ ok (Value.float x) | none ↦ err value_error ]
      else elim (rt.int_of_text num_str) [ some n ↦ ok (Value.int n) | none ↦ err value_error ]

  -- One token at the head of a text that begins with no space: its type, its length, and the rest.
  unfoldable pub next_word : ℕ → String → Result (TokenType rt × ℕ × String)
  unfolding match_field match_ident keyword
  next_word pos s = elim (match_field s) [
    | some (word, rest) ↦ ok (TokenType.field word, size word, rest)
    | none ↦ elim (match_ident s) [
      | some (word, rest) ↦ elim (keyword word) [
        | some type ↦ ok (type, size word, rest)
        | none ↦ ok (TokenType.field word, size word, rest)
      ]
      | none ↦ err (invalid (some pos))
    ]
  ]

  unfoldable pub next_number :
      ℕ → Option (TokenType rt) → String → Result (TokenType rt × ℕ × String)
  unfolding match_number is_operand number_value next_word
  next_number pos last s = elim (match_number rt s) [
    | some (num_str, rest) ↦
        if starts_minus num_str && (ltb 0 pos && is_operand last)
        then next_word pos s
        else (number_value num_str >>= λ v. ok (TokenType.number v, size num_str, rest))
    | none ↦ next_word pos s
  ]

  unfoldable pub next_token :
      ℕ → Option (TokenType rt) → String → Result (TokenType rt × ℕ × String)
  unfolding match_operator match_string next_number
  next_token pos last s = elim (match_operator rt s) [
    | some (type, n, rest) ↦ ok (type, n, rest)
    | none ↦ elim (match_string s) [
      | some (value, n, rest) ↦ ok (TokenType.string value, n, rest)
      | none ↦ next_number pos last s
    ]
  ]

  -- The `while` loop: `pos`, the type of the last token, and the text from `pos` on. The tokens are
  -- returned in order, the EOF token last.
  unfoldable pub scan : ℕ → ℕ → Option (TokenType rt) → String → Result (Tokens rt)
  unfolding next_token
  scan zero pos last s = err out_of_fuel
  scan (suc f) pos last String.[] = ok (token TokenType.eof pos ∷ [])
  scan (suc f) pos last (String.◌∷◌ c s) = elim (rt.is_space (code c)) [
    | true ↦ scan f (pos + 1) last s
    | false ↦ next_token pos last (String.◌∷◌ c s) >>= λ (type, n, rest).
        scan f (pos + n) (some type) rest >>= λ more. ok (token type pos ∷ more)
  ]

  unfoldable pub tokenize : String → Result (Tokens rt)
  unfolding scan
  tokenize expression = scan (suc (size expression)) 0 none expression

  -- `expression.strip()` is empty
  unfoldable pub is_blank : String → Bool
  is_blank String.[] = true
  is_blank (String.◌∷◌ c s) = rt.is_space (code c) && is_blank s

  -- ExpressionParser.tokenize
  unfoldable pub tokenize_expression : String → Result (Tokens rt)
  unfolding tokenize is_blank
  tokenize_expression expression =
      if is_blank expression then err (invalid none) else tokenize expression
