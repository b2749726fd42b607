-- ===== src/Rules/Lexer/Eof.antt =====
-- packages/rules/expression_parser.py: the end of `tokenize`, and the end of what it returns.
use operational_intelligence.Prelude.{
  ℕ, zero, suc, ◌+◌, ◌<◌, ◌≡◌, refl, String, ◌&&◌, ◌⊎◌, Option, some, none, ◌∷◌, arith, Bool-cases,
  Option-cases, inl, inr, ltb,
}
use Prim.Native.Char.{code}
use operational_intelligence.Rules.Syntax.{
  Runtime, Value, Tokens, token, TokenType, Result, ok, err, invalid, value_error, ◌>>=◌,
}
use operational_intelligence.Rules.Parser.Grammar.{EndsInEof}
use operational_intelligence.Rules.Lexer.Scan.{
  size, match_string, match_number, match_field, match_ident, match_operator, starts_minus, has_dot,
}
use operational_intelligence.Rules.Lexer.Scan.Sizes.{
  match_operator-size, match_string-size, match_ident-Takes, match_field-Takes, match_number-Takes,
  Takes,
}
use operational_intelligence.Rules.Lexer.{
  keyword, is_operand, number_value, next_word, next_number, next_token, scan, is_blank,
  tokenize_expression,
}

module _ {rt : Runtime} where
  abbrev NotEof : TokenType rt → Type 0
  NotEof TokenType.eof = ⊥
  NotEof type = Unit

  -- A step of the scan returned a token other than EOF and a shorter rest, or an exception that the
  -- program names.
  data Steps (s : String) : Result (TokenType rt × ℕ × String) → Type 0 where
    stepped :
        {type : TokenType rt} {n : ℕ} {rest : String}
        → NotEof type
        → size rest < size s
        → Steps s (ok (type, n, rest))
    unknown : {p : ℕ} → Steps s (err (invalid (some p)))
    no_number : Steps s (err value_error)

  keyword-NotEof : (word : String) (type : TokenType rt) → keyword rt word ≡ some type → NotEof type
  unfolding keyword
  keyword-NotEof word TokenType.eof h = ground arith
  keyword-NotEof word _ h = tt

  ident-Steps :
      (pos : ℕ) (s word rest : String) (k : Option (TokenType rt))
      → keyword rt word ≡ k
      → Takes s word rest
      → Steps s (elim k [
        | some type ↦ ok (type, size word, rest)
        | none ↦ ok (TokenType.field word, size word, rest)
      ])
  ident-Steps pos s word rest (some type) e t = stepped (keyword-NotEof word type e) (omega arith)
  ident-Steps pos s word rest none e t = stepped tt (omega arith)

  next_word-Steps : (pos : ℕ) (s : String) → Steps s (next_word rt pos s)
  unfolding next_word
  next_word-Steps pos s = elim (Option-cases (match_field s)) [
    | inr ((word, rest), e) ↦
        let t : Takes s word rest = match_field-Takes s e in
        rw (e, next_word) (stepped tt (omega arith))
    | inl e ↦ elim (Option-cases (match_ident s)) [
      | inl e' ↦ rw (e, e', next_word) unknown
      | inr ((word, rest), e') ↦
          rw (e, e', next_word)
            (ident-Steps pos s word rest (keyword rt word) refl (match_ident-Takes s e'))
    ]
  ]

  number_value_cases :
      (word : String)
      → ((v : Value rt) × (number_value rt word ≡ ok v)) ⊎ (number_value rt word ≡ err value_error)
  unfolding number_value
  number_value_cases word = elim (Bool-cases (has_dot word)) [
    | inl e ↦ elim (Option-cases (rt.float_of_text word)) [
      | inl e' ↦ inr (rw (e, e', number_value))
      | inr (x, e') ↦ inl (Value.float x, rw (e, e', number_value))
    ]
    | inr e ↦ elim (Option-cases (rt.int_of_text word)) [
      | inl e' ↦ inr (rw (e, e', number_value))
      | inr (n, e') ↦ inl (Value.int n, rw (e, e', number_value))
    ]
  ]

  number-Steps :
      (s word rest : String)
      → Takes s word rest
      → Steps s (number_value rt word >>= λ x. ok (TokenType.number x, size word, rest))
  number-Steps s word rest t = elim (number_value_cases word) [
    | inl (v, e) ↦ rw e (stepped tt (omega arith))
    | inr e ↦ rw e no_number
  ]

  next_number-Steps :
      (pos : ℕ) (last : Option (TokenType rt)) (s : String) → Steps s (next_number rt pos last s)
  unfolding next_number
  next_number-Steps pos last s = elim (Option-cases (match_number rt s)) [
    | inl e ↦ rw (e, next_number) (next_word-Steps pos s)
    | inr ((word, rest), e) ↦
        elim (Bool-cases (starts_minus word && (ltb 0 pos && is_operand rt last))) [
          | inl e' ↦ rw (e, next_number) (rw e' (next_word-Steps pos s))
          | inr e' ↦
              rw (e, next_number) (rw e' (number-Steps s word rest (match_number-Takes rt s e)))
        ]
  ]

  operator-Steps :
      (s rest : String) (n : ℕ) (type : TokenType rt)
      → match_operator rt s ≡ some (type, n, rest)
      → NotEof type × (size rest < size s)
  unfolding match_operator
  operator-Steps s rest n type h = match_operator-size NotEof s (omega arith) h

  next_token-Steps :
      (pos : ℕ) (last : Option (TokenType rt)) (s : String) → Steps s (next_token rt pos last s)
  unfolding next_token
  next_token-Steps pos last s = elim (Option-cases (match_operator rt s)) [
    | inr ((type, n, rest), e) ↦
        let (word, short) = operator-Steps s rest n type e in
        rw (e, next_token) (stepped word short)
    | inl e ↦ elim (Option-cases (match_string s)) [
      | inr ((v, n, rest), e') ↦ rw (e, e', next_token) (stepped tt (match_string-size s e'))
      | inl e' ↦ rw (e, e', next_token) (next_number-Steps pos last s)
    ]
  ]

  -- The scan returned tokens with one EOF, at their end, or raised what the program names.
  abbrev pub Lexed : Result (Tokens rt) → Type 0
  Lexed (ok ts) = EndsInEof ts
  Lexed (err (invalid p)) = Unit
  Lexed (err value_error) = Unit
  Lexed (err _) = ⊥

  cons-Lexed :
      (type : TokenType rt) (pos : ℕ) (r : Result (Tokens rt))
      → NotEof type
      → Lexed r
      → Lexed (r >>= λ more. ok (token type pos ∷ more))
  cons-Lexed TokenType.eof pos r n h = absurd n
  cons-Lexed _ pos (ok ts) n h = h
  cons-Lexed _ pos (err (invalid p)) n h = h
  cons-Lexed _ pos (err value_error) n h = h
  cons-Lexed _ pos (err _) n h = h

  step-Lexed :
      (s : String) (r : Result (TokenType rt × ℕ × String))
      (k : TokenType rt × ℕ × String → Result (Tokens rt)) (pos : ℕ)
      → Steps s r
      → ((type : TokenType rt) (n : ℕ) (rest : String)
          → size rest < size s
          → Lexed (k (type, n, rest)))
      → Lexed (r >>= λ x. k x >>= λ more. ok (token x.0 pos ∷ more))
  step-Lexed s _ k pos (stepped {type} {n} {rest} w short) h =
      cons-Lexed type pos (k (type, n, rest)) w (h type n rest short)
  step-Lexed s _ k pos unknown h = tt
  step-Lexed s _ k pos no_number h = tt

  scan-Lexed :
      (f pos : ℕ) (last : Option (TokenType rt)) (s : String)
      → size s < f
      → Lexed (scan rt f pos last s)
  unfolding scan
  scan-Lexed zero pos last s h = absurd (omega arith)
  scan-Lexed (suc f) pos last String.[] h = tt
  scan-Lexed (suc f) pos last (String.◌∷◌ c s) h = elim (Bool-cases (rt.is_space (code c))) [
    | inl e ↦ rw (e, scan) (scan-Lexed f (pos + 1) last s (omega arith))
    | inr e ↦
        rw (e, scan)
          (step-Lexed (String.◌∷◌ c s) _ (λ (type, n, rest). scan rt f (pos + n) (some type) rest)
            pos (next_token-Steps pos last (String.◌∷◌ c s))
            (λ type n rest short. scan-Lexed f (pos + n) (some type) rest (omega arith)))
  ]

-- On every text `ExpressionParser.tokenize` returns tokens with one EOF, at their end, or raises
-- ExpressionValidationError, or ValueError for a number: its loop always ends.
pub tokenize_expression-Lexed : (rt : Runtime) (s : String) → Lexed (tokenize_expression rt s)
unfolding tokenize_expression
tokenize_expression-Lexed rt s = elim (Bool-cases (is_blank rt s)) [
  | inl e ↦ rw e tt
  | inr e ↦ rw e (scan-Lexed (suc (size s)) 0 none s (omega arith))
]
