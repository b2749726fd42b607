-- ===== src/Rules/Lexer/Scan.antt =====
-- packages/rules/expression_parser.py: `_OPERATOR_MAP` and the regular expressions of `tokenize`.
pub mod Sizes
use operational_intelligence.Prelude.{
  ℕ, zero, suc, ◌+◌, ◌<◌, ◌≡◌, refl, ap, String, Bool, true, false, ◌&&◌, ◌||◌, All, subst, Option,
  some, none, List, [], ◌∷◌, if◌then◌else◌, leb, ◌==◌, arith, Bool-cases, Option-cases, inl, inr,
}
use Prim.Native.Char.{Char, code}
use Prim.Native.String.{◌++◌}
use text.Mathlib.TextLemmas.{cons-append, nil-append}
use operational_intelligence.Rules.Syntax.{Runtime, TokenType, CompOp}

-- the number of characters
abbrev pub size : String → ℕ
size String.[] = 0
size (String.◌∷◌ c s) = suc (size s)

-- the longest prefix of characters that pass the test, and the rest
unfoldable pub span : (ℕ → Bool) → String → String × String
span p String.[] = (String.[], String.[])
span p (String.◌∷◌ c s) =
    let (a, b) = span p s in if p (code c) then (String.◌∷◌ c a, b) else (String.[], String.◌∷◌ c s)

-- what follows a fixed text at the head
unfoldable pub strip_prefix : String → String → Option String
strip_prefix String.[] s = some s
strip_prefix (String.◌∷◌ c p) String.[] = none
strip_prefix (String.◌∷◌ c p) (String.◌∷◌ d s) = if code c == code d then strip_prefix p s else none

-- `_OPERATOR_MAP`, in its order: the first that fits is taken
abbrev pub operators : (rt : Runtime) → List (String × TokenType rt)
operators rt =
    ("==", TokenType.comp CompOp.eq)
    ∷ ("!=", TokenType.comp CompOp.neq)
    ∷ ("<=", TokenType.comp CompOp.lte)
    ∷ (">=", TokenType.comp CompOp.gte)
    ∷ ("<", TokenType.comp CompOp.lt)
    ∷ (">", TokenType.comp CompOp.gt)
    ∷ ("(", TokenType.lparen)
    ∷ (")", TokenType.rparen)
    ∷ []

unfoldable pub first_operator :
    {rt : Runtime} → List (String × TokenType rt) → String → Option (TokenType rt × ℕ × String)
unfolding strip_prefix
first_operator [] s = none
first_operator ((op, type) ∷ ops) s = elim (strip_prefix op s) [
  | some rest ↦ some (type, size op, rest)
  | none ↦ first_operator ops s
]

unfoldable pub match_operator : (rt : Runtime) → String → Option (TokenType rt × ℕ × String)
unfolding first_operator
match_operator rt s = first_operator (operators rt) s

abbrev prepend : Char → Option (String × String) → Option (String × String)
prepend c none = none
prepend c (some (v, rest)) = some (String.◌∷◌ c v, rest)

-- The content up to the closing quote `q`, and what follows that. A backslash takes the next
-- character with it, unless that is a newline.
unfoldable pub quoted : ℕ → String → Option (String × String)
quoted q String.[] = none
quoted q (String.◌∷◌ c String.[]) = if code c == q then some (String.[], String.[]) else none
quoted q (String.◌∷◌ c (String.◌∷◌ d s)) =
    let plain = quoted q (String.◌∷◌ d s) in
    let escaped = quoted q s in
    elim (code c == q) [
      | true ↦ some (String.[], String.◌∷◌ d s)
      | false ↦ elim (code c == b'\\') [
        | true ↦ elim (code d == 10) [ true ↦ none | false ↦ prepend c (prepend d escaped) ]
        | false ↦ prepend c plain
      ]
    ]

-- `_STRING_RE`: the content, the length of the match, and the rest
unfoldable pub match_string : String → Option (String × ℕ × String)
unfolding quoted
match_string String.[] = none
match_string (String.◌∷◌ c s) =
    if (code c == b'"') || (code c == 39)
    then elim (quoted (code c) s) [ some (v, rest) ↦ some (v, size v + 2, rest) | none ↦ none ]
    else none

unfoldable pub is_letter : ℕ → Bool
is_letter c = (leb b'a' c && leb c b'z') || ((leb b'A' c && leb c b'Z') || (c == b'_'))

unfoldable pub is_word : ℕ → Bool
unfolding is_letter
is_word c = is_letter c || (leb b'0' c && leb c b'9')

-- `_IDENT_RE`: the match and the rest
unfoldable pub match_ident : String → Option (String × String)
unfolding span is_letter is_word
match_ident String.[] = none
match_ident (String.◌∷◌ c s) =
    let (word, rest) = span is_word s in
    if is_letter (code c) then some (String.◌∷◌ c word, rest) else none

-- (?:\.[a-zA-Z_][a-zA-Z0-9_]*)*
unfoldable pub segments : ℕ → String → String × String
unfolding match_ident
segments zero s = (String.[], s)
segments (suc f) String.[] = (String.[], String.[])
segments (suc f) (String.◌∷◌ c s) = elim (code c == b'.') [
  | true ↦ elim (match_ident s) [
    | some (word, rest) ↦
        let (more, rest') = segments f rest in (String.◌∷◌ c (word ++ more), rest')
    | none ↦ (String.[], String.◌∷◌ c s)
  ]
  | false ↦ (String.[], String.◌∷◌ c s)
]

abbrev dotted : String → String × String → Option (String × String)
dotted word (String.[], rest) = none
dotted word (String.◌∷◌ c more, rest) = some (word ++ String.◌∷◌ c more, rest)

-- `_FIELD_RE`
unfoldable pub match_field : String → Option (String × String)
unfolding segments match_ident
match_field s = elim (match_ident s) [
  | some (word, rest) ↦ dotted word (segments (size rest) rest)
  | none ↦ none
]

abbrev pub has_dot : String → Bool
has_dot String.[] = false
has_dot (String.◌∷◌ c s) = (code c == b'.') || has_dot s

abbrev pub starts_minus : String → Bool
starts_minus String.[] = false
starts_minus (String.◌∷◌ c s) = code c == b'-'

-- behind `\d+`: an optional dot and more digits
abbrev fraction : (ℕ → Bool) → String → String → String × String
fraction digit ds String.[] = (ds, String.[])
fraction digit ds (String.◌∷◌ c s) =
    let (more, rest) = span digit s in
    if code c == b'.' then (ds ++ String.◌∷◌ c more, rest) else (ds, String.◌∷◌ c s)

abbrev fraction_only : Char → String × String → Option (String × String)
fraction_only c (String.[], rest) = none
fraction_only c (String.◌∷◌ d ds, rest) = some (String.◌∷◌ c (String.◌∷◌ d ds), rest)

-- `\.\d+`
abbrev bare_fraction : (ℕ → Bool) → String → Option (String × String)
bare_fraction digit String.[] = none
bare_fraction digit (String.◌∷◌ c s) =
    if code c == b'.' then fraction_only c (span digit s) else none

abbrev unsigned : (ℕ → Bool) → String → String × String → Option (String × String)
unsigned digit s (String.[], rest) = bare_fraction digit s
unsigned digit s (String.◌∷◌ d ds, rest) = some (fraction digit (String.◌∷◌ d ds) rest)

abbrev signed : Char → Option (String × String) → Option (String × String)
signed c none = none
signed c (some (n, rest)) = some (String.◌∷◌ c n, rest)

-- `_NUMBER_RE`
unfoldable pub match_number : Runtime → String → Option (String × String)
unfolding span
match_number rt String.[] = none
match_number rt (String.◌∷◌ c s) =
    if code c == b'-'
    then signed c (unsigned rt.is_digit s (span rt.is_digit s))
    else unsigned rt.is_digit (String.◌∷◌ c s) (span rt.is_digit (String.◌∷◌ c s))
