-- ===== src/Rules/Lexer/Scan/Sizes.antt =====
-- packages/rules/expression_parser.py: how much of the text the scans of `tokenize` take.
use operational_intelligence.Prelude.{
  ℕ, zero, suc, ◌+◌, ◌<◌, ◌≡◌, refl, ap, String, Bool, ◌||◌, All, subst, Option, some, none, List,
  [], ◌∷◌, ◌==◌, arith, Bool-cases, Option-cases, inl, inr,
}
use Prim.Native.Char.{Char, code}
use Prim.Native.String.{◌++◌}
use text.Mathlib.TextLemmas.{cons-append, nil-append}
use operational_intelligence.Rules.Syntax.{Runtime, TokenType}
use operational_intelligence.Rules.Lexer.Scan.{
  size, span, strip_prefix, operators, first_operator, match_operator, prepend, quoted,
  match_string, is_word, match_ident, segments, dotted, match_field, fraction, fraction_only,
  bare_fraction, unsigned, signed, match_number,
}

pub size-append : (s t : String) → size (s ++ t) ≡ size s + size t
size-append String.[] t = rw nil-append (omega arith)
size-append (String.◌∷◌ c s) t = rw cons-append (omega (arith, size-append s t))

pub size-span : (p : ℕ → Bool) (s : String) → size (span p s).0 + size (span p s).1 ≡ size s
unfolding span
size-span p String.[] = omega arith
size-span p (String.◌∷◌ c s) = elim (Bool-cases (p (code c))) [
  | inl e ↦ rw e (omega (arith, size-span p s))
  | inr e ↦ rw e (omega arith)
]

-- a scan that takes at least one character, and returns what follows
abbrev pub Takes : String → String → String → Type 0
Takes s word rest = (size word + size rest ≡ size s) × (0 < size word)

pub match_ident-Takes :
    (s : String) {word rest : String} → match_ident s ≡ some (word, rest) → Takes s word rest
unfolding match_ident
match_ident-Takes String.[] h = cc
match_ident-Takes (String.◌∷◌ c s) h = ground (arith, size-span is_word s)

segments-size : (f : ℕ) (s : String) → size (segments f s).0 + size (segments f s).1 ≡ size s
unfolding segments
segments-size zero s = omega arith
segments-size (suc f) String.[] = omega arith
segments-size (suc f) (String.◌∷◌ c s) = elim (Bool-cases (code c == b'.')) [
  | inr e ↦ rw (e, segments) (omega arith)
  | inl e ↦
      rw (e, segments)
        (elim (Option-cases (match_ident s)) [
          | inl none_there ↦ rw (none_there, segments) (omega arith)
          | inr ((word, rest), found) ↦
              rw (found, segments)
                (omega (
                  arith,
                  match_ident-Takes s found,
                  segments-size f rest,
                  size-append word (segments f rest).0,
                ))
        ])
]

dotted-Takes :
    (s word : String) (x : String × String) {w r : String}
    → size word + (size x.0 + size x.1) ≡ size s
    → 0 < size word
    → dotted word x ≡ some (w, r)
    → Takes s w r
dotted-Takes s word (String.[], rest) e pos h = cc
dotted-Takes s word (String.◌∷◌ c more, rest) e pos h =
    ground (arith, size-append word (String.◌∷◌ c more))

pub match_field-Takes :
    (s : String) {word rest : String} → match_field s ≡ some (word, rest) → Takes s word rest
unfolding match_field
match_field-Takes s h = elim (Option-cases (match_ident s)) [
  | inl e ↦ cc (rw (e, match_field) at h)
  | inr ((w, r), e) ↦
      let taken : Takes s w r = match_ident-Takes s e in
      dotted-Takes s w (segments (size r) r) (omega (arith, segments-size (size r) r)) (omega arith)
        (rw (e, match_field) at h)
]

module _ (digit : ℕ → Bool) where
  fraction-Takes :
      (s ds rest : String)
      → size ds + size rest ≡ size s
      → 0 < size ds
      → Takes s (fraction digit ds rest).0 (fraction digit ds rest).1
  fraction-Takes s ds String.[] e pos = (e, pos)
  fraction-Takes s ds (String.◌∷◌ c rest) e pos = elim (Bool-cases (code c == b'.')) [
    | inl dot ↦ rw dot (
      omega (arith, size-span digit rest, size-append ds (String.◌∷◌ c (span digit rest).0)),
      omega (arith, size-append ds (String.◌∷◌ c (span digit rest).0)),
    )
    | inr other ↦ rw other (e, pos)
  ]

  fraction_only-Takes :
      (c : Char) (s : String) (x : String × String) {w r : String}
      → size x.0 + size x.1 ≡ size s
      → fraction_only c x ≡ some (w, r)
      → Takes (String.◌∷◌ c s) w r
  fraction_only-Takes c s (String.[], rest) e h = cc
  fraction_only-Takes c s (String.◌∷◌ d ds, rest) e h = ground arith

  bare_fraction-Takes :
      (s : String) {w r : String} → bare_fraction digit s ≡ some (w, r) → Takes s w r
  bare_fraction-Takes String.[] h = cc
  bare_fraction-Takes (String.◌∷◌ c s) h = elim (Bool-cases (code c == b'.')) [
    | inl e ↦ fraction_only-Takes c s (span digit s) (size-span digit s) (rw e at h)
    | inr e ↦ cc (rw e at h)
  ]

  unsigned-Takes :
      (s : String) (x : String × String) {w r : String}
      → size x.0 + size x.1 ≡ size s
      → unsigned digit s x ≡ some (w, r)
      → Takes s w r
  unsigned-Takes s (String.[], rest) e h = bare_fraction-Takes s h
  unsigned-Takes s (String.◌∷◌ d ds, rest) e h =
      ground (arith, fraction-Takes s (String.◌∷◌ d ds) rest e (omega arith))

signed-Takes :
    (c : Char) (s : String) (o : Option (String × String)) {w r : String}
    → ((w' r' : String) → o ≡ some (w', r') → Takes s w' r')
    → signed c o ≡ some (w, r)
    → Takes (String.◌∷◌ c s) w r
signed-Takes c s none k h = cc
signed-Takes c s (some (w', r')) k h = ground (arith, k w' r' refl)

pub match_number-Takes :
    (rt : Runtime) (s : String) {word rest : String}
    → match_number rt s ≡ some (word, rest)
    → Takes s word rest
unfolding match_number
match_number-Takes rt String.[] h = cc
match_number-Takes rt (String.◌∷◌ c s) h = elim (Bool-cases (code c == b'-')) [
  | inl e ↦
      signed-Takes c s _ (λ w r. unsigned-Takes rt.is_digit s _ (size-span rt.is_digit s))
        (rw e at h)
  | inr e ↦
      unsigned-Takes rt.is_digit (String.◌∷◌ c s) _ (size-span rt.is_digit (String.◌∷◌ c s))
        (rw e at h)
]

abbrev taken_size : Option (String × String) → ℕ
taken_size none = 0
taken_size (some (v, rest)) = size v + size rest

prepend-some :
    (c : Char) (o : Option (String × String)) {v rest : String}
    → prepend c o ≡ some (v, rest)
    → (v' rest' : String) × (o ≡ some (v', rest'))
      × (size v + size rest ≡ suc (size v' + size rest'))
prepend-some c none h = cc
prepend-some c (some (v', rest')) h = (v', rest', refl, omega (arith, ap taken_size h))

pub quoted-size :
    (q : ℕ) (s : String) {v rest : String}
    → quoted q s ≡ some (v, rest)
    → size v + size rest < size s
unfolding quoted
quoted-size q String.[] h = cc
quoted-size q (String.◌∷◌ c String.[]) h = elim (Bool-cases (code c == q)) [
  | inl e ↦ omega (arith, ap taken_size (rw (e, quoted) at h))
  | inr e ↦ cc (rw (e, quoted) at h)
]
quoted-size q (String.◌∷◌ c (String.◌∷◌ d s)) h = elim (Bool-cases (code c == q)) [
  | inl e ↦ omega (arith, ap taken_size (rw (e, quoted) at h))
  | inr e ↦ elim (Bool-cases (code c == b'\\')) [
    | inl slash ↦ elim (Bool-cases (code d == 10)) [
      | inl nl ↦ cc (rw (e, slash, nl, quoted) at h)
      | inr no_nl ↦
          let (v', r', e', n) =
            prepend-some c (prepend d (quoted q s)) (rw (e, slash, no_nl, quoted) at h) in
          let (v2, r2, e2, n2) = prepend-some d (quoted q s) e' in omega (arith, quoted-size q s e2)
    ]
    | inr other ↦
        let (v', r', e', n) =
          prepend-some c (quoted q (String.◌∷◌ d s)) (rw (e, other, quoted) at h) in
        omega (arith, quoted-size q (String.◌∷◌ d s) e')
  ]
]

pub strip_prefix-size :
    (p s : String) {rest : String} → strip_prefix p s ≡ some rest → size p + size rest ≡ size s
unfolding strip_prefix
strip_prefix-size String.[] s h = ground arith
strip_prefix-size (String.◌∷◌ c p) String.[] h = cc
strip_prefix-size (String.◌∷◌ c p) (String.◌∷◌ d s) h = elim (Bool-cases (code c == code d)) [
  | inl e ↦ omega (arith, strip_prefix-size p s (rw e at h))
  | inr e ↦ cc (rw e at h)
]

pub match_string-size :
    (s : String) {v rest : String} {n : ℕ} → match_string s ≡ some (v, n, rest) → size rest < size s
unfolding match_string
match_string-size String.[] h = cc
match_string-size (String.◌∷◌ c s) h = elim (Bool-cases ((code c == b'"') || (code c == 39))) [
  | inr e ↦ cc (rw (e, match_string) at h)
  | inl e ↦ elim (Option-cases (quoted (code c) s)) [
    | inl e' ↦ cc (rw (e, e', match_string) at h)
    | inr ((v', rest'), e') ↦
        let same = ap third (rw (e, e', match_string) at h) in
        omega (arith, quoted-size (code c) s e', same)
  ]
]
  where
    third : Option (String × ℕ × String) → ℕ
    third none = 0
    third (some (v, n, rest)) = size rest

-- `P` holds of the type of each operator, and no operator is empty.
abbrev pub IsOperator : {rt : Runtime} → (TokenType rt → Type 0) → String × TokenType rt → Type 0
IsOperator P (op, type) = P type × (0 < size op)

abbrev Shortens :
    {rt : Runtime} → (TokenType rt → Type 0) → String → Option (TokenType rt × ℕ × String) → Type 0
Shortens P s none = Unit
Shortens P s (some (type, n, rest)) = P type × (size rest < size s)

first_operator-size :
    {rt : Runtime} (P : TokenType rt → Type 0) (ops : List (String × TokenType rt)) (s : String)
    {type : TokenType rt} {n : ℕ} {rest : String}
    → All (IsOperator P) ops
    → first_operator ops s ≡ some (type, n, rest)
    → P type × (size rest < size s)
unfolding first_operator
first_operator-size P [] s ps h = cc
first_operator-size P ((op, t) ∷ ops) s ps h = elim (Option-cases (strip_prefix op s)) [
  | inl e ↦ first_operator-size P ops s ps.1 (rw (e, first_operator) at h)
  | inr (r, e) ↦
      subst (Shortens P s) (rw (e, first_operator) at h)
        (ps.0.0, omega (arith, strip_prefix-size op s e))
]

pub match_operator-size :
    {rt : Runtime} (P : TokenType rt → Type 0) (s : String) {type : TokenType rt} {n : ℕ}
    {rest : String}
    → All (IsOperator P) (operators rt)
    → match_operator rt s ≡ some (type, n, rest)
    → P type × (size rest < size s)
unfolding match_operator
match_operator-size {rt} P s ps h = first_operator-size P (operators rt) s ps h
