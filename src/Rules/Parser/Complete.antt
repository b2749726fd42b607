-- ===== src/Rules/Parser/Complete.antt =====
-- packages/rules/expression_parser.py: from the derivations of the grammar to runs of the parser.
use operational_intelligence.Prelude.{
  ℕ, zero, suc, ◌+◌, ◌*◌, ◌<◌, ◌≤◌, ◌≡◌, refl, subst, ◌∙◌, [], ◌∷◌, arith, length, ◌↔◌,
}
use operational_intelligence.Rules.Syntax.{Runtime, Tokens, token, TokenType, AstNode, Result, ok}
use operational_intelligence.Rules.Parser.Grammar.{
  OrExpr, OrTail, AndExpr, AndTail, NotExpr, Comparison, Primary, or_of, or_end, or_more, and_of,
  and_end, and_more, not_of, not_none, compared, single, paren, EndsInEof, Expression,
}
use operational_intelligence.Rules.Parser.Grammar
use operational_intelligence.Rules.Parser.Sound.{Ensures, holds, rejected, parse-Ensures}
use operational_intelligence.Rules.Parser.{
  expect_rparen, or_expr, or_loop, and_expr, and_loop, not_expr, comparison, comparison_tail,
  primary, parse,
}

module _ {rt : Runtime} where
  -- the next token is no operator of the comparison's, conjunction's or disjunction's own loop
  abbrev NoComp : Tokens rt → Type 0
  NoComp [] = ⊥
  NoComp (token (TokenType.comp op) p ∷ ts) = ⊥
  NoComp (t ∷ ts) = Unit

  abbrev NoAnd : Tokens rt → Type 0
  NoAnd [] = ⊥
  NoAnd (token (TokenType.comp op) p ∷ ts) = ⊥
  NoAnd (token TokenType.and p ∷ ts) = ⊥
  NoAnd (t ∷ ts) = Unit

  abbrev NoOr : Tokens rt → Type 0
  NoOr [] = ⊥
  NoOr (token (TokenType.comp op) p ∷ ts) = ⊥
  NoOr (token TokenType.and p ∷ ts) = ⊥
  NoOr (token TokenType.or p ∷ ts) = ⊥
  NoOr (t ∷ ts) = Unit

  NoAnd-NoComp : (ts : Tokens rt) → NoAnd ts → NoComp ts
  NoAnd-NoComp [] h = h
  NoAnd-NoComp (token (TokenType.comp op) p ∷ ts) h = h
  NoAnd-NoComp (token TokenType.and p ∷ ts) h = tt
  NoAnd-NoComp (token _ p ∷ ts) h = tt

  NoOr-NoAnd : (ts : Tokens rt) → NoOr ts → NoAnd ts
  NoOr-NoAnd [] h = h
  NoOr-NoAnd (token (TokenType.comp op) p ∷ ts) h = h
  NoOr-NoAnd (token TokenType.and p ∷ ts) h = h
  NoOr-NoAnd (token TokenType.or p ∷ ts) h = tt
  NoOr-NoAnd (token _ p ∷ ts) h = tt

  -- before a tail stands what the tail begins with
  AndTail-NoComp :
      {l e : AstNode rt} {ts rest : Tokens rt} → AndTail rt l ts e rest → NoAnd rest → NoComp ts
  AndTail-NoComp (and_end {ts}) h = NoAnd-NoComp ts h
  AndTail-NoComp (and_more a b) h = tt

  OrTail-NoAnd :
      {l e : AstNode rt} {ts rest : Tokens rt} → OrTail rt l ts e rest → NoOr rest → NoAnd ts
  OrTail-NoAnd (or_end {ts}) h = NoOr-NoAnd ts h
  OrTail-NoAnd (or_more a b) h = tt

  mutual
    or_shrinks :
        {ts rest : Tokens rt} {e : AstNode rt} → OrExpr rt ts e rest → length rest < length ts
    or_shrinks (or_of a b) = omega (arith, and_shrinks a, OrTail-shrinks b)

    OrTail-shrinks :
        {l e : AstNode rt} {ts rest : Tokens rt} → OrTail rt l ts e rest → length rest ≤ length ts
    OrTail-shrinks or_end = omega arith
    OrTail-shrinks (or_more a b) = omega (arith, and_shrinks a, OrTail-shrinks b)

    and_shrinks :
        {ts rest : Tokens rt} {e : AstNode rt} → AndExpr rt ts e rest → length rest < length ts
    and_shrinks (and_of a b) = omega (arith, not_shrinks a, AndTail-shrinks b)

    AndTail-shrinks :
        {l e : AstNode rt} {ts rest : Tokens rt} → AndTail rt l ts e rest → length rest ≤ length ts
    AndTail-shrinks and_end = omega arith
    AndTail-shrinks (and_more a b) = omega (arith, not_shrinks a, AndTail-shrinks b)

    not_shrinks :
        {ts rest : Tokens rt} {e : AstNode rt} → NotExpr rt ts e rest → length rest < length ts
    not_shrinks (not_of a) = omega (arith, not_shrinks a)
    not_shrinks (not_none a) = Comparison-shrinks a

    Comparison-shrinks :
        {ts rest : Tokens rt} {e : AstNode rt} → Comparison rt ts e rest → length rest < length ts
    Comparison-shrinks (compared a b) = omega (arith, Primary-shrinks a, Primary-shrinks b)
    Comparison-shrinks (single a) = Primary-shrinks a

    Primary-shrinks :
        {ts rest : Tokens rt} {e : AstNode rt} → Primary rt ts e rest → length rest < length ts
    Primary-shrinks (paren a) = omega (arith, or_shrinks a)
    Primary-shrinks Grammar.string = omega arith
    Primary-shrinks Grammar.number = omega arith
    Primary-shrinks Grammar.boolean = omega arith
    Primary-shrinks Grammar.field = omega arith

  or_loop_end :
      (f : ℕ) (l : AstNode rt) (ts : Tokens rt) → NoOr ts → or_loop (suc f) l ts ≡ ok (l, ts)
  unfolding or_expr
  or_loop_end f l [] h = absurd h
  or_loop_end f l (token (TokenType.comp op) p ∷ ts) h = absurd h
  or_loop_end f l (token TokenType.and p ∷ ts) h = absurd h
  or_loop_end f l (token TokenType.or p ∷ ts) h = absurd h
  or_loop_end f l (token _ p ∷ ts) h = refl

  and_loop_end :
      (f : ℕ) (l : AstNode rt) (ts : Tokens rt) → NoAnd ts → and_loop (suc f) l ts ≡ ok (l, ts)
  unfolding or_expr
  and_loop_end f l [] h = absurd h
  and_loop_end f l (token (TokenType.comp op) p ∷ ts) h = absurd h
  and_loop_end f l (token TokenType.and p ∷ ts) h = absurd h
  and_loop_end f l (token _ p ∷ ts) h = refl

  comparison_tail_end :
      (f : ℕ) (l : AstNode rt) (ts : Tokens rt)
      → NoComp ts
      → comparison_tail (suc f) l ts ≡ ok (l, ts)
  unfolding or_expr
  comparison_tail_end f l [] h = absurd h
  comparison_tail_end f l (token (TokenType.comp op) p ∷ ts) h = absurd h
  comparison_tail_end f l (token _ p ∷ ts) h = refl

  -- a comparison begins with no NOT
  Primary-not_expr :
      (f : ℕ) {ts rest : Tokens rt} {e : AstNode rt}
      → Primary rt ts e rest
      → not_expr (suc f) ts ≡ comparison f ts
  unfolding or_expr
  Primary-not_expr f (paren a) = refl
  Primary-not_expr f Grammar.string = refl
  Primary-not_expr f Grammar.number = refl
  Primary-not_expr f Grammar.boolean = refl
  Primary-not_expr f Grammar.field = refl

  comparison-not_expr :
      (f : ℕ) {ts rest : Tokens rt} {e : AstNode rt}
      → Comparison rt ts e rest
      → not_expr (suc f) ts ≡ comparison f ts
  comparison-not_expr f (compared a b) = Primary-not_expr f a
  comparison-not_expr f (single a) = Primary-not_expr f a

  mutual
    unfolding or_expr expect_rparen

    or_expr_reads :
        {ts rest : Tokens rt} {e : AstNode rt} (f : ℕ)
        → OrExpr rt ts e rest
        → NoOr rest
        → 7 * length ts + 4 < f
        → or_expr f ts ≡ ok (e, rest)
    or_expr_reads zero d n h = absurd (omega arith)
    or_expr_reads (suc f) (or_of a b) n h =
        rw (and_expr_reads f a (OrTail-NoAnd b n) (omega arith))
          (or_loop_reads f b n (omega (arith, and_shrinks a)))

    or_loop_reads :
        {l e : AstNode rt} {ts rest : Tokens rt} (f : ℕ)
        → OrTail rt l ts e rest
        → NoOr rest
        → 7 * length ts < f
        → or_loop f l ts ≡ ok (e, rest)
    or_loop_reads zero d n h = absurd (omega arith)
    or_loop_reads (suc f) (or_end {l} {ts}) n h = or_loop_end f l ts n
    or_loop_reads (suc f) (or_more a b) n h =
        rw (and_expr_reads f a (OrTail-NoAnd b n) (omega arith))
          (or_loop_reads f b n (omega (arith, and_shrinks a)))

    and_expr_reads :
        {ts rest : Tokens rt} {e : AstNode rt} (f : ℕ)
        → AndExpr rt ts e rest
        → NoAnd rest
        → 7 * length ts + 3 < f
        → and_expr f ts ≡ ok (e, rest)
    and_expr_reads zero d n h = absurd (omega arith)
    and_expr_reads (suc f) (and_of a b) n h =
        rw (not_expr_reads f a (AndTail-NoComp b n) (omega arith))
          (and_loop_reads f b n (omega (arith, not_shrinks a)))

    and_loop_reads :
        {l e : AstNode rt} {ts rest : Tokens rt} (f : ℕ)
        → AndTail rt l ts e rest
        → NoAnd rest
        → 7 * length ts < f
        → and_loop f l ts ≡ ok (e, rest)
    and_loop_reads zero d n h = absurd (omega arith)
    and_loop_reads (suc f) (and_end {l} {ts}) n h = and_loop_end f l ts n
    and_loop_reads (suc f) (and_more a b) n h =
        rw (not_expr_reads f a (AndTail-NoComp b n) (omega arith))
          (and_loop_reads f b n (omega (arith, not_shrinks a)))

    not_expr_reads :
        {ts rest : Tokens rt} {e : AstNode rt} (f : ℕ)
        → NotExpr rt ts e rest
        → NoComp rest
        → 7 * length ts + 2 < f
        → not_expr f ts ≡ ok (e, rest)
    not_expr_reads zero d n h = absurd (omega arith)
    not_expr_reads (suc f) (not_of a) n h = rw (not_expr_reads f a n (omega arith))
    not_expr_reads (suc f) (not_none a) n h =
        comparison-not_expr f a ∙ comparison_reads f a n (omega arith)

    comparison_reads :
        {ts rest : Tokens rt} {e : AstNode rt} (f : ℕ)
        → Comparison rt ts e rest
        → NoComp rest
        → 7 * length ts + 1 < f
        → comparison f ts ≡ ok (e, rest)
    comparison_reads zero d n h = absurd (omega arith)
    comparison_reads (suc zero) (compared a b) n h = absurd (omega arith)
    comparison_reads (suc (suc f)) (compared a b) n h =
        rw (primary_reads (suc f) a (omega arith))
          (rw (primary_reads f b (omega (arith, Primary-shrinks a))) refl)
    comparison_reads (suc zero) (single a) n h = absurd (omega arith)
    comparison_reads (suc (suc f)) (single {ts} {rest} {e} a) n h =
        rw (primary_reads (suc f) a (omega arith)) (comparison_tail_end f e rest n)

    primary_reads :
        {ts rest : Tokens rt} {e : AstNode rt} (f : ℕ)
        → Primary rt ts e rest
        → 7 * length ts < f
        → primary f ts ≡ ok (e, rest)
    primary_reads zero d h = absurd (omega arith)
    primary_reads (suc f) (paren a) h = rw (or_expr_reads f a tt (omega arith))
    primary_reads (suc f) Grammar.string h = refl
    primary_reads (suc f) Grammar.number h = refl
    primary_reads (suc f) Grammar.boolean h = refl
    primary_reads (suc f) Grammar.field h = refl

  -- A tree that the grammar gives to the whole input is the one that `parse` returns.
  pub parse_reads : (ts : Tokens rt) (e : AstNode rt) → Expression rt ts e → parse ts ≡ ok e
  unfolding parse
  parse_reads ts e (p, d) = rw (or_expr_reads (7 * length ts + 5) d tt (omega arith))

  Ensures-ok :
      {P : AstNode rt → Type 0} {r : Result (AstNode rt)} {e : AstNode rt}
      → Ensures P r
      → r ≡ ok e
      → P e
  Ensures-ok {P} (holds {a} h) same = subst P (cc) h
  Ensures-ok rejected same = cc

  -- For tokens with one EOF, at their end, `parse` returns a tree exactly when it is the tree that
  -- the grammar of the module's docstring gives to the whole input.
  pub parse-eq-ok_iff :
      (ts : Tokens rt) (e : AstNode rt) → EndsInEof ts → (parse ts ≡ ok e) ↔ Expression rt ts e
  parse-eq-ok_iff ts e ends = (Ensures-ok (parse-Ensures ts ends), parse_reads ts e)
