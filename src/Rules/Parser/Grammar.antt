-- ===== src/Rules/Parser/Grammar.antt =====
-- The grammar in the docstring of packages/rules/expression_parser.py, as a relation:
-- `OrExpr ts e rest` says that `ts` begins with an or_expr of tree `e`, and `rest` follows it.
use operational_intelligence.Prelude.{ℕ, [], ◌∷◌, String, Bool}
use operational_intelligence.Rules.Syntax.{
  Runtime, Value, CompOp, Tokens, token, TokenType, BinaryOp, AstNode, binary_op, not_op, literal,
}

mutual
  pub data OrExpr (rt : Runtime) : Tokens rt → AstNode rt → Tokens rt → Type 0 where
    or_of :
        {ts mid rest : Tokens rt} {l e : AstNode rt}
        → AndExpr rt ts l mid
        → OrTail rt l mid e rest
        → OrExpr rt ts e rest

  -- ( OR and_expr )*, to the right of `l`
  pub data OrTail (rt : Runtime) : AstNode rt → Tokens rt → AstNode rt → Tokens rt → Type 0 where
    or_end : {l : AstNode rt} {ts : Tokens rt} → OrTail rt l ts l ts
    or_more :
        {l r e : AstNode rt} {ts mid rest : Tokens rt} {p : ℕ}
        → AndExpr rt ts r mid
        → OrTail rt (binary_op BinaryOp.or l r) mid e rest
        → OrTail rt l (token TokenType.or p ∷ ts) e rest

  pub data AndExpr (rt : Runtime) : Tokens rt → AstNode rt → Tokens rt → Type 0 where
    and_of :
        {ts mid rest : Tokens rt} {l e : AstNode rt}
        → NotExpr rt ts l mid
        → AndTail rt l mid e rest
        → AndExpr rt ts e rest

  -- ( AND not_expr )*, to the right of `l`
  pub data AndTail (rt : Runtime) : AstNode rt → Tokens rt → AstNode rt → Tokens rt → Type 0 where
    and_end : {l : AstNode rt} {ts : Tokens rt} → AndTail rt l ts l ts
    and_more :
        {l r e : AstNode rt} {ts mid rest : Tokens rt} {p : ℕ}
        → NotExpr rt ts r mid
        → AndTail rt (binary_op BinaryOp.and l r) mid e rest
        → AndTail rt l (token TokenType.and p ∷ ts) e rest

  pub data NotExpr (rt : Runtime) : Tokens rt → AstNode rt → Tokens rt → Type 0 where
    not_of :
        {ts rest : Tokens rt} {e : AstNode rt} {p : ℕ}
        → NotExpr rt ts e rest
        → NotExpr rt (token TokenType.not p ∷ ts) (not_op e) rest
    not_none :
        {ts rest : Tokens rt} {e : AstNode rt} → Comparison rt ts e rest → NotExpr rt ts e rest

  pub data Comparison (rt : Runtime) : Tokens rt → AstNode rt → Tokens rt → Type 0 where
    compared :
        {ts mid rest : Tokens rt} {l r : AstNode rt} {op : CompOp} {p : ℕ}
        → Primary rt ts l (token (TokenType.comp op) p ∷ mid)
        → Primary rt mid r rest
        → Comparison rt ts (binary_op (BinaryOp.comp op) l r) rest
    single : {ts rest : Tokens rt} {e : AstNode rt} → Primary rt ts e rest → Comparison rt ts e rest

  pub data Primary (rt : Runtime) : Tokens rt → AstNode rt → Tokens rt → Type 0 where
    paren :
        {ts rest : Tokens rt} {e : AstNode rt} {p q : ℕ}
        → OrExpr rt ts e (token TokenType.rparen q ∷ rest)
        → Primary rt (token TokenType.lparen p ∷ ts) e rest
    string :
        {s : String} {p : ℕ} {ts : Tokens rt}
        → Primary rt (token (TokenType.string s) p ∷ ts) (literal (Value.str s)) ts
    number :
        {v : Value rt} {p : ℕ} {ts : Tokens rt}
        → Primary rt (token (TokenType.number v) p ∷ ts) (literal v) ts
    boolean :
        {b : Bool} {p : ℕ} {ts : Tokens rt}
        → Primary rt (token (TokenType.boolean b) p ∷ ts) (literal (Value.bool b)) ts
    field :
        {name : String} {p : ℕ} {ts : Tokens rt}
        → Primary rt (token (TokenType.field name) p ∷ ts) (AstNode.field name) ts

-- What `tokenize` returns: one EOF, at the end.
abbrev pub EndsInEof : {rt : Runtime} → Tokens rt → Type 0
EndsInEof [] = ⊥
EndsInEof (token TokenType.eof p ∷ []) = Unit
EndsInEof (token TokenType.eof p ∷ t ∷ ts) = ⊥
EndsInEof (t ∷ ts) = EndsInEof ts

-- The tokens of a whole expression.
abbrev pub Expression : (rt : Runtime) → Tokens rt → AstNode rt → Type 0
Expression rt ts e = (p : ℕ) × OrExpr rt ts e (token TokenType.eof p ∷ [])
