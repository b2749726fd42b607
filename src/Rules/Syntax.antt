-- ===== src/Rules/Syntax.antt =====
-- packages/rules/expression_parser.py: values, tokens and AST nodes, and the errors.
-- Python's floats, and the values that are no None, bool, int, float or str (lists and dicts of a
-- JSON payload), are the interpreter's: `Runtime` is what the evaluator uses of them.
use operational_intelligence.Prelude.{ℕ, String, Bool, Option, List}
use operational_intelligence.Prelude.Int.{ℤ}

pub record Runtime : Type 1 where
  pub Float : Type 0
  pub Obj : Type 0
  -- str.isspace() of one character, and the class \d of `re`, by code point
  pub is_space : ℕ → Bool
  pub is_digit : ℕ → Bool
  -- int(s) of a str; `none` is ValueError
  pub int_of_text : String → Option ℤ
  -- float(n) of an int; `none` is OverflowError
  pub float_of_int : ℤ → Option Float
  -- float(s) of a str; `none` is ValueError
  pub float_of_text : String → Option Float
  pub float_truthy : Float → Bool
  pub float_eq : Float → Float → Bool
  pub float_lt : Float → Float → Bool
  pub float_le : Float → Float → Bool
  pub obj_truthy : Obj → Bool
  pub obj_eq : Obj → Obj → Bool
  -- `none` is TypeError
  pub obj_lt : Obj → Obj → Option Bool
  pub obj_le : Obj → Obj → Option Bool

-- A value of a literal, of a context, or of an evaluation.
pub data Value (rt : Runtime) : Type 0 where
  null : Value rt
  bool : Bool → Value rt
  int : ℤ → Value rt
  float : rt.Float → Value rt
  str : String → Value rt
  obj : rt.Obj → Value rt

pub data CompOp : Type 0 where
  eq neq lt gt lte gte : CompOp

-- `TokenType`, with the value that a token of that type carries.
pub data TokenType (rt : Runtime) : Type 0 where
  field : String → TokenType rt
  string : String → TokenType rt
  number : Value rt → TokenType rt
  boolean : Bool → TokenType rt
  and or not : TokenType rt
  lparen rparen : TokenType rt
  comp : CompOp → TokenType rt
  eof : TokenType rt

pub data Token (rt : Runtime) : Type 0 where
  token : TokenType rt → (position : ℕ) → Token rt

abbrev pub Tokens : Runtime → Type 0
Tokens rt = List (Token rt)

pub data BinaryOp : Type 0 where
  and or : BinaryOp
  comp : CompOp → BinaryOp

pub data AstNode (rt : Runtime) : Type 0 where
  binary_op : BinaryOp → AstNode rt → AstNode rt → AstNode rt
  not_op : AstNode rt → AstNode rt
  literal : Value rt → AstNode rt
  field : String → AstNode rt

-- `invalid` is ExpressionValidationError with its position. `index_error`, `value_error` and
-- `overflow` are the interpreter's IndexError, ValueError and OverflowError. `out_of_fuel` has no
-- counterpart in the program.
pub data Error : Type 0 where
  invalid : Option ℕ → Error
  index_error value_error overflow out_of_fuel : Error

pub data Result {ℓ} (A : Type ℓ) : Type ℓ where
  ok : A → Result A
  err : Error → Result A

infixl 5 ◌>>=◌
abbrev pub ◌>>=◌ {ℓ κ} : {A : Type ℓ} {B : Type κ} → Result A → (A → Result B) → Result B
ok a >>= f = f a
err e >>= f = err e
