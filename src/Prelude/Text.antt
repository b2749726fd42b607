-- ===== src/Prelude/Text.antt =====
-- Texts: equality tests and concatenation of native strings, and their code points.
use operational_intelligence.Prelude.Tests.{leb, ◌==◌ as nat_eq, if◌then◌else◌}
use Prim.Native.Nat.{ℕ, ◌+◌, compare, Ordering}
use Prim.Native.Char.{code}
use Prim.Native.String.{String}
use mathlib.Core.Bool.{Bool, true, false, ◌&&◌}
use mathlib.Core.List.{List, [], ◌∷◌}
use text.Mathlib.Text.{◌==◌}
pub use text.Mathlib.TextEquality.{eq_iff}
pub use text.Mathlib.TextPositions.{eq_refl}

-- `s == t` on texts
abbrev pub str_eq : String → String → Bool
str_eq s t = s == t

abbrev pub str_in : String → List String → Bool
str_in s [] = false
str_in s (t ∷ ts) = elim (str_eq t s) [ true ↦ true | false ↦ str_in s ts ]

abbrev pub codes : String → List ℕ
codes String.[] = []
codes (String.◌∷◌ c s) = code c ∷ codes s

-- The order of texts: by code points, a proper prefix first.
abbrev pub codes_lt : List ℕ → List ℕ → Bool
codes_lt xs [] = false
codes_lt [] (y ∷ ys) = true
codes_lt (x ∷ xs) (y ∷ ys) =
    let rest = codes_lt xs ys in
    elim (compare x y) [ Ordering.lt ↦ true | Ordering.gt ↦ false | Ordering.eq ↦ rest ]

abbrev pub str_lt : String → String → Bool
str_lt s t = codes_lt (codes s) (codes t)

-- str.lower() of one ASCII character
abbrev pub lower : ℕ → ℕ
lower c = if leb b'A' c && leb c b'Z' then c + 32 else c

abbrev pub codes_eq : List ℕ → List ℕ → Bool
codes_eq [] [] = true
codes_eq (x ∷ xs) (y ∷ ys) = nat_eq x y && codes_eq xs ys
codes_eq xs ys = false
