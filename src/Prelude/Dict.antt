-- ===== src/Prelude/Dict.antt =====
-- Python's `dict` with text keys, as an association list in insertion order: a new key goes to the
-- end, an old key keeps its place.
use operational_intelligence.Prelude.Tests.{if◌then◌else◌}
use operational_intelligence.Prelude.Text.{str_eq, eq_iff}
use Prim.Native.String.{String}
use mathlib.Core.Path.{◌≡◌, ◌∙◌, refl}
use mathlib.Core.Bool.{false}
use mathlib.Core.Option.{Option, none, some}
use mathlib.Core.List.{List, [], ◌∷◌}
use native.Mathlib.Omega.{arith}

abbrev pub Dict {ℓ} : Type ℓ → Type ℓ
Dict V = List (String × V)

module _ {ℓ} {V : Type ℓ} where
  -- d.get(k)
  unfoldable pub lookup : String → Dict V → Option V
  lookup k [] = none
  lookup k ((j, v) ∷ m) = if str_eq j k then some v else lookup k m

  -- d[k] = v
  unfoldable pub insert : String → V → Dict V → Dict V
  insert k v [] = (k, v) ∷ []
  insert k v ((j, w) ∷ m) = if str_eq j k then (j, v) ∷ m else (j, w) ∷ insert k v m

  pub lookup-insert :
      (key other : String) (new : V) (dict : Dict V)
      → lookup other (insert key new dict)
        ≡ (if str_eq key other then some new else lookup other dict)
  unfolding lookup insert
  lookup-insert key other new [] = refl
  lookup-insert key other new ((head, old) ∷ tail) =
      let rest = lookup-insert key other new tail in
      ground (arith, rest, eq_iff key other, eq_iff head key, eq_iff head other)

  pub lookup-insert_ne :
      (key other : String) (new : V) (dict : Dict V)
      → str_eq key other ≡ false
      → lookup other (insert key new dict) ≡ lookup other dict
  lookup-insert_ne key other new dict e = lookup-insert key other new dict ∙ rw (e) refl

  pub lookup-nil : (k : String) → lookup k [] ≡ none
  unfolding lookup
  lookup-nil k = refl
