-- ===== src/Prelude/Dicts.antt =====
-- A dictionary with text keys as an association list: directories by name, files by name.
use Prim.Native.String.{String}
use mathlib.Core.Path.{◌≡◌, refl}
use mathlib.Core.Bool.{Bool, false}
use mathlib.Core.Option.{Option, none, some}
use mathlib.Core.List.{List, [], ◌∷◌}
use native.Mathlib.Omega.{arith}
use text.Mathlib.Text.{◌==◌ as str_eq}
use text.Mathlib.TextEquality.{eq_iff}
use text.Mathlib.TextPositions.{eq_refl}
use guard_proxy.Prelude.Tests.{if◌then◌else◌, is_some}

abbrev pub Dict {ℓ} : Type ℓ → Type ℓ
Dict V = List (String × V)

module _ {ℓ} {V : Type ℓ} where
  unfoldable pub lookup : String → Dict V → Option V
  lookup k [] = none
  lookup k ((j, v) ∷ d) = if str_eq j k then some v else lookup k d

  unfoldable pub put : String → V → Dict V → Dict V
  put k v [] = (k, v) ∷ []
  put k v ((j, w) ∷ d) = if str_eq j k then (k, v) ∷ d else (j, w) ∷ put k v d

  unfoldable pub without : String → Dict V → Dict V
  without k [] = []
  without k ((j, v) ∷ d) = let rest = without k d in if str_eq j k then rest else (j, v) ∷ rest

  unfoldable pub exists : String → Dict V → Bool
  exists k d = is_some (lookup k d)

  pub lookup-put :
      (k j : String) (v : V) (d : Dict V)
      → lookup j (put k v d) ≡ (if str_eq k j then some v else lookup j d)
  unfolding lookup put
  lookup-put k j v [] = refl
  lookup-put k j v ((i, w) ∷ d) =
      ground (arith, eq_iff k j, eq_iff i k, eq_iff i j, lookup-put k j v d)

  pub lookup-without :
      (k j : String) (d : Dict V)
      → lookup j (without k d) ≡ (if str_eq k j then none else lookup j d)
  unfolding lookup without
  lookup-without k j [] = ground arith
  lookup-without k j ((i, v) ∷ d) =
      ground (arith, lookup-without k j d, eq_iff i k, eq_iff i j, eq_iff k j)

  pub lookup-put_ne :
      (k j : String) (v : V) (d : Dict V) → str_eq k j ≡ false → lookup j (put k v d) ≡ lookup j d
  lookup-put_ne k j v d ne = rw (lookup-put k j v d, ne) refl

  pub lookup-put_self : (k : String) (v : V) (d : Dict V) → lookup k (put k v d) ≡ some v
  lookup-put_self k v d = rw (lookup-put k k v d, eq_refl k) refl

  pub lookup-without_ne :
      (k j : String) (d : Dict V) → str_eq k j ≡ false → lookup j (without k d) ≡ lookup j d
  lookup-without_ne k j d ne = rw (lookup-without k j d, ne) refl
