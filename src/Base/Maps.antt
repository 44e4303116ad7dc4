-- ===== src/Base/Maps.antt =====
-- `HashMap<String, V>` as an association list with one entry for a key.
use Prim.Native.String.{String}
use mathlib.Core.Path.{◌≡◌, refl, ◌∙◌}
use mathlib.Core.Logic.{◌≢◌}
use mathlib.Core.List.{List, [], ◌∷◌}
use mathlib.Core.Bool.{false}
use mathlib.Core.Option.{Option, none, some}
use native.Mathlib.Omega.{arith}
use text.Mathlib.Text.{◌==◌ as str_eq}
use text.Mathlib.TextEquality.{eq_iff}
use speech_core.Base.Tests.{if◌then◌else◌, str_eq_refl, map_some}

module _ {ℓ} {V : Type ℓ} where
  unfoldable pub lookup : String → List (String × V) → Option V
  lookup k [] = none
  lookup k ((j, v) ∷ m) = if str_eq j k then some v else lookup k m

  unfoldable pub insert : String → V → List (String × V) → List (String × V)
  insert key value [] = (key, value) ∷ []
  insert key value ((other, w) ∷ rest) =
      if str_eq other key then (key, value) ∷ rest else (other, w) ∷ insert key value rest

  unfoldable pub remove : String → List (String × V) → List (String × V)
  remove key [] = []
  remove key ((other, w) ∷ rest) =
      if str_eq other key then remove key rest else (other, w) ∷ remove key rest

  pub lookup-insert :
      (key wanted : String) (value : V) (entries : List (String × V))
      → lookup wanted (insert key value entries)
        ≡ (if str_eq key wanted then some value else lookup wanted entries)
  unfolding lookup insert
  lookup-insert key wanted value [] = refl
  lookup-insert key wanted value ((other, w) ∷ entries) = ground (
    arith,
    eq_iff other wanted,
    eq_iff other key,
    eq_iff key wanted,
    lookup-insert key wanted value entries,
  )

  pub lookup-remove :
      (key wanted : String) (entries : List (String × V))
      → lookup wanted (remove key entries)
        ≡ (if str_eq key wanted then none else lookup wanted entries)
  unfolding lookup remove
  lookup-remove key wanted [] = ground arith
  lookup-remove key wanted ((other, w) ∷ entries) = ground (
    arith,
    eq_iff other wanted,
    eq_iff other key,
    eq_iff key wanted,
    lookup-remove key wanted entries,
  )

  pub lookup-insert_self :
      (k : String) (v : V) (m : List (String × V)) → lookup k (insert k v m) ≡ some v
  lookup-insert_self k v m = simp (lookup-insert, str_eq_refl)

  pub lookup-remove_self : (k : String) (m : List (String × V)) → lookup k (remove k m) ≡ none
  lookup-remove_self k m = simp (lookup-remove, str_eq_refl)

  pub lookup-insert_other :
      (k j : String) (v : V) (m : List (String × V)) → j ≢ k → lookup j (insert k v m) ≡ lookup j m
  lookup-insert_other k j v m n = lookup-insert k j v m ∙ ground (arith, eq_iff k j)

  pub lookup-remove_other :
      (k j : String) (m : List (String × V)) → j ≢ k → lookup j (remove k m) ≡ lookup j m
  lookup-remove_other k j m n = lookup-remove k j m ∙ ground (arith, eq_iff k j)

  -- `if let Some(state) = map.get_mut(k) { … }`.
  unfoldable pub update : String → (V → V) → List (String × V) → List (String × V)
  update k f [] = []
  update k f ((j, w) ∷ m) = if str_eq j k then (j, f w) ∷ m else (j, w) ∷ update k f m

  pub lookup-update_self :
      (k : String) (f : V → V) (m : List (String × V))
      → lookup k (update k f m) ≡ map_some (lookup k m) f
  unfolding lookup update
  lookup-update_self k f [] = refl
  lookup-update_self k f ((i, w) ∷ m) = ground (arith, lookup-update_self k f m)

  pub lookup-update_other :
      (k j : String) (f : V → V) (m : List (String × V))
      → str_eq k j ≡ false
      → lookup j (update k f m) ≡ lookup j m
  unfolding lookup update
  lookup-update_other k j f [] h = refl
  lookup-update_other k j f ((i, w) ∷ m) h =
      ground (arith, eq_iff k j, eq_iff i k, eq_iff i j, lookup-update_other k j f m h)
