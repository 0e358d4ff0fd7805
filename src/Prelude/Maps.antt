-- ===== src/Prelude/Maps.antt =====
-- `HashMap<String, V>` as an association list in which a key stands once.
use Prim.Native.String.{String}
use mathlib.Core.Path.{◌≡◌, refl}
use mathlib.Core.Option.{Option, none, some}
use mathlib.Core.List.{List, [], ◌∷◌}
use native.Mathlib.Omega.{arith}
use text.Mathlib.Text.{◌==◌}
use text.Mathlib.TextEquality.{eq_iff}
use middlesox.Prelude.Tests.{if◌then◌else◌}

module _ {ℓ} {V : Type ℓ} where
  -- `get`
  unfoldable pub lookup : (key : String) → List (String × V) → Option V
  lookup key [] = none
  lookup key ((name, value) ∷ rest) = if name == key then some value else lookup key rest

  -- `insert`, which replaces the value of a key that is there.
  unfoldable pub insert : (key : String) (value : V) → List (String × V) → List (String × V)
  insert key value [] = (key, value) ∷ []
  insert key value ((name, old) ∷ rest) =
      if name == key then (key, value) ∷ rest else (name, old) ∷ insert key value rest

  -- `remove`
  unfoldable pub remove : (key : String) → List (String × V) → List (String × V)
  remove key [] = []
  remove key ((name, old) ∷ rest) =
      let kept = remove key rest in if name == key then kept else (name, old) ∷ kept

  pub lookup-insert :
      (key other : String) (value : V) (entries : List (String × V))
      → lookup other (insert key value entries)
        ≡ (if key == other then some value else lookup other entries)
  unfolding lookup insert
  lookup-insert key other value [] = refl
  lookup-insert key other value ((name, old) ∷ rest) =
      let later = lookup-insert key other value rest in
      ground (arith, eq_iff name key, eq_iff name other, eq_iff key other, later)

  pub lookup-remove :
      (key other : String) (entries : List (String × V))
      → lookup other (remove key entries) ≡ (if key == other then none else lookup other entries)
  unfolding lookup remove
  lookup-remove key other [] = ground (arith, eq_iff key other)
  lookup-remove key other ((name, old) ∷ rest) =
      let later = lookup-remove key other rest in
      ground (arith, eq_iff name key, eq_iff name other, eq_iff key other, later)
