-- ===== src/Prelude/Maps.antt =====
-- Maps with keys that are texts, as functions: a catalog, a directory, a table.
use Prim.Native.String.{String}
use mathlib.Core.Path.{◌≡◌}
use mathlib.Core.Logic.{◌≢◌}
use mathlib.Core.Option.{Option, none, some}
use mathlib.Core.List.{List, [], ◌∷◌}
use text.Mathlib.Text.{◌==◌}
use text.Mathlib.TextPositions.{eq_refl}
use odooctl.Prelude.Tests.{if◌then◌else◌, ==_false}

module _ {ℓ} {V : Type ℓ} where
  abbrev pub update : (String → Option V) → String → Option V → String → Option V
  update m k v j = if k == j then v else m j

  pub update_self : (m : String → Option V) (k : String) (v : Option V) → update m k v k ≡ v
  update_self m k v = simp eq_refl

  pub update_ne :
      (m : String → Option V) (k : String) (v : Option V) (j : String)
      → k ≢ j
      → update m k v j ≡ m j
  update_ne m k v j h = rw (==_false k j h)

module _ {ℓ} {V : Type ℓ} where
  -- The value of the first pair with the key.
  abbrev pub lookup : String → List (String × V) → Option V
  lookup key [] = none
  lookup key ((k, v) ∷ rest) = let found = lookup key rest in if k == key then some v else found
