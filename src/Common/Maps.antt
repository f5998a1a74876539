-- ===== src/Common/Maps.antt =====
-- A map with text keys as the list of its entries in the order of their insertion.
use Prim.Native.String.{String}
use mathlib.Core.Path.{◌≡◌, refl}
use mathlib.Core.Logic.{◌≢◌}
use mathlib.Core.Bool.{not}
use mathlib.Core.Option.{Option, none, some}
use mathlib.Core.List.{List, [], ◌∷◌}
use native.Mathlib.Omega.{arith}
use text.Mathlib.Text.{◌==◌ as str_eq}
use text.Mathlib.TextEquality.{eq_iff}
use text.Mathlib.TextPositions.{eq_refl}
use conference_operator.Common.Tests.{if◌then◌else◌}
use conference_operator.Common.Lists.{filter}

module _ {A : Type 0} where
  -- `map.get(name)`
  abbrev pub get : String → List (String × A) → Option A
  get name [] = none
  get name (e ∷ entries) = let rest = get name entries in if str_eq e.0 name then some e.1 else rest

  -- `map.set(name, value)`
  unfoldable pub set : String → A → List (String × A) → List (String × A)
  set name value [] = (name, value) ∷ []
  set name value (e ∷ entries) =
      let rest = set name value entries in
      if str_eq e.0 name then (name, value) ∷ entries else e ∷ rest

  -- `map.delete(name)`
  abbrev pub delete : String → List (String × A) → List (String × A)
  delete name entries = filter (λ e. not (str_eq e.0 name)) entries

  pub get-set :
      (name : String) (value : A) (entries : List (String × A))
      → get name (set name value entries) ≡ some value
  unfolding set
  get-set name value [] = ground (arith, eq_refl name)
  get-set name value (e ∷ entries) = ground (arith, eq_refl name, get-set name value entries)

  pub get-delete :
      (name : String) (entries : List (String × A)) → get name (delete name entries) ≡ none
  get-delete name [] = refl
  get-delete name (e ∷ entries) = ground (arith, get-delete name entries)

  pub get-set_other :
      (name other : String) (value : A) (entries : List (String × A))
      → name ≢ other
      → get other (set name value entries) ≡ get other entries
  unfolding set
  get-set_other name other value [] ne = ground (arith, eq_iff name other)
  get-set_other name other value (e ∷ entries) ne = ground (
    arith,
    eq_iff name other,
    eq_iff e.0 name,
    eq_iff e.0 other,
    get-set_other name other value entries ne,
  )

  pub get-delete_other :
      (name other : String) (entries : List (String × A))
      → name ≢ other
      → get other (delete name entries) ≡ get other entries
  get-delete_other name other [] ne = refl
  get-delete_other name other (e ∷ entries) ne = ground (
    arith,
    eq_iff name other,
    eq_iff e.0 name,
    eq_iff e.0 other,
    get-delete_other name other entries ne,
  )
