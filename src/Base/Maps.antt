-- ===== src/Base/Maps.antt =====
-- A `Map` from texts: its entries in the order of their first insertion.
use Prim.Native.String.{String}
use mathlib.Core.Path.{◌≡◌, refl}
use mathlib.Core.Bool.{false}
use mathlib.Core.Option.{Option, none, some}
use mathlib.Core.List.{List, [], ◌∷◌}
use native.Mathlib.Omega.{arith}
use text.Mathlib.TextEquality.{eq_iff}
use text.Mathlib.TextPositions.{eq_refl}
use ts_gaurd_service.Base.Tests.{if◌then◌else◌, ◌==◌, string_eq}

abbrev pub Map : Type 0 → Type 0
Map V = List (String × V)

module _ {V : Type 0} where
  unfoldable pub get : String → Map V → Option V
  get k [] = none
  get k ((k', v) ∷ m) = if k' == k then some v else get k m

  unfoldable pub set : String → V → Map V → Map V
  set k v [] = (k, v) ∷ []
  set k v ((k', v') ∷ m) = if k' == k then (k, v) ∷ m else (k', v') ∷ set k v m

  unfoldable pub delete : String → Map V → Map V
  delete k [] = []
  delete k ((k', v) ∷ m) = if k' == k then delete k m else (k', v) ∷ delete k m

  pub get-set : (k : String) (v : V) (m : Map V) → get k (set k v m) ≡ some v
  unfolding get set
  get-set k v [] = ground (arith, eq_refl k)
  get-set k v ((k', v') ∷ m) = ground (arith, eq_refl k, get-set k v m)

  pub get-set_other :
      (k j : String) (v : V) (m : Map V) → (k == j) ≡ false → get j (set k v m) ≡ get j m
  unfolding get set
  get-set_other k j v [] other = ground arith
  get-set_other k j v ((k', v') ∷ m) other =
      ground (arith, (eq_iff k' k).0, get-set_other k j v m other)

  pub get-delete : (k : String) (m : Map V) → get k (delete k m) ≡ none
  unfolding get delete
  get-delete k [] = refl
  get-delete k ((k', v) ∷ m) = ground (arith, get-delete k m)
