-- ===== src/Prelude/GoMap.antt =====
-- Go's `map[K]V` as an association list: `get` for `m[k]`, `put` for `m[k] = v`, `delete`.
-- A map's iteration order is the order of the list; theorems range over all lists.
use mathlib.Core.Path.{◌≡◌, refl}
use mathlib.Core.Logic.{ite}
use mathlib.Core.Option.{Option, none, some}
use mathlib.Core.List.{List, [], ◌∷◌}
use native.Mathlib.Omega.{arith}

abbrev pub GoMap : Type 0 → Type 0 → Type 0
GoMap K V = List (K × V)

module _ {K V : Type 0} (disc : Discrete K) where
  unfoldable pub get : GoMap K V → K → Option V
  get [] k = none
  get ((j, v) ∷ m) k = ite (disc j k) (some v) (get m k)

  unfoldable pub put : GoMap K V → K → V → GoMap K V
  put [] k v = (k, v) ∷ []
  put ((j, w) ∷ m) k v = ite (disc j k) ((k, v) ∷ m) ((j, w) ∷ put m k v)

  unfoldable pub delete : GoMap K V → K → GoMap K V
  delete [] k = []
  delete ((j, w) ∷ m) k = ite (disc j k) (delete m k) ((j, w) ∷ delete m k)

  pub get-put :
      (m : GoMap K V) (k j : K) (v : V) → get (put m k v) j ≡ ite (disc k j) (some v) (get m j)
  unfolding get put
  get-put [] k j v = refl
  get-put ((i, w) ∷ m) k j v = ground (arith, get-put m k j v)

  pub get-delete : (m : GoMap K V) (k j : K) → get (delete m k) j ≡ ite (disc k j) none (get m j)
  unfolding get delete
  get-delete [] k j = ground arith
  get-delete ((i, w) ∷ m) k j = ground (arith, get-delete m k j)

-- The keys of a map, in iteration order.
abbrev pub keys {ℓ} : {K V : Type ℓ} → List (K × V) → List K
keys [] = []
keys ((k, v) ∷ m) = k ∷ keys m

-- Each key stands once in the list, as in every map that is built by `put` and `delete`.
module _ {K V : Type 0} (disc : Discrete K) where
  abbrev pub IsMap : GoMap K V → Type 0
  IsMap [] = Unit
  IsMap ((k, v) ∷ m) = (get disc m k ≡ none) × IsMap m

  pub put-IsMap : (m : GoMap K V) (k : K) (v : V) → IsMap m → IsMap (put disc m k v)
  unfolding put get
  put-IsMap [] k v h = (refl, tt)
  put-IsMap ((j, w) ∷ m) k v h = ground (arith, put-IsMap m k v h.1, get-put disc m k j v)

  pub delete-IsMap : (m : GoMap K V) (k : K) → IsMap m → IsMap (delete disc m k)
  unfolding delete
  delete-IsMap [] k h = tt
  delete-IsMap ((j, w) ∷ m) k h = ground (arith, delete-IsMap m k h.1, get-delete disc m k j)
