-- ===== src/Base/Maps.antt =====
-- Go's `map[K]V` as an association list. Go leaves the order of iteration open; here it is the
-- order of the list, and what is proved of a map is proved of every list, so of every order.
use mathlib.Core.Option.{Option, none, some}
use mathlib.Core.List.{List, [], ◌∷◌}
use match_mind.Base.Tests.{if◌then◌else◌, Eq, ◌==◌}

abbrev pub Map {ℓ κ} : Type ℓ → Type κ → Type (ℓ ⊔ κ)
Map K V = List (K × V)

module _ {ℓ κ} {K : Type ℓ} {V : Type κ} where
  abbrev pub keys : Map K V → List K
  keys [] = []
  keys ((k, v) ∷ m) = k ∷ keys m

  abbrev pub values : Map K V → List V
  values [] = []
  values ((k, v) ∷ m) = v ∷ values m

module _ {ℓ κ} {K : Type ℓ} {V : Type κ} ⦃e : Eq K⦄ where
  -- `value, exists := m[k]`
  unfoldable pub lookup : K → Map K V → Option V
  lookup k [] = none
  lookup k ((j, v) ∷ m) = if j == k then some v else lookup k m

  -- `m[k] = v`
  unfoldable pub insert : K → V → Map K V → Map K V
  insert key new [] = (key, new) ∷ []
  insert key new ((k, old) ∷ rest) =
      if k == key then (key, new) ∷ rest else (k, old) ∷ insert key new rest

  -- `delete(m, k)`
  unfoldable pub delete : K → Map K V → Map K V
  delete k [] = []
  delete k ((j, v) ∷ m) = let rest = delete k m in if j == k then rest else (j, v) ∷ rest

  -- `value := m[k]`, with the zero value of a missing key.
  abbrev pub lookup_or : V → K → Map K V → V
  lookup_or d k m = elim (lookup k m) [ none ↦ d | some v ↦ v ]
