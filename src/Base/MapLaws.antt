-- ===== src/Base/MapLaws.antt =====
-- Laws of the maps in `if` form, which have no side condition.
use mathlib.Core.Path.{◌≡◌, refl}
use mathlib.Core.Bool.{true}
use mathlib.Core.Option.{none, some}
use mathlib.Core.List.{[], ◌∷◌}
use native.Mathlib.Omega.{arith}
use match_mind.Base.Tests.{if◌then◌else◌, Eq, ◌==◌}
use match_mind.Base.Lists.{contains, distinct}
use mathlib.Core.Bool.{◌||◌}
use match_mind.Base.Maps.{Map, keys, lookup, insert, delete}

module _ {ℓ} {K : Type ℓ} ⦃e : Eq K⦄ where
  pub eq_self : (k : K) → (k == k) ≡ true
  eq_self k = (e.equal_iff k k).1 refl

module _ {ℓ κ} {K : Type ℓ} {V : Type κ} ⦃e : Eq K⦄ where
  pub lookup-insert :
      (key q : K) (new : V) (m : Map K V)
      → lookup q (insert key new m) ≡ (if key == q then some new else lookup q m)
  unfolding insert lookup
  lookup-insert key q new [] = refl
  lookup-insert key q new ((k, old) ∷ rest) =
      ground
        (arith, lookup-insert key q new rest, e.equal_iff key q, e.equal_iff k key, e.equal_iff k q)

  pub lookup-delete :
      (k j : K) (m : Map K V) → lookup j (delete k m) ≡ (if k == j then none else lookup j m)
  unfolding lookup delete
  lookup-delete k j [] = ground arith
  lookup-delete k j ((i, w) ∷ m) =
      ground (arith, e.equal_iff k j, e.equal_iff i k, e.equal_iff i j, lookup-delete k j m)

module _ {ℓ κ} {K : Type ℓ} {V : Type κ} ⦃e : Eq K⦄ where
  pub contains-keys-insert :
      (k j : K) (v : V) (m : Map K V)
      → contains j (keys (insert k v m)) ≡ ((k == j) || contains j (keys m))
  unfolding insert contains
  contains-keys-insert k j v [] = refl
  contains-keys-insert k j v ((i, w) ∷ m) =
      ground
        (arith, e.equal_iff k j, e.equal_iff i k, e.equal_iff i j, contains-keys-insert k j v m)

  pub distinct-insert :
      (k : K) (v : V) (m : Map K V)
      → distinct (keys m) ≡ true
      → distinct (keys (insert k v m)) ≡ true
  unfolding insert distinct contains
  distinct-insert k v [] h = refl
  distinct-insert k v ((i, w) ∷ m) h =
      ground (
        arith,
        e.equal_iff i k,
        e.equal_iff k i,
        contains-keys-insert k i v m,
        distinct-insert k v m,
      )

  contains-keys-delete :
      (k j : K) (m : Map K V) → contains j (keys (delete k m)) ≡ true → contains j (keys m) ≡ true
  unfolding delete contains
  contains-keys-delete k j [] h = h
  contains-keys-delete k j ((i, w) ∷ m) h = ground (arith, contains-keys-delete k j m)

  pub distinct-delete :
      (k : K) (m : Map K V) → distinct (keys m) ≡ true → distinct (keys (delete k m)) ≡ true
  unfolding delete distinct
  distinct-delete k [] h = refl
  distinct-delete k ((i, w) ∷ m) h = ground (arith, contains-keys-delete k i m, distinct-delete k m)

  pub contains-lookup :
      (k : K) (v : V) (m : Map K V) → lookup k m ≡ some v → contains k (keys m) ≡ true
  unfolding lookup contains
  contains-lookup k v [] h = ground arith
  contains-lookup k v ((i, w) ∷ m) h = ground (arith, contains-lookup k v m)

  -- Where the keys are distinct, an entry behind the first is found as well.
  pub lookup-tail :
      (i : K) (w : V) (k : K) (v : V) (m : Map K V)
      → distinct (i ∷ keys m) ≡ true
      → lookup k m ≡ some v
      → lookup k ((i, w) ∷ m) ≡ some v
  unfolding distinct lookup
  lookup-tail i w k v m d h = ground (arith, e.equal_iff i k, contains-lookup k v m)
