-- ===== src/Base/Sorting.antt =====
-- `sort.SliceStable` by insertion, for a comparison `less`.
use match_mind.Base.Tests.{if◌then◌else◌}
use mathlib.Core.Bool.{Bool}
use mathlib.Core.List.{List, [], ◌∷◌}

module _ {ℓ} {A : Type ℓ} (less : A → A → Bool) where
  -- `x` stands in front of what is not below it.
  unfoldable pub insert_sorted : A → List A → List A
  insert_sorted x [] = x ∷ []
  insert_sorted x (y ∷ ys) = if less y x then y ∷ insert_sorted x ys else x ∷ y ∷ ys

  unfoldable pub sort_stable : List A → List A
  unfolding insert_sorted
  sort_stable [] = []
  sort_stable (x ∷ xs) = insert_sorted x (sort_stable xs)
