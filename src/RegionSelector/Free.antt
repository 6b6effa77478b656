-- ===== src/RegionSelector/Free.antt =====
-- The regions that `normalizeCapacities` leaves have free servers in the allocator.
use match_mind.Allocator.{LocalAllocator, RegionCapacity, available, used}
use match_mind.Base.{
  All, Bool-cases, List, Map, [], arith, inl, inr, insert, insert_sorted, lookup_or, refl,
  sort_stable, suc, sym, ◌++◌, ◌∙◌, ◌∷◌, ◌≡◌, true, ◌==◌, Bool, not, ◌&&◌,
}
use match_mind.Base.Int.{int_add, ltb_ℤ, pos, ℤ, ◌-ℤ◌, ◌≤ℤ◌}
use match_mind.RegionSelector.{add_capacities, as_capacities, normalize_capacities}
use match_mind.Text.{Text, is_empty, lower_trim, text_eq, text_lt}
use mathlib.Core.List.{append_assoc}

-- A region of the allocator that has this name, when it is trimmed and in lower case, has more capacity than
-- servers in use.
pub record HasFree (servers : LocalAllocator) (region : Text) : Type 0 where
  pub name : Text
  pub capacity : ℤ
  pub earlier : Map Text ℤ
  pub later : Map Text ℤ
  pub held : servers.capacities ≡ earlier ++ ((name, capacity) ∷ later)
  pub same_name : lower_trim name ≡ region
  pub free : pos (suc (used name servers.allocations)) ≤ℤ capacity

-- What the report of a region promises.
abbrev Reports : LocalAllocator → RegionCapacity → Type 0
Reports servers c = ltb_ℤ (pos 0) c.available_servers ≡ true → HasFree servers (lower_trim c.region)

available-Reports :
    (servers : LocalAllocator) (earlier later : Map Text ℤ)
    → servers.capacities ≡ earlier ++ later
    → All (Reports servers) (available servers.allocations later)
unfolding available ◌-ℤ◌
available-Reports servers earlier [] h = tt
available-Reports servers earlier ((name, capacity) ∷ later) h = (
  λ positive. record {
    name = name;
    capacity = capacity;
    earlier = earlier;
    later = later;
    held = h;
    same_name = refl;
    free = ground arith;
  },
  available-Reports servers (earlier ++ ((name, capacity) ∷ [])) later
      (h ∙ sym (append_assoc earlier ((name, capacity) ∷ []) later)),
)

abbrev AllFree : LocalAllocator → Map Text ℤ → Type 0
AllFree servers = All (λ e. HasFree servers e.0)

insert-AllFree :
    (servers : LocalAllocator) (region : Text) (n : ℤ) (m : Map Text ℤ)
    → HasFree servers region
    → AllFree servers m
    → AllFree servers (insert region n m)
unfolding insert
insert-AllFree servers region n [] has v = (has, tt)
insert-AllFree servers region n ((k, old) ∷ m) has (first, v) = elim (Bool-cases (k == region)) [
  | inl this ↦ rw (this, insert) (has, v)
  | inr other ↦ rw (other, insert) (first, insert-AllFree servers region n m has v)
]

add_capacities-AllFree :
    (servers : LocalAllocator) (combined : Map Text ℤ) (cs : List RegionCapacity)
    → AllFree servers combined
    → All (Reports servers) cs
    → AllFree servers (add_capacities combined cs)
unfolding add_capacities
add_capacities-AllFree servers combined [] v r = v
add_capacities-AllFree servers combined (c ∷ cs) v (first, r) =
    elim (Bool-cases (not (is_empty (lower_trim c.region)) && ltb_ℤ (pos 0) c.available_servers)) [
      | inl counts ↦
          let region = lower_trim c.region in
          let total = int_add (lookup_or (pos 0) region combined) c.available_servers in
          rw (counts, add_capacities)
            (add_capacities-AllFree servers (insert region total combined) cs
              (insert-AllFree servers region total combined (first (ground arith)) v) r)
      | inr skipped ↦ rw (skipped, add_capacities) (add_capacities-AllFree servers combined cs v r)
    ]

as_capacities-free :
    (servers : LocalAllocator) (m : Map Text ℤ)
    → AllFree servers m
    → All (λ c. HasFree servers c.region) (as_capacities m)
unfolding as_capacities
as_capacities-free servers [] v = tt
as_capacities-free servers ((region, n) ∷ m) (first, v) = (first, as_capacities-free servers m v)

module _ {A : Type 0} (P : A → Type 0) (less : A → A → Bool) where
  insert_sorted-All : (x : A) (xs : List A) → P x → All P xs → All P (insert_sorted less x xs)
  unfolding insert_sorted
  insert_sorted-All x [] h v = (h, tt)
  insert_sorted-All x (y ∷ ys) h (first, v) = elim (Bool-cases (less y x)) [
    | inl below ↦ rw (below, insert_sorted) (first, insert_sorted-All x ys h v)
    | inr above ↦ rw (above, insert_sorted) (h, (first, v))
  ]

  sort_stable-All : (xs : List A) → All P xs → All P (sort_stable less xs)
  unfolding sort_stable
  sort_stable-All [] v = tt
  sort_stable-All (x ∷ xs) (first, v) =
      insert_sorted-All x (sort_stable less xs) first (sort_stable-All xs v)

pub normalize_capacities-free :
    (servers : LocalAllocator)
    → All
        (λ c. HasFree servers c.region)
        (normalize_capacities (available servers.allocations servers.capacities))
unfolding normalize_capacities
normalize_capacities-free servers =
    let reports = available-Reports servers [] servers.capacities refl in
    sort_stable-All (λ c. HasFree servers c.region) (λ c d. text_lt c.region d.region) _
      (as_capacities-free servers _ (add_capacities-AllFree servers [] _ tt reports))
