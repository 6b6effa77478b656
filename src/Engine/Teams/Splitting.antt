-- ===== src/Engine/Teams/Splitting.antt =====
-- The split of the groups: the smallest difference in rating of all splits.
use match_mind.Base.{
  Bool-cases, List, and_left, ap, arith, false, inl, inr, length, nat_beq, none, ok, refl, some,
  subst, suc, sym, true, zero, ℕ, ◌%◌, ◌&&◌, ◌+◌, ◌-◌, ◌<◌, ◌^◌, ◌∙◌, ◌≡◌, ◌≤◌, ◌⊎◌,
}
use match_mind.Engine.{TicketGroup}
use match_mind.Engine.Teams.{
  BestSplit, balanced_partition, fits_mask, is_better, no_split, rating_difference, split_by,
  team_signature, try_mask, try_masks,
}
use match_mind.Float64.{Float64, float_eq, float_le, float_lt}
use match_mind.Text.{Text, text_eq}

float_lt_irrefl : (x : Float64) → float_lt x x ≡ false
unfolding float_lt
float_lt_irrefl x = ground arith

-- What is not below `b` is not below what is below `b`, or equal to it.
not_below-lower :
    (x d b : Float64) → float_lt d b ≡ true → float_lt x b ≡ false → float_lt x d ≡ false
unfolding float_lt
not_below-lower x d b h k = ground arith

not_below-equal :
    (x d b : Float64) → float_eq d b ≡ true → float_lt x b ≡ false → float_lt x d ≡ false
unfolding float_lt float_le
not_below-equal x d b h k = ground arith

not_below-better :
    (best : BestSplit) (x d : Float64) (signature : Text)
    → is_better best d signature ≡ true
    → float_lt x best.difference ≡ false
    → float_lt x d ≡ false
unfolding is_better
not_below-better best x d signature h k = elim (Bool-cases (float_lt d best.difference)) [
  | inl lower ↦ not_below-lower x d best.difference lower k
  | inr other ↦ not_below-equal x d best.difference (ground arith) k
]

-- The difference of the split of a mask.
abbrev pub difference_of : List TicketGroup → ℕ → Float64
difference_of groups mask = rating_difference (split_by mask groups)

try_mask-lowers :
    (size : ℕ) (groups : List TicketGroup) (best : BestSplit) (mask : ℕ) (x : Float64)
    → float_lt x best.difference ≡ false
    → float_lt x (try_mask size groups best mask).difference ≡ false
unfolding try_mask
try_mask-lowers size groups best mask x h =
    let teams = split_by mask groups in
    elim (Bool-cases (is_better best (rating_difference teams) (team_signature teams.0))) [
      | inl better ↦ ground (
        arith,
        not_below-better best x (rating_difference teams) (team_signature teams.0) better h,
      )
      | inr worse ↦ ground arith
    ]

try_mask-here :
    (size : ℕ) (groups : List TicketGroup) (best : BestSplit) (mask : ℕ)
    → fits_mask size groups mask ≡ true
    → float_lt (difference_of groups mask) (try_mask size groups best mask).difference ≡ false
unfolding try_mask is_better
try_mask-here size groups best mask fits =
    ground (arith, float_lt_irrefl (difference_of groups mask))

-- The loop lowers the best difference.
try_masks-lowers :
    (size : ℕ) (groups : List TicketGroup) (best : BestSplit) (mask count : ℕ) (x : Float64)
    → float_lt x best.difference ≡ false
    → float_lt x (try_masks size groups best mask count).difference ≡ false
unfolding try_masks
try_masks-lowers size groups best mask zero x h = h
try_masks-lowers size groups best mask (suc count) x h =
    try_masks-lowers size groups (try_mask size groups best mask) (suc mask) count x
      (try_mask-lowers size groups best mask x h)

try_masks-here :
    (size : ℕ) (groups : List TicketGroup) (best : BestSplit) (mask count m : ℕ)
    → mask ≤ m
    → m < mask + count
    → fits_mask size groups m ≡ true
    → float_lt (difference_of groups m) (try_masks size groups best mask count).difference ≡ false
unfolding try_masks
try_masks-here size groups best mask zero m low high fits = absurd (omega (arith, low, high))
try_masks-here size groups best mask (suc count) m low high fits =
    elim (Bool-cases (nat_beq mask m)) [
      | inl this ↦
          let e : mask ≡ m = ground arith in
          try_masks-lowers size groups (try_mask size groups best mask) (suc mask) count
            (difference_of groups m)
            (subst
              (λ k.
                float_lt (difference_of groups k) (try_mask size groups best mask).difference
                ≡ false)
              e
              (try_mask-here size groups best mask
                (subst (λ k. fits_mask size groups k ≡ true) (sym e) fits)))
      | inr other ↦
          try_masks-here size groups (try_mask size groups best mask) (suc mask) count m
            (ground arith) (ground arith) fits
    ]

-- The split that is kept is that of a mask that fits, with its difference.
abbrev Found : ℕ → List TicketGroup → BestSplit → Type 0
Found size groups best =
    (best.teams ≡ none)
    ⊎ ((m : ℕ) × (fits_mask size groups m ≡ true)
        × (best.teams ≡ some (split_by m groups))
        × (best.difference ≡ difference_of groups m))

try_mask-Found :
    (size : ℕ) (groups : List TicketGroup) (best : BestSplit) (mask : ℕ)
    → Found size groups best
    → Found size groups (try_mask size groups best mask)
unfolding try_mask
try_mask-Found size groups best mask h =
    let teams = split_by mask groups in
    elim (Bool-cases (
      fits_mask size groups mask
      && is_better best (rating_difference teams) (team_signature teams.0))) [
        | inl taken ↦
            rw taken (inr (mask, and_left (fits_mask size groups mask) _ taken, refl, refl))
        | inr other ↦ rw other h
      ]

try_masks-Found :
    (size : ℕ) (groups : List TicketGroup) (best : BestSplit) (mask count : ℕ)
    → Found size groups best
    → Found size groups (try_masks size groups best mask count)
unfolding try_masks
try_masks-Found size groups best mask zero h = h
try_masks-Found size groups best mask (suc count) h =
    try_masks-Found size groups (try_mask size groups best mask) (suc mask) count
      (try_mask-Found size groups best mask h)

-- A mask with the first bit is not 0.
fits_mask-pos :
    (size : ℕ) (groups : List TicketGroup) (m : ℕ) → fits_mask size groups m ≡ true → 1 ≤ m
unfolding fits_mask
fits_mask-pos size groups m h = let odd : m % 2 ≡ 1 = ground arith in omega (arith, odd)

-- When `balancedPartition` succeeds, the teams are those of a mask that gives both teams their size, and
-- no mask that does so has a smaller rating difference.
pub balanced_partition-optimal :
    (groups : List TicketGroup) (size : ℕ) (teams : List TicketGroup × List TicketGroup)
    → balanced_partition groups size ≡ ok teams
    → ((m : ℕ) × (fits_mask size groups m ≡ true) × (teams ≡ split_by m groups))
      × ((m : ℕ)
          → m < 2 ^ length groups
          → fits_mask size groups m ≡ true
          → float_lt (rating_difference (split_by m groups)) (rating_difference teams) ≡ false)
unfolding balanced_partition
balanced_partition-optimal groups size teams h =
    let count = 2 ^ length groups - 1 in
    let best = try_masks size groups no_split 1 count in
    elim (try_masks-Found size groups no_split 1 count (inl refl)) [
      | inl missing ↦ absurd (ground arith)
      | inr (mask, fits, found, difference) ↦
          let e : teams ≡ split_by mask groups = ground arith in
          (
            (mask, fits, e),
            λ m high fits'.
                subst (λ d. float_lt (difference_of groups m) d ≡ false)
                  (difference ∙ ap rating_difference (sym e))
                  (try_masks-here size groups no_split 1 count m (fits_mask-pos size groups m fits')
                    (omega (arith, high)) fits'),
          )
    ]
