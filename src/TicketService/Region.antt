-- ===== src/TicketService/Region.antt =====
-- The region of a ticket is the one with the lowest latency.
use match_mind.Base.{
  Bool, Bool-cases, List, Map, Option-cases, [], arith, contains, contains-lookup, inl, inr,
  insert_sorted, keys, lookup, ok, refl, some, sort_stable, subst, sym, true, ◌∙◌, ◌∷◌, ◌≡◌,
}
use match_mind.Base.Int.{ltb_ℤ, ℤ, ◌≤ℤ◌}
use match_mind.Text.{Text, lower_trim, text_beq_iff, text_lt, text_eq}
use match_mind.TicketService.{best_key, best_region, first_lowest, latency_of, lowest}

contains-insert_sorted :
    (less : Text → Text → Bool) (j x : Text) (xs : List Text)
    → contains j (insert_sorted less x xs) ≡ contains j (x ∷ xs)
unfolding insert_sorted contains
contains-insert_sorted less j x [] = refl
contains-insert_sorted less j x (y ∷ ys) = ground (arith, contains-insert_sorted less j x ys)

contains-sort_stable :
    (less : Text → Text → Bool) (j : Text) (xs : List Text)
    → contains j (sort_stable less xs) ≡ contains j xs
unfolding sort_stable contains
contains-sort_stable less j [] = refl
contains-sort_stable less j (x ∷ xs) =
    ground
      (arith, contains-insert_sorted less j x (sort_stable less xs), contains-sort_stable less j xs)

-- The loop's result is at most every region that it has seen.
module _ (m : Map Text ℤ) where
  lowest-le-first :
      (best : Text) (rs : List Text) → latency_of m (lowest m best rs) ≤ℤ latency_of m best
  unfolding lowest
  lowest-le-first best [] = omega arith
  lowest-le-first best (r ∷ rs) = elim (Bool-cases (ltb_ℤ (latency_of m r) (latency_of m best))) [
    | inl lower ↦ rw lower (ground (arith, lowest-le-first r rs))
    | inr higher ↦ rw higher (lowest-le-first best rs)
  ]

  lowest-le-other :
      (best j : Text) (rs : List Text)
      → contains j rs ≡ true
      → latency_of m (lowest m best rs) ≤ℤ latency_of m j
  unfolding lowest contains
  lowest-le-other best j [] h = absurd (ground arith)
  lowest-le-other best j (r ∷ rs) h =
      elim (Bool-cases (ltb_ℤ (latency_of m r) (latency_of m best))) [
        | inl lower ↦
            rw lower
              (ground (arith, lowest-le-first r rs, lowest-le-other r j rs, text_beq_iff r j))
        | inr higher ↦
            rw higher
              (ground (arith, lowest-le-first best rs, lowest-le-other best j rs, text_beq_iff r j))
      ]

  lowest-member : (best : Text) (rs : List Text) → contains (lowest m best rs) (best ∷ rs) ≡ true
  unfolding lowest contains
  lowest-member best [] = ground (arith, text_beq_iff best best)
  lowest-member best (r ∷ rs) = elim (Bool-cases (ltb_ℤ (latency_of m r) (latency_of m best))) [
    | inl lower ↦
        let e : lowest m best (r ∷ rs) ≡ lowest m r rs = rw lower refl in
        subst (λ x. contains x (best ∷ r ∷ rs) ≡ true) (sym e) (ground (arith, lowest-member r rs))
    | inr higher ↦
        let e : lowest m best (r ∷ rs) ≡ lowest m best rs = rw higher refl in
        subst (λ x. contains x (best ∷ r ∷ rs) ≡ true) (sym e)
          (ground (arith, lowest-member best rs))
  ]

  first_lowest-le :
      (j k : Text) (rs : List Text)
      → first_lowest m rs ≡ some k
      → contains j rs ≡ true
      → (contains k rs ≡ true) × (latency_of m k ≤ℤ latency_of m j)
  unfolding contains
  first_lowest-le j k [] e h = absurd (ground arith)
  first_lowest-le j k (r ∷ rs) e h =
      let found : lowest m r rs ≡ k = ground arith in
      subst (λ x. (contains x (r ∷ rs) ≡ true) × (latency_of m x ≤ℤ latency_of m j)) found
        (
          lowest-member r rs,
          ground (arith, lowest-le-first r rs, lowest-le-other r j rs, text_beq_iff r j),
        )

-- When `bestRegion` returns a region, it is the normalised name of a key of the map whose latency is at
-- most that of any entry `j` of the map.
pub best_region-lowest :
    (m : Map Text ℤ) (region j : Text) (w : ℤ)
    → best_region m ≡ ok region
    → lookup j m ≡ some w
    → (k : Text) × (region ≡ lower_trim k) × (contains k (keys m) ≡ true) × (latency_of m k ≤ℤ w)
unfolding best_region best_key
best_region-lowest m region j w h found =
    elim (Option-cases (first_lowest m (sort_stable text_lt (keys m)))) [
      | inl nothing ↦ absurd (ground arith)
      | inr (k, chosen) ↦
          let inside : contains j (sort_stable text_lt (keys m)) ≡ true =
            ground (arith, contains-sort_stable text_lt j (keys m), contains-lookup j w m) in
          let (member, least) =
            first_lowest-le m j k (sort_stable text_lt (keys m)) chosen inside in
          (k, ground arith, sym (contains-sort_stable text_lt k (keys m)) ∙ member, ground arith)
    ]
