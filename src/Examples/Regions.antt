-- ===== src/Examples/Regions.antt =====
-- Latencies of two regions, one with capitals in its name.
use match_mind.Base.{Map, [], contains, keys, lookup, none, ok, refl, some, true, ◌∷◌, ◌≡◌}
use match_mind.Base.Int.{pos, ℤ, ◌≤ℤ◌}
use match_mind.Text.{Text, codes, lower_trim, text_eq}
use match_mind.TicketService.{best_region, latency_of}
use match_mind.TicketService.Region.{best_region-lowest}

abbrev two_regions : Map Text ℤ
two_regions = (codes "singapore", pos 40) ∷ (codes "Tokyo", pos 20) ∷ []

tokyo_best : best_region two_regions ≡ ok (codes "tokyo")
unfolding best_region match_mind.Base.sort_stable match_mind.Text.text_lt match_mind.Text.to_lower
    match_mind.Text.trim_space lookup match_mind.Text.text_beq
tokyo_best = refl

singapore_measured : lookup (codes "singapore") two_regions ≡ some (pos 40)
unfolding lookup match_mind.Text.text_beq
singapore_measured = refl

best_region-lowest_example :
    (k : Text) × (codes "tokyo" ≡ lower_trim k)
    × (contains k (keys two_regions) ≡ true)
    × (latency_of two_regions k ≤ℤ pos 40)
best_region-lowest_example =
    best_region-lowest two_regions (codes "tokyo") (codes "singapore") (pos 40) tokyo_best
      singapore_measured

-- The region that is returned is no key of the map.
tokyo_unknown : lookup (codes "tokyo") two_regions ≡ none
unfolding lookup match_mind.Text.text_beq
tokyo_unknown = refl
