-- ===== src/Policy/Limits.antt =====
-- policy.go: how far the matchmaker goes for a ticket that has waited.
use match_mind.Base.{if◌then◌else◌, suc, ◌%◌, ◌/◌}
use match_mind.Base.Int.{leb_ℤ, ltb_ℤ, negsuc, pos, ℤ, ◌-ℤ◌}
use match_mind.Clock.{second, Duration}
use match_mind.Float64.{
  Float64, float, float_add, float_le, float_lt, float_mul, float_neg, float_of, float_ratio,
  truncate,
}
use match_mind.Policy.{MatchPolicy}

-- `d.Seconds()`
unfoldable pub seconds : Duration → Float64
seconds (pos n) = float_add (float_of (pos (n / second))) (float_ratio (n % second) second)
seconds (negsuc n) =
    float_neg (float_add (float_of (pos (suc n / second))) (float_ratio (suc n % second) second))

abbrev pub at_least0 : Duration → Duration
at_least0 wait = if ltb_ℤ wait (pos 0) then pos 0 else wait

unfoldable pub rating_range : MatchPolicy → Duration → Float64
unfolding seconds
rating_range p wait =
    let range =
      float_add p.initial_rating_range
        (float_mul (seconds (at_least0 wait)) p.rating_expansion_per_second) in
    if float_lt p.max_rating_range range then p.max_rating_range else range

unfoldable pub latency_limit : MatchPolicy → Duration → ℤ
unfolding seconds
latency_limit p wait =
    let limit =
      float_add (float_of p.initial_latency_ms)
        (float_mul (seconds (at_least0 wait)) p.latency_expansion_per_second) in
    if float_le (float_of p.max_latency_ms) limit then p.max_latency_ms else truncate limit

unfoldable pub non_preferred_role_score : MatchPolicy → Duration → Float64
unfolding seconds
non_preferred_role_score p wait =
    let score =
      float_mul (seconds (wait -ℤ p.role_relaxation_after)) p.role_relaxation_per_second in
    if leb_ℤ wait p.role_relaxation_after
    then float 0
    else if float_lt p.max_non_preferred_role_score score
    then p.max_non_preferred_role_score
    else score
