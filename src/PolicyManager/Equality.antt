-- ===== src/PolicyManager/Equality.antt =====
-- `==` on policies is equality.
use match_mind.Base.{arith, true, ◌≡◌}
use match_mind.Base.Int.{int_beq, ℤ}
use match_mind.Float64.{finite, float_le, Float64, float_eq}
use match_mind.Policy.{unknown_algorithm, MatchPolicy, TeamAlgorithm}
use match_mind.PolicyManager.{
  algorithm_beq, policy_beq, same_latencies, same_ranges, same_scores, same_search, same_times,
  same_weights,
}
use match_mind.Text.{text_beq_iff}

int_beq-eq : (a b : ℤ) → int_beq a b ≡ true → a ≡ b
int_beq-eq a b h = ground arith

float_eq-eq : (x y : Float64) → float_eq x y ≡ true → x ≡ y
unfolding float_le
float_eq-eq (finite a) (finite b) h = ground (arith, int_beq-eq a b)
float_eq-eq _ _ h = ground arith

algorithm_beq-eq : (a b : TeamAlgorithm) → algorithm_beq a b ≡ true → a ≡ b
algorithm_beq-eq (unknown_algorithm a) (unknown_algorithm b) h = ground (arith, text_beq_iff a b)
algorithm_beq-eq _ _ h = ground arith

same_search-eq :
    (p q : MatchPolicy)
    → same_search p q ≡ true
    → (p.version ≡ q.version)
      × (p.team_size ≡ q.team_size)
      × (p.candidate_limit ≡ q.candidate_limit)
      × (p.team_algorithm ≡ q.team_algorithm)
      × (p.beam_width ≡ q.beam_width)
unfolding same_search
same_search-eq p q h = (
  ground (arith, (text_beq_iff p.version q.version)),
  ground (arith, int_beq-eq p.team_size q.team_size),
  ground (arith, int_beq-eq p.candidate_limit q.candidate_limit),
  ground (arith, algorithm_beq-eq p.team_algorithm q.team_algorithm),
  ground (arith, int_beq-eq p.beam_width q.beam_width),
)

same_weights-eq :
    (p q : MatchPolicy)
    → same_weights p q ≡ true
    → (p.skill_weight ≡ q.skill_weight)
      × (p.role_weight ≡ q.role_weight)
      × (p.latency_weight ≡ q.latency_weight)
      × (p.party_weight ≡ q.party_weight)
      × (p.wait_weight ≡ q.wait_weight)
unfolding same_weights
same_weights-eq p q h = (
  ground (arith, float_eq-eq p.skill_weight q.skill_weight),
  ground (arith, float_eq-eq p.role_weight q.role_weight),
  ground (arith, float_eq-eq p.latency_weight q.latency_weight),
  ground (arith, float_eq-eq p.party_weight q.party_weight),
  ground (arith, float_eq-eq p.wait_weight q.wait_weight),
)

same_ranges-eq :
    (p q : MatchPolicy)
    → same_ranges p q ≡ true
    → (p.initial_rating_range ≡ q.initial_rating_range)
      × (p.max_rating_range ≡ q.max_rating_range)
      × (p.rating_expansion_per_second ≡ q.rating_expansion_per_second)
      × (p.latency_expansion_per_second ≡ q.latency_expansion_per_second)
unfolding same_ranges
same_ranges-eq p q h = (
  ground (arith, float_eq-eq p.initial_rating_range q.initial_rating_range),
  ground (arith, float_eq-eq p.max_rating_range q.max_rating_range),
  ground (arith, float_eq-eq p.rating_expansion_per_second q.rating_expansion_per_second),
  ground (arith, float_eq-eq p.latency_expansion_per_second q.latency_expansion_per_second),
)

same_scores-eq :
    (p q : MatchPolicy)
    → same_scores p q ≡ true
    → (p.role_relaxation_per_second ≡ q.role_relaxation_per_second)
      × (p.max_non_preferred_role_score ≡ q.max_non_preferred_role_score)
      × (p.min_quality_score ≡ q.min_quality_score)
unfolding same_scores
same_scores-eq p q h = (
  ground (arith, float_eq-eq p.role_relaxation_per_second q.role_relaxation_per_second),
  ground (arith, float_eq-eq p.max_non_preferred_role_score q.max_non_preferred_role_score),
  ground (arith, float_eq-eq p.min_quality_score q.min_quality_score),
)

same_latencies-eq :
    (p q : MatchPolicy)
    → same_latencies p q ≡ true
    → (p.initial_latency_ms ≡ q.initial_latency_ms) × (p.max_latency_ms ≡ q.max_latency_ms)
unfolding same_latencies
same_latencies-eq p q h = (
  ground (arith, int_beq-eq p.initial_latency_ms q.initial_latency_ms),
  ground (arith, int_beq-eq p.max_latency_ms q.max_latency_ms),
)

same_times-eq :
    (p q : MatchPolicy)
    → same_times p q ≡ true
    → (p.role_relaxation_after ≡ q.role_relaxation_after)
      × (p.reservation_ttl ≡ q.reservation_ttl)
      × (p.ticket_ttl ≡ q.ticket_ttl)
unfolding same_times
same_times-eq p q h = (
  ground (arith, int_beq-eq p.role_relaxation_after q.role_relaxation_after),
  ground (arith, int_beq-eq p.reservation_ttl q.reservation_ttl),
  ground (arith, int_beq-eq p.ticket_ttl q.ticket_ttl),
)

pub policy_beq-eq : (p q : MatchPolicy) → policy_beq p q ≡ true → p ≡ q
unfolding policy_beq
policy_beq-eq p q h =
    let (version_eq, team_size_eq, candidate_limit_eq, team_algorithm_eq, beam_width_eq) =
      same_search-eq p q (ground arith) in
    let (skill_weight_eq, role_weight_eq, latency_weight_eq, party_weight_eq, wait_weight_eq) =
      same_weights-eq p q (ground arith) in
    let (
      initial_rating_range_eq, max_rating_range_eq, rating_expansion_per_second_eq,
      latency_expansion_per_second_eq,
    ) =
      same_ranges-eq p q (ground arith) in
    let (role_relaxation_per_second_eq, max_non_preferred_role_score_eq, min_quality_score_eq) =
      same_scores-eq p q (ground arith) in
    let (initial_latency_ms_eq, max_latency_ms_eq) = same_latencies-eq p q (ground arith) in
    let (role_relaxation_after_eq, reservation_ttl_eq, ticket_ttl_eq) =
      same_times-eq p q (ground arith) in
    λ i. record {
      version = version_eq i;
      team_size = team_size_eq i;
      candidate_limit = candidate_limit_eq i;
      team_algorithm = team_algorithm_eq i;
      beam_width = beam_width_eq i;
      skill_weight = skill_weight_eq i;
      role_weight = role_weight_eq i;
      latency_weight = latency_weight_eq i;
      party_weight = party_weight_eq i;
      wait_weight = wait_weight_eq i;
      initial_rating_range = initial_rating_range_eq i;
      max_rating_range = max_rating_range_eq i;
      rating_expansion_per_second = rating_expansion_per_second_eq i;
      initial_latency_ms = initial_latency_ms_eq i;
      max_latency_ms = max_latency_ms_eq i;
      latency_expansion_per_second = latency_expansion_per_second_eq i;
      role_relaxation_after = role_relaxation_after_eq i;
      role_relaxation_per_second = role_relaxation_per_second_eq i;
      max_non_preferred_role_score = max_non_preferred_role_score_eq i;
      min_quality_score = min_quality_score_eq i;
      reservation_ttl = reservation_ttl_eq i;
      ticket_ttl = ticket_ttl_eq i;
    }
