-- ===== src/Policy.antt =====
-- internal/matchmaking/domain/policy.go: the parameters of the matchmaker.
pub mod Limits
use match_mind.Game.Mode
use match_mind.Base.{
  Bool, List, Result, [], false, if◌then◌else◌, invalid_policy, not, ok, reject_if, suc, true, ◌*◌,
  ◌/◌, ◌==◌, ◌>>=◌, ◌>>◌, ◌||◌, ◌∷◌,
}
use match_mind.Base.Int.{int_beq, leb_ℤ, ltb_ℤ, negsuc, pos, ℤ, ◌*ℤ◌, ◌-ℤ◌}
use match_mind.Clock.{second, Duration}
use match_mind.Float64.{
  Float64, float, float_abs, float_add, float_lt, float_max, float_mul, float_ratio, float_sub,
  is_inf, is_nan,
}
use match_mind.Text.{Text, codes, is_empty, trim_space, text_eq}
use match_mind.Ticket.{parse_mode}

pub data TeamAlgorithm : Type 0 where
  greedy beam : TeamAlgorithm
  unknown_algorithm : Text → TeamAlgorithm

pub record MatchPolicy : Type 0 where
  pub version : Text
  pub team_size : ℤ
  pub candidate_limit : ℤ
  pub team_algorithm : TeamAlgorithm
  pub beam_width : ℤ
  pub skill_weight : Float64
  pub role_weight : Float64
  pub latency_weight : Float64
  pub party_weight : Float64
  pub wait_weight : Float64
  pub initial_rating_range : Float64
  pub max_rating_range : Float64
  pub rating_expansion_per_second : Float64
  pub initial_latency_ms : ℤ
  pub max_latency_ms : ℤ
  pub latency_expansion_per_second : Float64
  pub role_relaxation_after : Duration
  pub role_relaxation_per_second : Float64
  pub max_non_preferred_role_score : Float64
  pub min_quality_score : Float64
  pub reservation_ttl : Duration
  pub ticket_ttl : Duration

unfoldable pub default_policy : MatchPolicy
default_policy = record {
  version = codes "v1-greedy";
  team_size = pos 5;
  candidate_limit = pos 30;
  team_algorithm = greedy;
  beam_width = pos 64;
  skill_weight = float_ratio 40 100;
  role_weight = float_ratio 20 100;
  latency_weight = float_ratio 20 100;
  party_weight = float_ratio 10 100;
  wait_weight = float_ratio 10 100;
  initial_rating_range = float 100;
  max_rating_range = float 400;
  rating_expansion_per_second = float 2;
  initial_latency_ms = pos 120;
  max_latency_ms = pos 250;
  latency_expansion_per_second = float 1;
  role_relaxation_after = pos (60 * second);
  role_relaxation_per_second = float_ratio 5 10;
  max_non_preferred_role_score = float 50;
  min_quality_score = float 60;
  reservation_ttl = pos (15 * second);
  ticket_ttl = pos (600 * second);
}

unfoldable pub beam_policy : MatchPolicy
unfolding default_policy
beam_policy = record default_policy { version = codes "v2-beam"; team_algorithm = beam }

abbrev pub invalid_non_negative_float : Float64 → Bool
invalid_non_negative_float value = is_nan value || is_inf value || float_lt value (float 0)

abbrev pub is_known : TeamAlgorithm → Bool
is_known (unknown_algorithm a) = false
is_known _ = true

-- The loop that adds up the weights.
unfoldable pub add_weights : Float64 → List Float64 → Result Float64
add_weights total [] = ok total
add_weights total (weight ∷ weights) = do
  reject_if
      (is_nan weight || is_inf weight || float_lt weight (float 0) || float_lt (float 1) weight)
      invalid_policy
  add_weights (float_add total weight) weights

abbrev pub weights_of : MatchPolicy → List Float64
weights_of p =
    p.skill_weight ∷ p.role_weight ∷ p.latency_weight ∷ p.party_weight ∷ p.wait_weight ∷ []

unfoldable pub validate : MatchPolicy → Result (Unit {0})
unfolding add_weights
validate p = do
  total ← add_weights (float 0) (weights_of p)
  reject_if (float_lt (float_ratio 1 1000000000) (float_abs (float_sub total (float 1))))
      invalid_policy
  reject_if
      (is_empty (trim_space p.version)
        || not (int_beq p.team_size (pos 5))
        || ltb_ℤ p.candidate_limit (p.team_size *ℤ pos 2))
      invalid_policy
  reject_if
      (not (is_known p.team_algorithm)
        || ltb_ℤ p.beam_width (pos 1)
        || ltb_ℤ (pos 1024) p.beam_width)
      invalid_policy
  reject_if
      (float_lt p.initial_rating_range (float 0)
        || float_lt p.max_rating_range p.initial_rating_range
        || invalid_non_negative_float p.rating_expansion_per_second)
      invalid_policy
  reject_if
      (leb_ℤ p.initial_latency_ms (pos 0)
        || ltb_ℤ p.max_latency_ms p.initial_latency_ms
        || invalid_non_negative_float p.latency_expansion_per_second)
      invalid_policy
  reject_if
      (ltb_ℤ p.role_relaxation_after (pos 0)
        || invalid_non_negative_float p.role_relaxation_per_second
        || is_nan p.max_non_preferred_role_score
        || is_inf p.max_non_preferred_role_score
        || float_lt p.max_non_preferred_role_score (float 0)
        || float_lt (float 100) p.max_non_preferred_role_score)
      invalid_policy
  reject_if (float_lt p.min_quality_score (float 0) || float_lt (float 100) p.min_quality_score)
      invalid_policy
  reject_if (leb_ℤ p.reservation_ttl (pos 0) || leb_ℤ p.ticket_ttl (pos 0)) invalid_policy

-- `d / 2`, which drops the fraction.
abbrev pub half : Duration → Duration
half (pos n) = pos (n / 2)
half (negsuc n) = pos 0 -ℤ pos (suc n / 2)

abbrev pub normal_of : MatchPolicy → MatchPolicy
normal_of p = record p {
  initial_rating_range = float_mul p.initial_rating_range (float_ratio 3 2);
  max_rating_range = float_mul p.max_rating_range (float_ratio 3 2);
  rating_expansion_per_second = float_mul p.rating_expansion_per_second (float 2);
  role_relaxation_after = half p.role_relaxation_after;
  role_relaxation_per_second = float_mul p.role_relaxation_per_second (float 2);
  min_quality_score = float_max (float 0) (float_sub p.min_quality_score (float 10));
}

abbrev pub training_of : MatchPolicy → MatchPolicy
training_of p = record p {
  initial_rating_range = float_max p.initial_rating_range (float 10000);
  max_rating_range = float_max p.initial_rating_range (float 10000);
  rating_expansion_per_second = float 0;
  initial_latency_ms = pos 1000;
  max_latency_ms = pos 1000;
  latency_expansion_per_second = float 0;
  role_relaxation_after = pos 0;
  role_relaxation_per_second = float 100;
  max_non_preferred_role_score = float 100;
  min_quality_score = float 0;
}

-- The cases of the `switch`; a parsed mode is one of the three.
abbrev pub adapt : MatchPolicy → Text → MatchPolicy
adapt p mode_id =
    if mode_id == Mode.ranked_5v5
    then p
    else if mode_id == Mode.normal_5v5
    then normal_of p
    else if mode_id == Mode.training_5v5
    then training_of p
    else p

unfoldable pub for_mode : MatchPolicy → Text → Result MatchPolicy
for_mode p value = do
  mode_id ← parse_mode invalid_policy value
  validate (adapt p mode_id)
  ok (adapt p mode_id)
