-- ===== src/PolicyManager/Selection.antt =====
-- policy_manager.go: what the registry tells.
use match_mind.Base.{
  List, Option, [], if◌then◌else◌, lookup_or, none, some, sort_stable, values, ℕ, ◌%◌, ◌++◌, ◌∷◌,
}
use match_mind.Base.Int.{ltb_ℤ, negsuc, pos, ℤ}
use match_mind.Float64.{Float64, float}
use match_mind.Policy.{MatchPolicy, unknown_algorithm}
use match_mind.PolicyManager.{PolicyExperiment, PolicyManager, PolicySelection}
use match_mind.Text.{Text, codes, text_lt, trim_space, text_eq}

abbrev zero_float : Float64
zero_float = float 0

-- What a missing key of the map gives.
abbrev pub zero_policy : MatchPolicy
zero_policy = record {
  version = [];
  team_size = pos 0;
  candidate_limit = pos 0;
  team_algorithm = unknown_algorithm [];
  beam_width = pos 0;
  skill_weight = zero_float;
  role_weight = zero_float;
  latency_weight = zero_float;
  party_weight = zero_float;
  wait_weight = zero_float;
  initial_rating_range = zero_float;
  max_rating_range = zero_float;
  rating_expansion_per_second = zero_float;
  initial_latency_ms = pos 0;
  max_latency_ms = pos 0;
  latency_expansion_per_second = zero_float;
  role_relaxation_after = pos 0;
  role_relaxation_per_second = zero_float;
  max_non_preferred_role_score = zero_float;
  min_quality_score = zero_float;
  reservation_ttl = pos 0;
  ticket_ttl = pos 0;
}

abbrev pub policy_of : PolicyManager → Text → MatchPolicy
policy_of m version = lookup_or zero_policy version m.policies

unfoldable pub default_of : PolicyManager → MatchPolicy
default_of m = policy_of m m.default_version

unfoldable pub experiment_bucket : (Text → ℕ) → PolicyExperiment → Text → ℕ
experiment_bucket digest e assignment_key =
    digest (e.assignment_salt ++ 0 ∷ e.id ++ 0 ∷ trim_space assignment_key) % 10000

unfoldable pub select_policy : (Text → ℕ) → PolicyManager → Text → PolicySelection
unfolding experiment_bucket
select_policy digest m assignment_key = elim m.experiment [
  | none ↦ record {
    policy = policy_of m m.default_version;
    experiment_id = [];
    variant = codes "default";
    bucket = negsuc 0;
  }
  | some e ↦
      let b = pos (experiment_bucket digest e assignment_key) in
      if ltb_ℤ b e.treatment_basis_points
      then record {
        policy = policy_of m e.treatment_version;
        experiment_id = e.id;
        variant = codes "treatment";
        bucket = b;
      }
      else record {
        policy = policy_of m e.control_version;
        experiment_id = e.id;
        variant = codes "control";
        bucket = b;
      }
]

unfoldable pub largest_limit : ℤ → List MatchPolicy → ℤ
largest_limit maximum [] = maximum
largest_limit maximum (p ∷ ps) =
    largest_limit (if ltb_ℤ maximum p.candidate_limit then p.candidate_limit else maximum) ps

unfoldable pub max_candidate_limit : PolicyManager → ℤ
unfolding largest_limit
max_candidate_limit m = largest_limit (pos 0) (values m.policies)

unfoldable pub policies_of : PolicyManager → List MatchPolicy
policies_of m = sort_stable (λ p q. text_lt p.version q.version) (values m.policies)

unfoldable pub active_experiment : PolicyManager → Option PolicyExperiment
active_experiment m = m.experiment
