-- ===== src/PolicyManager.antt =====
-- internal/matchmaking/application/policy_manager.go: the registry of policies and its one experiment.
-- `digest` stands for the first eight bytes of SHA-256, as a number.
use match_mind.Base.{
  Bool, List, Map, Option, Result, [], err, experiment_active, experiment_not_active, false,
  if◌then◌else◌, insert, invalid_experiment, invalid_policy, is_some, lookup, none, not, ok,
  policy_not_found, reject_if, some, true, ◌&&◌, ◌==◌, ◌>>=◌, ◌>>◌, ◌||◌, ◌∷◌,
}
use match_mind.Base.Int.{int_beq, ltb_ℤ, pos, ℤ}
use match_mind.Clock.{Time, is_zero, utc}
use match_mind.Float64.{float_eq}
use match_mind.Policy.{greedy, beam, unknown_algorithm, MatchPolicy, TeamAlgorithm, validate}
use match_mind.Text.{Text, is_empty, trim_space, text_eq}
pub mod Equality
pub mod Activation
pub mod Registry
pub mod Runs
pub mod Selection

pub record PolicyExperiment : Type 0 where
  pub id : Text
  pub control_version : Text
  pub treatment_version : Text
  pub treatment_basis_points : ℤ
  pub assignment_salt : Text
  pub started_at : Time

pub record PolicySelection : Type 0 where
  pub policy : MatchPolicy
  pub experiment_id : Text
  pub variant : Text
  pub bucket : ℤ

pub record PolicyManager : Type 0 where
  pub policies : Map Text MatchPolicy
  pub default_version : Text
  pub experiment : Option PolicyExperiment

abbrev pub algorithm_beq : TeamAlgorithm → TeamAlgorithm → Bool
algorithm_beq greedy greedy = true
algorithm_beq beam beam = true
algorithm_beq (unknown_algorithm a) (unknown_algorithm b) = a == b
algorithm_beq _ _ = false

-- `==` on two policies is field by field; the tests are grouped by what the fields are about.
unfoldable pub same_search : MatchPolicy → MatchPolicy → Bool
same_search p q =
    p.version == q.version
    && int_beq p.team_size q.team_size
    && int_beq p.candidate_limit q.candidate_limit
    && algorithm_beq p.team_algorithm q.team_algorithm
    && int_beq p.beam_width q.beam_width

unfoldable pub same_weights : MatchPolicy → MatchPolicy → Bool
same_weights p q =
    float_eq p.skill_weight q.skill_weight
    && float_eq p.role_weight q.role_weight
    && float_eq p.latency_weight q.latency_weight
    && float_eq p.party_weight q.party_weight
    && float_eq p.wait_weight q.wait_weight

unfoldable pub same_ranges : MatchPolicy → MatchPolicy → Bool
same_ranges p q =
    float_eq p.initial_rating_range q.initial_rating_range
    && float_eq p.max_rating_range q.max_rating_range
    && float_eq p.rating_expansion_per_second q.rating_expansion_per_second
    && float_eq p.latency_expansion_per_second q.latency_expansion_per_second

unfoldable pub same_scores : MatchPolicy → MatchPolicy → Bool
same_scores p q =
    float_eq p.role_relaxation_per_second q.role_relaxation_per_second
    && float_eq p.max_non_preferred_role_score q.max_non_preferred_role_score
    && float_eq p.min_quality_score q.min_quality_score

unfoldable pub same_latencies : MatchPolicy → MatchPolicy → Bool
same_latencies p q =
    int_beq p.initial_latency_ms q.initial_latency_ms && int_beq p.max_latency_ms q.max_latency_ms

unfoldable pub same_times : MatchPolicy → MatchPolicy → Bool
same_times p q =
    int_beq p.role_relaxation_after q.role_relaxation_after
    && int_beq p.reservation_ttl q.reservation_ttl
    && int_beq p.ticket_ttl q.ticket_ttl

unfoldable pub policy_beq : MatchPolicy → MatchPolicy → Bool
policy_beq p q =
    same_search p q
    && same_weights p q
    && same_ranges p q
    && same_scores p q
    && same_latencies p q
    && same_times p q

-- The loop of the constructor.
unfoldable pub register_all :
    Map Text MatchPolicy → List MatchPolicy → Result (Map Text MatchPolicy)
register_all registered [] = ok registered
register_all registered (p ∷ ps) = do
  validate p
  reject_if (is_some (lookup p.version registered)) invalid_policy
  register_all (insert p.version p registered) ps

unfoldable pub new_policy_manager : List MatchPolicy → Text → Result PolicyManager
unfolding register_all
new_policy_manager policies default_version = do
  registered ← register_all [] policies
  let version = trim_space default_version
  reject_if (not (is_some (lookup version registered))) policy_not_found
  ok (record { policies = registered; default_version = version; experiment = none })

abbrev pub trim_experiment : PolicyExperiment → PolicyExperiment
trim_experiment e = record e {
  id = trim_space e.id;
  control_version = trim_space e.control_version;
  treatment_version = trim_space e.treatment_version;
  assignment_salt = trim_space e.assignment_salt;
}

abbrev pub bad_experiment : PolicyExperiment → Bool
bad_experiment e =
    is_empty e.id
    || e.control_version == e.treatment_version
    || ltb_ℤ e.treatment_basis_points (pos 0)
    || ltb_ℤ (pos 10000) e.treatment_basis_points
    || is_empty e.assignment_salt
    || is_zero e.started_at

unfoldable pub normalize_experiment : PolicyExperiment → Result PolicyExperiment
normalize_experiment e = do
  reject_if (bad_experiment (trim_experiment e)) invalid_experiment
  ok (record (trim_experiment e) { started_at = utc e.started_at })

unfoldable pub start_experiment : PolicyManager → PolicyExperiment → Result PolicyManager
start_experiment m e = do
  n ← normalize_experiment e
  reject_if (is_some m.experiment) experiment_active
  reject_if (not (is_some (lookup n.control_version m.policies))) policy_not_found
  reject_if (not (is_some (lookup n.treatment_version m.policies))) policy_not_found
  ok (record m { experiment = some (record n { started_at = utc n.started_at }) })

-- Is another policy registered under the version?
abbrev pub conflicts : MatchPolicy → Map Text MatchPolicy → Bool
conflicts p policies = elim (lookup p.version policies) [
  | none ↦ false
  | some existing ↦ not (policy_beq existing p)
]

unfoldable pub register_policy : PolicyManager → MatchPolicy → Result PolicyManager
register_policy m p = do
  validate p
  reject_if (conflicts p m.policies) invalid_policy
  ok (record m { policies = insert p.version p m.policies })

-- The experiments agree but for the start.
abbrev pub same_experiment : PolicyExperiment → PolicyExperiment → Bool
same_experiment d e =
    d.control_version == e.control_version
    && d.treatment_version == e.treatment_version
    && int_beq d.treatment_basis_points e.treatment_basis_points
    && d.assignment_salt == e.assignment_salt

-- `normalizeExperiment` and the check of the treatment, which report one error.
abbrev pub normalized_for : MatchPolicy → PolicyExperiment → Result PolicyExperiment
normalized_for p e = elim (normalize_experiment e) [
  | err x ↦ err invalid_experiment
  | ok n ↦ if n.treatment_version == p.version then ok n else err invalid_experiment
]

abbrev pub with_experiment : PolicyManager → MatchPolicy → PolicyExperiment → PolicyManager
with_experiment m p e = record m { policies = insert p.version p m.policies; experiment = some e }

-- The part of `ActivateApprovedPolicy` that looks at the running experiment.
abbrev pub switch_experiment : PolicyManager → MatchPolicy → PolicyExperiment → Result PolicyManager
switch_experiment m p n = elim m.experiment [
  | none ↦ ok (with_experiment m p n)
  | some d ↦
      if d.id == n.id
      then (if same_experiment d n then ok m else err invalid_experiment)
      else ok (with_experiment m p n)
]

unfoldable pub activate_approved_policy :
    PolicyManager → MatchPolicy → PolicyExperiment → Result PolicyManager
activate_approved_policy m p e = do
  validate p
  n ← normalized_for p e
  reject_if (not (is_some (lookup n.control_version m.policies))) policy_not_found
  reject_if (conflicts p m.policies) invalid_policy
  switch_experiment m p n

unfoldable pub stop_experiment : PolicyManager → Text → Result PolicyManager
stop_experiment m experiment_id = elim m.experiment [
  | none ↦ err experiment_not_active
  | some e ↦
      if e.id == trim_space experiment_id
      then ok (record m { experiment = none })
      else err experiment_not_active
]
