-- ===== src/Examples/Policies.antt =====
-- The registry with the two policies of the service.
use match_mind.Policy
use match_mind.Base.{[], none, ok, refl, ◌∷◌, ◌≡◌, List, length, lookup, some, true, insert}
use match_mind.Base.Int.{pos}
use match_mind.Policy.{beam_policy, default_policy}
use match_mind.PolicyManager.{
  PolicyManager, new_policy_manager, PolicyExperiment, activate_approved_policy, policy_beq,
  normalize_experiment,
}
use match_mind.PolicyManager.Activation.{activate_approved_policy_retry}
use match_mind.PolicyManager.Runs.{
  activates, begins, stops, apply_calls, ManagerCall, registered_forever, select_policy-valid,
}
use match_mind.PolicyManager.Selection.{select_policy}
use match_mind.Text.{codes, text_eq, text_beq, trim_space}

abbrev two_policies : PolicyManager
two_policies = record {
  policies = (codes "v1-greedy", default_policy) ∷ (codes "v2-beam", beam_policy) ∷ [];
  default_version = codes "v1-greedy";
  experiment = none;
}

pub default_policy_valid : Policy.validate default_policy ≡ ok tt
unfolding Policy.validate default_policy match_mind.Float64.rounded match_mind.Float64.unit
    match_mind.Float64.float_lt match_mind.Float64.float_add match_mind.Base.Int.◌+ℤ◌
    match_mind.Base.Int.◌-ℤ◌ match_mind.Text.trim_space match_mind.Base.Int.◌*ℤ◌
default_policy_valid = refl

beam_policy_valid : Policy.validate beam_policy ≡ ok tt
unfolding Policy.validate beam_policy match_mind.Float64.rounded match_mind.Float64.unit
    match_mind.Float64.float_lt match_mind.Float64.float_add match_mind.Base.Int.◌+ℤ◌
    match_mind.Base.Int.◌-ℤ◌ match_mind.Text.trim_space match_mind.Base.Int.◌*ℤ◌
beam_policy_valid = refl

two_policies_lem :
    new_policy_manager (default_policy ∷ beam_policy ∷ []) (codes "v1-greedy ") ≡ ok two_policies
unfolding new_policy_manager Policy.validate default_policy match_mind.Float64.rounded
    match_mind.Float64.unit match_mind.Float64.float_lt match_mind.Float64.float_add
    match_mind.Base.Int.◌+ℤ◌ match_mind.Base.Int.◌-ℤ◌ match_mind.Text.trim_space
    match_mind.Base.Int.◌*ℤ◌ match_mind.Base.lookup beam_policy match_mind.Base.insert
    match_mind.Text.text_beq
two_policies_lem = refl

abbrev split : PolicyExperiment
split = record {
  id = codes "e1";
  control_version = codes "v1-greedy";
  treatment_version = codes "v2-beam";
  treatment_basis_points = pos 5000;
  assignment_salt = codes "salt";
  started_at = 9;
}

abbrev with_split : PolicyManager
with_split = record two_policies { experiment = some split }

beam_policy-equal : policy_beq beam_policy beam_policy ≡ true
unfolding policy_beq match_mind.PolicyManager.same_search match_mind.Text.text_beq beam_policy
    match_mind.PolicyManager.same_weights match_mind.Float64.float_le match_mind.Float64.rounded
    match_mind.Float64.unit match_mind.PolicyManager.same_ranges
    match_mind.PolicyManager.same_scores match_mind.PolicyManager.same_latencies
    match_mind.PolicyManager.same_times
beam_policy-equal = refl

activate_split : activate_approved_policy two_policies beam_policy split ≡ ok with_split
unfolding activate_approved_policy normalize_experiment trim_space lookup insert text_beq
    beam_policy
activate_split = rw (beam_policy_valid, beam_policy-equal) refl

activate_approved_policy_retry_example :
    activate_approved_policy with_split beam_policy split ≡ ok with_split
activate_approved_policy_retry_example =
    activate_approved_policy_retry two_policies with_split beam_policy split beam_policy-equal
      activate_split

abbrev policy_calls : List ManagerCall
policy_calls = activates beam_policy split ∷ stops (codes "e1") ∷ begins split ∷ []

select_policy-valid_example :
    Policy.validate
      (select_policy (λ s. length s) (apply_calls two_policies policy_calls) (codes "ana")).policy
    ≡ ok tt
select_policy-valid_example =
    select_policy-valid (λ s. length s) (default_policy ∷ beam_policy ∷ []) (codes "v1-greedy ")
      two_policies policy_calls (codes "ana") two_policies_lem

greedy_registered : lookup (codes "v1-greedy") two_policies.policies ≡ some default_policy
unfolding lookup match_mind.Text.text_beq
greedy_registered = refl

registered_forever_example :
    lookup (codes "v1-greedy") (apply_calls two_policies policy_calls).policies
    ≡ some default_policy
registered_forever_example =
    registered_forever two_policies policy_calls (codes "v1-greedy") default_policy
      greedy_registered
