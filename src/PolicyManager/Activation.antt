-- ===== src/PolicyManager/Activation.antt =====
-- What `ActivateApprovedPolicy` has checked when it succeeds, and what it has done.
use match_mind.Base.{
  Bool-cases, Option-cases, Result-cases, arith, false, inl, inr, is_some, lookup, ok, true, ◌==◌,
  ◌≡◌, ◌⊎◌, ap, eq_self, insert, lookup-insert, some, subst, sym, ◌∙◌,
}
use match_mind.Base.Int.{int_beq_refl}
use match_mind.Policy.{MatchPolicy, validate}
use match_mind.PolicyManager.{
  PolicyManager, PolicyExperiment, activate_approved_policy, conflicts, normalize_experiment,
  normalized_for, same_experiment, switch_experiment, with_experiment, policy_beq,
}
use match_mind.PolicyManager.Registry.{IsSound, with_experiment-IsSound, is_some-insert}
use match_mind.Text.{text_beq_iff, text_eq}

pub switch_experiment-or :
    (m m' : PolicyManager) (p : MatchPolicy) (n : PolicyExperiment)
    → switch_experiment m p n ≡ ok m'
    → (m' ≡ m) ⊎ (m' ≡ with_experiment m p n)
switch_experiment-or m m' p n h = elim (Option-cases m.experiment) [
  | inl idle ↦ inr (ground arith)
  | inr (d, found) ↦ elim (Bool-cases (d.id == n.id)) [
    | inr other ↦ inr (ground arith)
    | inl same ↦ elim (Bool-cases (same_experiment d n)) [
      | inl again ↦ inl (ground arith)
      | inr changed ↦ absurd (ground arith)
    ]
  ]
]

-- The checks, for the normalised experiment.
pub record Checked (m m' : PolicyManager) (p : MatchPolicy) (e n : PolicyExperiment) : Type 0 where
  pub valid : validate p ≡ ok tt
  pub normal : normalized_for p e ≡ ok n
  pub has_control : is_some (lookup n.control_version m.policies) ≡ true
  pub agrees : conflicts p m.policies ≡ false
  pub switched : switch_experiment m p n ≡ ok m'

pub activate-Checked :
    (m m' : PolicyManager) (p : MatchPolicy) (e : PolicyExperiment)
    → activate_approved_policy m p e ≡ ok m'
    → (n : PolicyExperiment) × Checked m m' p e n
unfolding activate_approved_policy
activate-Checked m m' p e h = elim (Result-cases (normalized_for p e)) [
  | inr (x, bad) ↦ absurd (ground arith)
  | inl (n, good) ↦ (
    n,
    record {
      valid = ground arith;
      normal = good;
      has_control = ground arith;
      agrees = ground arith;
      switched = ground arith;
    },
  )
]

normalized_for-treatment :
    (p : MatchPolicy) (e n : PolicyExperiment)
    → normalized_for p e ≡ ok n
    → n.treatment_version ≡ p.version
normalized_for-treatment p e n h = elim (Result-cases (normalize_experiment e)) [
  | inr (x, bad) ↦ absurd (ground arith)
  | inl (k, good) ↦ ground (arith, text_beq_iff k.treatment_version p.version)
]

pub activate_approved_policy-IsSound :
    (m m' : PolicyManager) (p : MatchPolicy) (e : PolicyExperiment)
    → activate_approved_policy m p e ≡ ok m'
    → IsSound m
    → IsSound m'
activate_approved_policy-IsSound m m' p e h v =
    let (n, c) = activate-Checked m m' p e h in
    elim (switch_experiment-or m m' p n c.switched) [
      | inl same ↦ rw same v
      | inr new ↦ rw new (
          with_experiment-IsSound m p n v c.valid (normalized_for-treatment p e n c.normal)
            c.has_control)
    ]

with_experiment_again :
    (m : PolicyManager) (p : MatchPolicy) (e n : PolicyExperiment)
    → policy_beq p p ≡ true
    → validate p ≡ ok tt
    → normalized_for p e ≡ ok n
    → is_some (lookup n.control_version m.policies) ≡ true
    → activate_approved_policy (with_experiment m p n) p e ≡ ok (with_experiment m p n)
unfolding activate_approved_policy
with_experiment_again m p e n self valid normal control =
    let found : lookup p.version (insert p.version p m.policies) ≡ some p =
      ground
        (arith, lookup-insert p.version p.version p m.policies, text_beq_iff p.version p.version) in
    let kept = is_some-insert p.version n.control_version p m.policies control in
    let agree : conflicts p (insert p.version p m.policies) ≡ false = ground arith in
    let again : switch_experiment (with_experiment m p n) p n ≡ ok (with_experiment m p n) =
      ground (
        arith,
        eq_self n.id,
        eq_self n.control_version,
        eq_self n.treatment_version,
        eq_self n.assignment_salt,
        int_beq_refl n.treatment_basis_points,
      ) in
    ground arith

-- Where a call of `ActivateApprovedPolicy` has succeeded, for a policy that equals itself (no field is
-- NaN), the same call on the registry that it left succeeds and changes nothing.
pub activate_approved_policy_retry :
    (m m' : PolicyManager) (p : MatchPolicy) (e : PolicyExperiment)
    → policy_beq p p ≡ true
    → activate_approved_policy m p e ≡ ok m'
    → activate_approved_policy m' p e ≡ ok m'
activate_approved_policy_retry m m' p e self h =
    let (n, c) = activate-Checked m m' p e h in
    elim (switch_experiment-or m m' p n c.switched) [
      | inl same ↦ subst (λ x. activate_approved_policy x p e ≡ ok x) (sym same) (h ∙ ap ok same)
      | inr new ↦
          subst (λ x. activate_approved_policy x p e ≡ ok x) (sym new)
            (with_experiment_again m p e n self c.valid c.normal c.has_control)
    ]
