-- ===== src/Proposal/Duties.antt =====
-- Who answers for a proposal, and when.
use match_mind.Policy
use match_mind.Base.{
  Bool, List, Result-cases, [], arith, false, inl, inr, not, ok, refl, true, ◌&&◌, ◌==◌, ◌||◌, ◌∷◌,
  ◌≡◌, ◌≤◌,
}
use match_mind.Base.Int.{ltb_ℤ, pos}
use match_mind.Clock.{Time}
use match_mind.Policy.{MatchPolicy}
use match_mind.Proposal.{
  pending_approval, rejected, activating, active, rolling_back, rolled_back, unknown_proposal,
  PolicyProposal, ProposalState, RiskFinding, RiskReport, begin_activation, begin_rollback, blocks,
  complete_activation, complete_rollback, is_live, new_policy_proposal, review, scan_findings,
  validate_risk_report,
}
use match_mind.Proposal.Lifetime.{
  reviews, activates, goes_live, rolls_back, is_rolled_back, born, lives, Lifetime-Same, Lifetime,
  ProposalStep,
}
use match_mind.Text.{Text, is_empty, trim_space, text_eq}

-- Has a reviewer approved a proposal in this state?
abbrev pub is_past_review : ProposalState → Bool
is_past_review pending_approval = false
is_past_review rejected = false
is_past_review (unknown_proposal s) = false
is_past_review _ = true

-- Has an operator started an activation?
abbrev pub is_past_activation : ProposalState → Bool
is_past_activation activating = true
is_past_activation active = true
is_past_activation rolling_back = true
is_past_activation rolled_back = true
is_past_activation _ = false

-- Somebody else than the requester approved it, after it was made, and its report let it pass.
pub record IsApproved (p : PolicyProposal) : Type 0 where
  pub has_reviewer : is_empty p.reviewer_id ≡ false
  pub has_reason : is_empty p.review_reason ≡ false
  pub other_person : (p.reviewer_id == p.requested_by) ≡ false
  pub report_passed : p.risk_report.passed ≡ true
  pub review_order : p.created_at ≤ p.reviewed_at

-- An operator set it to work, after the review, on a share of the traffic.
pub record IsActivated (p : PolicyProposal) : Type 0 where
  pub has_operator : is_empty p.activated_by ≡ false
  pub has_salt : is_empty p.assignment_salt ≡ false
  pub share_low : ltb_ℤ p.treatment_basis_points (pos 1) ≡ false
  pub share_high : ltb_ℤ (pos 10000) p.treatment_basis_points ≡ false
  pub activation_order : p.reviewed_at ≤ p.activated_at

pub record Duties (p : PolicyProposal) : Type 0 where
  pub approval : is_past_review p.state ≡ true → IsApproved p
  pub activation : is_past_activation p.state ≡ true → IsActivated p

ProposalStep-approval :
    {p q : PolicyProposal}
    → ProposalStep p q
    → Duties p
    → is_past_review q.state ≡ true
    → IsApproved q
unfolding review begin_activation complete_activation begin_rollback complete_rollback
ProposalStep-approval (reviews reviewer reason approve now h) d r = ground arith
ProposalStep-approval (activates operator basis_points salt now h) d r = ground (arith, d.approval)
ProposalStep-approval (goes_live experiment_id now h) d r = ground (arith, d.approval)
ProposalStep-approval (rolls_back operator now h) d r = ground (arith, d.approval)
ProposalStep-approval (is_rolled_back now h) d r = ground (arith, d.approval)

ProposalStep-activation :
    {p q : PolicyProposal}
    → ProposalStep p q
    → Duties p
    → is_past_activation q.state ≡ true
    → IsActivated q
unfolding review begin_activation complete_activation begin_rollback complete_rollback
ProposalStep-activation (reviews reviewer reason approve now h) d r = absurd (ground arith)
ProposalStep-activation (activates operator basis_points salt now h) d r = ground arith
ProposalStep-activation (goes_live experiment_id now h) d r = ground (arith, d.activation)
ProposalStep-activation (rolls_back operator now h) d r = ground (arith, d.activation)
ProposalStep-activation (is_rolled_back now h) d r = ground (arith, d.activation)

Lifetime-Duties : {p q : PolicyProposal} → Lifetime p q → Duties p → Duties q
Lifetime-Duties born d = d
Lifetime-Duties (lives r s) d =
    let e = Lifetime-Duties r d in
    record { approval = ProposalStep-approval s e; activation = ProposalStep-activation s e }

-- Does a finding block?
abbrev pub any_blocks : List RiskFinding → Bool
any_blocks [] = false
any_blocks (f ∷ fs) = blocks f || any_blocks fs

scan_findings-any_blocks :
    (passed : Bool) (seen : List Text) (fs : List RiskFinding)
    → scan_findings passed seen fs ≡ ok true
    → (passed ≡ true) × (any_blocks fs ≡ false)
unfolding scan_findings
scan_findings-any_blocks passed seen [] h = (ground arith, refl)
scan_findings-any_blocks passed seen (f ∷ fs) h =
    let (a, b) =
      scan_findings-any_blocks (passed && not (blocks f)) (trim_space f.category ∷ seen) fs
        (ground arith) in
    (ground arith, ground arith)

passed_report :
    (r : RiskReport)
    → validate_risk_report r ≡ ok tt
    → r.passed ≡ true
    → any_blocks r.findings ≡ false
unfolding validate_risk_report
passed_report r h p = elim (Result-cases (scan_findings true [] r.findings)) [
  | inr (x, bad) ↦ ground arith
  | inl (passed, good) ↦ (scan_findings-any_blocks true [] r.findings (ground arith)).1
]

-- What `NewPolicyProposal` has checked.
new_policy_proposal-checked :
    (id run requester base : Text) (candidate : MatchPolicy) (rationale : List Text)
    (risk : RiskReport) (now : Time) (p : PolicyProposal)
    → new_policy_proposal id run requester base candidate rationale risk now ≡ ok p
    → (Policy.validate p.candidate_policy ≡ ok tt)
      × (validate_risk_report p.risk_report ≡ ok tt)
      × Duties p
unfolding new_policy_proposal
new_policy_proposal-checked id run requester base candidate rationale risk now p h =
    elim (Result-cases (Policy.validate candidate)) [
      | inr (x, bad) ↦ absurd (ground arith)
      | inl (u, good) ↦ elim (Result-cases (validate_risk_report risk)) [
        | inr (x, bad) ↦ absurd (ground arith)
        | inl (v, fine) ↦ (
          ground arith,
          ground arith,
          record { approval = λ r. absurd (ground arith); activation = λ r. absurd (ground arith) },
        )
      ]
    ]

-- A proposal that is active after any sequence of successful calls on a new one has a candidate policy
-- that is valid and a risk report without a blocking finding, was approved by somebody other than its
-- requester at a time not before its creation, and was activated by an operator at a time not before the
-- review for 1 to 10000 basis points.
pub active_proposal :
    (id run requester base : Text) (candidate : MatchPolicy) (rationale : List Text)
    (risk : RiskReport) (now : Time) {p q : PolicyProposal}
    → new_policy_proposal id run requester base candidate rationale risk now ≡ ok p
    → Lifetime p q
    → is_live q.state ≡ true
    → (Policy.validate q.candidate_policy ≡ ok tt)
      × (any_blocks q.risk_report.findings ≡ false)
      × IsApproved q
      × IsActivated q
active_proposal id run requester base candidate rationale risk now {p} {q} h r live =
    let (valid, reported, d) =
      new_policy_proposal-checked id run requester base candidate rationale risk now p h in
    let same = Lifetime-Same r in
    let e = Lifetime-Duties r d in
    let a = e.approval (ground arith) in
    (
      rw same.same_candidate valid,
      rw same.same_report (passed_report p.risk_report reported (ground arith)),
      a,
      e.activation (ground arith),
    )
