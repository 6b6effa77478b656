-- ===== src/Examples/Proposals.antt =====
-- A proposal that is approved and activated.
use match_mind.Policy
use match_mind.Base.{[], false, ok, refl, true, ◌∷◌, ◌≡◌}
use match_mind.Base.Int.{pos}
use match_mind.Clock.{zero_time}
use match_mind.Float64.{float}
use match_mind.Policy.{beam_policy}
use match_mind.Proposal.{
  PolicyProposal, pending_approval, approved, activating, active, risk_pass, RiskFinding,
  RiskReport, begin_activation, complete_activation, new_policy_proposal, review,
}
use match_mind.Proposal.Duties.{IsActivated, IsApproved, active_proposal, any_blocks}
use match_mind.Proposal.Lifetime.{Lifetime, reviews, activates, goes_live, born, lives}
use match_mind.Text.{Text, codes}

abbrev finding : Text → RiskFinding
finding category = record {
  category = category;
  status = risk_pass;
  observed = float 1;
  threshold = float 2;
  message = codes "fine";
}

abbrev report : RiskReport
report = record {
  passed = true;
  sample_count = pos 100;
  findings =
      finding (codes "quality")
      ∷ finding (codes "wait")
      ∷ finding (codes "latency")
      ∷ finding (codes "fairness")
      ∷ finding (codes "afk")
      ∷ [];
}

abbrev proposed : PolicyProposal
proposed = record {
  id = codes "p1";
  run_id = codes "run";
  requested_by = codes "ana";
  base_policy_version = codes "v1-greedy";
  candidate_policy = beam_policy;
  rationale = codes "better" ∷ [];
  risk_report = report;
  state = pending_approval;
  reviewer_id = [];
  review_reason = [];
  reviewed_at = zero_time;
  experiment_id = [];
  activated_by = [];
  treatment_basis_points = pos 0;
  assignment_salt = [];
  activated_at = zero_time;
  rolled_back_by = [];
  rolled_back_at = zero_time;
  created_at = 5;
  updated_at = 5;
}

proposed_lem :
    new_policy_proposal
      (codes "p1")
      (codes "run")
      (codes "ana ")
      (codes "v1-greedy")
      beam_policy
      (codes "better" ∷ [])
      report
      5
    ≡ ok proposed
unfolding new_policy_proposal match_mind.Text.trim_space Policy.validate beam_policy
    match_mind.Float64.rounded match_mind.Float64.unit match_mind.Float64.float_lt
    match_mind.Float64.float_add match_mind.Base.Int.◌+ℤ◌ match_mind.Base.Int.◌-ℤ◌
    match_mind.Base.Int.◌*ℤ◌ match_mind.Proposal.validate_risk_report match_mind.Base.contains
    match_mind.Text.text_beq
proposed_lem = refl

abbrev approved_proposal : PolicyProposal
approved_proposal = record proposed {
  state = approved;
  reviewer_id = codes "bo";
  review_reason = codes "ok";
  reviewed_at = 6;
  updated_at = 6;
}

abbrev activating_proposal : PolicyProposal
activating_proposal = record approved_proposal {
  state = activating;
  activated_by = codes "cy";
  treatment_basis_points = pos 5000;
  assignment_salt = codes "salt";
  activated_at = 7;
  updated_at = 7;
}

abbrev active_one : PolicyProposal
active_one = record activating_proposal {
  state = active;
  experiment_id = codes "e1";
  updated_at = 8;
}

review_lem : review proposed (codes "bo") (codes "ok") true 6 ≡ ok approved_proposal
unfolding review match_mind.Text.trim_space match_mind.Text.text_beq
review_lem = refl

begin_lem :
    begin_activation approved_proposal (codes "cy") (pos 5000) (codes "salt") 7
    ≡ ok activating_proposal
unfolding begin_activation match_mind.Text.trim_space
begin_lem = refl

complete_lem : complete_activation activating_proposal (codes "e1") 8 ≡ ok active_one
unfolding complete_activation match_mind.Text.trim_space
complete_lem = refl

proposal_life : Lifetime proposed active_one
proposal_life =
    lives
      (lives (lives born (reviews (codes "bo") (codes "ok") true 6 review_lem))
        (activates (codes "cy") (pos 5000) (codes "salt") 7 begin_lem))
      (goes_live (codes "e1") 8 complete_lem)

active_proposal_example :
    (Policy.validate beam_policy ≡ ok tt)
    × (any_blocks report.findings ≡ false)
    × IsApproved active_one
    × IsActivated active_one
active_proposal_example =
    active_proposal (codes "p1") (codes "run") (codes "ana ") (codes "v1-greedy") beam_policy
      (codes "better" ∷ []) report 5 proposed_lem proposal_life refl
