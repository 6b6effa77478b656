-- ===== src/Proposal.antt =====
-- internal/agent/domain/agent.go: a policy that an agent proposes and people review. Cloning a slice gives
-- an equal value.
pub mod Duties
pub mod Lifetime
use match_mind.Policy
use match_mind.Base.{
  bool_beq, Bool, List, Result, [], contains, err, false, if◌then◌else◌, illegal_proposal_state,
  invalid_proposal, length, nat_beq, not, ok, reject_if, risk_review_blocked, separation_of_duties,
  true, ◌&&◌, ◌==◌, ◌>>=◌, ◌>>◌, ◌||◌, ◌∷◌,
}
use match_mind.Base.Int.{ltb_ℤ, pos, ℤ}
use match_mind.Clock.{Time, before, is_zero, utc, zero_time}
use match_mind.Float64.{Float64}
use match_mind.Policy.{MatchPolicy}
use match_mind.Text.{Text, is_empty, trim_space, text_eq}

pub data RiskStatus : Type 0 where
  risk_pass risk_warning risk_block : RiskStatus
  unknown_risk : Text → RiskStatus

pub record RiskFinding : Type 0 where
  pub category : Text
  pub status : RiskStatus
  pub observed : Float64
  pub threshold : Float64
  pub message : Text

pub record RiskReport : Type 0 where
  pub passed : Bool
  pub sample_count : ℤ
  pub findings : List RiskFinding

pub data ProposalState : Type 0 where
  pending_approval approved rejected activating active rolling_back rolled_back : ProposalState
  unknown_proposal : Text → ProposalState

pub record PolicyProposal : Type 0 where
  pub id : Text
  pub run_id : Text
  pub requested_by : Text
  pub base_policy_version : Text
  pub candidate_policy : MatchPolicy
  pub rationale : List Text
  pub risk_report : RiskReport
  pub state : ProposalState
  pub reviewer_id : Text
  pub review_reason : Text
  pub reviewed_at : Time
  pub experiment_id : Text
  pub activated_by : Text
  pub treatment_basis_points : ℤ
  pub assignment_salt : Text
  pub activated_at : Time
  pub rolled_back_by : Text
  pub rolled_back_at : Time
  pub created_at : Time
  pub updated_at : Time

abbrev is_known_risk : RiskStatus → Bool
is_known_risk (unknown_risk s) = false
is_known_risk _ = true

abbrev pub blocks : RiskFinding → Bool
blocks f = elim f.status [ risk_block ↦ true | _ ↦ false ]

-- Any error becomes that of the proposal.
abbrev or_invalid : Result (Unit {0}) → Result (Unit {0})
or_invalid (ok u) = ok u
or_invalid (err e) = err invalid_proposal

-- The loop over the findings: whether the report should say that it passed.
unfoldable pub scan_findings : Bool → List Text → List RiskFinding → Result Bool
scan_findings passed seen [] = ok passed
scan_findings passed seen (f ∷ fs) = do
  let category = trim_space f.category
  reject_if (is_empty category || is_empty (trim_space f.message)) invalid_proposal
  reject_if (contains category seen) invalid_proposal
  reject_if (not (is_known_risk f.status)) invalid_proposal
  scan_findings (passed && not (blocks f)) (category ∷ seen) fs

unfoldable pub validate_risk_report : RiskReport → Result (Unit {0})
unfolding scan_findings
validate_risk_report r = do
  reject_if (ltb_ℤ r.sample_count (pos 0) || not (nat_beq (length r.findings) 5)) invalid_proposal
  passed ← scan_findings true [] r.findings
  reject_if (not (bool_beq r.passed passed)) invalid_proposal

abbrev pub incomplete_proposal : PolicyProposal → Bool
incomplete_proposal p =
    is_empty p.id
    || is_empty p.run_id
    || is_empty p.requested_by
    || is_empty p.base_policy_version
    || nat_beq (length p.rationale) 0
    || is_zero p.created_at

unfoldable pub new_policy_proposal :
    Text → Text → Text → Text → MatchPolicy → List Text → RiskReport → Time → Result PolicyProposal
new_policy_proposal id run_id requested_by base_policy_version candidate rationale risk now = do
  let proposal : PolicyProposal = record {
    id = trim_space id;
    run_id = trim_space run_id;
    requested_by = trim_space requested_by;
    base_policy_version = trim_space base_policy_version;
    candidate_policy = candidate;
    rationale = rationale;
    risk_report = risk;
    state = pending_approval;
    reviewer_id = [];
    review_reason = [];
    reviewed_at = zero_time;
    experiment_id = [];
    activated_by = [];
    treatment_basis_points = pos 0;
    assignment_salt = [];
    activated_at = zero_time;
    rolled_back_by = [];
    rolled_back_at = zero_time;
    created_at = utc now;
    updated_at = utc now;
  }
  reject_if (incomplete_proposal proposal) invalid_proposal
  or_invalid (Policy.validate candidate)
  validate_risk_report risk
  ok proposal

abbrev is_pending : ProposalState → Bool
is_pending pending_approval = true
is_pending _ = false

abbrev is_approved : ProposalState → Bool
is_approved approved = true
is_approved _ = false

abbrev is_activating : ProposalState → Bool
is_activating activating = true
is_activating _ = false

abbrev pub is_live : ProposalState → Bool
is_live active = true
is_live _ = false

abbrev is_rolling_back : ProposalState → Bool
is_rolling_back rolling_back = true
is_rolling_back _ = false

unfoldable pub review : PolicyProposal → Text → Text → Bool → Time → Result PolicyProposal
review p reviewer_id reason approve now = do
  let reviewer = trim_space reviewer_id
  let why = trim_space reason
  reject_if (not (is_pending p.state)) illegal_proposal_state
  reject_if (is_empty reviewer || is_empty why || before now p.created_at) invalid_proposal
  reject_if (reviewer == p.requested_by) separation_of_duties
  reject_if (approve && not p.risk_report.passed) risk_review_blocked
  ok (record p {
    reviewer_id = reviewer;
    review_reason = why;
    reviewed_at = utc now;
    state = if approve then approved else rejected;
    updated_at = utc now;
  })

unfoldable pub begin_activation : PolicyProposal → Text → ℤ → Text → Time → Result PolicyProposal
begin_activation p operator_id treatment_basis_points assignment_salt now = do
  let operator = trim_space operator_id
  let salt = trim_space assignment_salt
  reject_if (not (is_approved p.state)) illegal_proposal_state
  reject_if
      (is_empty operator
        || ltb_ℤ treatment_basis_points (pos 1)
        || ltb_ℤ (pos 10000) treatment_basis_points
        || is_empty salt
        || before now p.reviewed_at)
      invalid_proposal
  ok (record p {
    state = activating;
    activated_by = operator;
    treatment_basis_points = treatment_basis_points;
    assignment_salt = salt;
    activated_at = utc now;
    updated_at = utc now;
  })

unfoldable pub complete_activation : PolicyProposal → Text → Time → Result PolicyProposal
complete_activation p experiment_id now = do
  let experiment = trim_space experiment_id
  reject_if (not (is_activating p.state)) illegal_proposal_state
  reject_if (is_empty experiment || before now p.activated_at) invalid_proposal
  ok (record p { state = active; experiment_id = experiment; updated_at = utc now })

unfoldable pub begin_rollback : PolicyProposal → Text → Time → Result PolicyProposal
begin_rollback p operator_id now = do
  let operator = trim_space operator_id
  reject_if (not (is_live p.state)) illegal_proposal_state
  reject_if (is_empty operator || before now p.activated_at) invalid_proposal
  ok (record p {
    state = rolling_back;
    rolled_back_by = operator;
    rolled_back_at = utc now;
    updated_at = utc now;
  })

unfoldable pub complete_rollback : PolicyProposal → Time → Result PolicyProposal
complete_rollback p now = do
  reject_if (not (is_rolling_back p.state)) illegal_proposal_state
  reject_if (before now p.rolled_back_at) invalid_proposal
  ok (record p { state = rolled_back; updated_at = utc now })
