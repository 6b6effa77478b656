-- ===== src/Proposal/Lifetime.antt =====
-- The calls that a proposal sees, as a step relation: each constructor is a method that succeeds.
use match_mind.Base.{Bool, arith, ok, refl, ◌∙◌, ◌≡◌}
use match_mind.Base.Int.{ℤ}
use match_mind.Clock.{Time}
use match_mind.Proposal.{
  PolicyProposal, begin_activation, begin_rollback, complete_activation, complete_rollback, review,
}
use match_mind.Text.{Text}

pub data ProposalStep (p : PolicyProposal) : PolicyProposal → Type 0 where
  reviews :
      {q : PolicyProposal} (reviewer reason : Text) (approve : Bool) (now : Time)
      → review p reviewer reason approve now ≡ ok q
      → ProposalStep p q
  activates :
      {q : PolicyProposal} (operator : Text) (basis_points : ℤ) (salt : Text) (now : Time)
      → begin_activation p operator basis_points salt now ≡ ok q
      → ProposalStep p q
  goes_live :
      {q : PolicyProposal} (experiment_id : Text) (now : Time)
      → complete_activation p experiment_id now ≡ ok q
      → ProposalStep p q
  rolls_back :
      {q : PolicyProposal} (operator : Text) (now : Time)
      → begin_rollback p operator now ≡ ok q
      → ProposalStep p q
  is_rolled_back :
      {q : PolicyProposal} (now : Time) → complete_rollback p now ≡ ok q → ProposalStep p q

pub data Lifetime (p : PolicyProposal) : PolicyProposal → Type 0 where
  born : Lifetime p p
  lives : {q r : PolicyProposal} → Lifetime p q → ProposalStep q r → Lifetime p r

-- What was proposed stays what it was.
pub record Same (p q : PolicyProposal) : Type 0 where
  pub same_requester : q.requested_by ≡ p.requested_by
  pub same_candidate : q.candidate_policy ≡ p.candidate_policy
  pub same_report : q.risk_report ≡ p.risk_report
  pub same_creation : q.created_at ≡ p.created_at

ProposalStep-Same : {p q : PolicyProposal} → ProposalStep p q → Same p q
unfolding review begin_activation complete_activation begin_rollback complete_rollback
ProposalStep-Same (reviews reviewer reason approve now h) = ground arith
ProposalStep-Same (activates operator basis_points salt now h) = ground arith
ProposalStep-Same (goes_live experiment_id now h) = ground arith
ProposalStep-Same (rolls_back operator now h) = ground arith
ProposalStep-Same (is_rolled_back now h) = ground arith

pub Lifetime-Same : {p q : PolicyProposal} → Lifetime p q → Same p q
Lifetime-Same born = record {
  same_requester = refl;
  same_candidate = refl;
  same_report = refl;
  same_creation = refl;
}
Lifetime-Same (lives r s) =
    let a = Lifetime-Same r in
    let b = ProposalStep-Same s in
    record {
      same_requester = b.same_requester ∙ a.same_requester;
      same_candidate = b.same_candidate ∙ a.same_candidate;
      same_report = b.same_report ∙ a.same_report;
      same_creation = b.same_creation ∙ a.same_creation;
    }
