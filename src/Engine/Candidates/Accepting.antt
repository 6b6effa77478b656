-- ===== src/Engine/Candidates/Accepting.antt =====
-- What the accepted candidates have in common.
use match_mind.Base.{
  All, Bool, List, Option-cases, [], arith, false, if◌then◌else◌, inl, inr, insert, is_some, lookup,
  lookup-insert, none, some, true, ◌==◌, ◌∷◌, ◌≡◌, ap, refl, ◌∙◌,
}
use match_mind.Base.Int.{ℤ, ◌≤ℤ◌}
use match_mind.Engine.Candidates.{
  rejected, CandidateDecision, Decisions, Window, earlier_reason, group_rejection_reason,
  latency_reason, ticket_reason, accept_each, accepted_decision, reject_each,
}
use match_mind.Float64.{float_abs, float_lt, float_sub}
use match_mind.Text.{Text, is_empty, text_beq_iff, text_eq}
use match_mind.Ticket.{MatchTicket}

-- A ticket that passes the filters of the window.
pub record Fits (w : Window) (t : MatchTicket) : Type 0 where
  pub same_mode : t.mode ≡ w.anchor.mode
  pub same_version : t.client_version ≡ w.anchor.client_version
  pub same_region : t.region ≡ w.anchor.region
  pub latency : ℤ
  pub measured : lookup w.anchor.region t.region_latency ≡ some latency
  pub below_hard_limit : latency ≤ℤ w.max_latency_ms
  pub within_window : latency ≤ℤ w.latency_limit
  pub near_rating : float_lt w.rating_range (float_abs (float_sub t.rating w.anchor.rating)) ≡ false

ticket_reason-Fits : (w : Window) (t : MatchTicket) → is_empty (ticket_reason w t) ≡ true → Fits w t
unfolding ticket_reason latency_reason
ticket_reason-Fits w t h = elim (Option-cases (lookup w.anchor.region t.region_latency)) [
  | inl missing ↦ absurd (ground arith)
  | inr (latency, found) ↦ record {
    same_mode = ground (arith, text_beq_iff t.mode w.anchor.mode);
    same_version = ground (arith, text_beq_iff t.client_version w.anchor.client_version);
    same_region = ground (arith, text_beq_iff t.region w.anchor.region);
    latency = latency;
    measured = found;
    below_hard_limit = ground arith;
    within_window = ground arith;
    near_rating = ground arith;
  }
]

-- The decisions reject the ID.
abbrev pub rejects : Decisions → Text → Bool
rejects decisions id = is_some (earlier_reason decisions id)

-- A rejection has a reason.
abbrev pub Reasoned : Decisions → Type 0
Reasoned decisions =
    (id reason : Text) → earlier_reason decisions id ≡ some reason → is_empty reason ≡ false

pub earlier_reason-insert :
    (id j : Text) (d : CandidateDecision) (decisions : Decisions)
    → earlier_reason (insert id d decisions) j ≡ (
        if id == j
        then (if d.accepted then none else some d.reason)
        else earlier_reason decisions j)
unfolding earlier_reason
earlier_reason-insert id j d decisions = ground (arith, lookup-insert id j d decisions)

pub Reasoned-insert :
    (id : Text) (d : CandidateDecision) (decisions : Decisions)
    → Reasoned decisions
    → (d.accepted ≡ false → is_empty d.reason ≡ false)
    → Reasoned (insert id d decisions)
Reasoned-insert id d decisions v named j reason h =
    ground (arith, earlier_reason-insert id j d decisions, v j reason, named)

-- No ticket of a group without a reason is rejected, and all of them fit.
pub group-Fits :
    (w : Window) (decisions : Decisions) (ts : List MatchTicket)
    → Reasoned decisions
    → is_empty (group_rejection_reason w decisions ts) ≡ true
    → All (λ t. Fits w t × (rejects decisions t.id ≡ false)) ts
unfolding group_rejection_reason
group-Fits w decisions [] v h = tt
group-Fits w decisions (t ∷ ts) v h = elim (Option-cases (earlier_reason decisions t.id)) [
  | inr (reason, found) ↦ absurd (ground (arith, v t.id reason found))
  | inl free ↦ (
    (ticket_reason-Fits w t (ground arith), ground arith),
    group-Fits w decisions ts v (ground arith),
  )
]

pub accept_each-Reasoned :
    (ts : List MatchTicket) (decisions : Decisions)
    → Reasoned decisions
    → Reasoned (accept_each ts decisions)
unfolding accept_each
accept_each-Reasoned [] decisions v = v
accept_each-Reasoned (t ∷ ts) decisions v =
    accept_each-Reasoned ts (insert t.id (accepted_decision t.id) decisions)
      (Reasoned-insert t.id (accepted_decision t.id) decisions v (λ e. absurd (ground arith)))

pub reject_each-Reasoned :
    (reason : Text) (ts : List MatchTicket) (decisions : Decisions)
    → is_empty reason ≡ false
    → Reasoned decisions
    → Reasoned (reject_each reason ts decisions)
unfolding reject_each
reject_each-Reasoned reason [] decisions named v = v
reject_each-Reasoned reason (t ∷ ts) decisions named v =
    reject_each-Reasoned reason ts _ named (elim (Option-cases (lookup t.id decisions)) [
      | inl free ↦ rw free (Reasoned-insert t.id (rejected t.id reason) decisions v (λ e. named))
      | inr (d, found) ↦ rw found v
    ])

-- Accepting tickets of other IDs leaves the rejection of an ID.
pub accept_each-rejects :
    (ts : List MatchTicket) (decisions : Decisions) (id : Text)
    → All (λ t. (t.id == id) ≡ false) ts
    → rejects (accept_each ts decisions) id ≡ rejects decisions id
unfolding accept_each
accept_each-rejects [] decisions id others = refl
accept_each-rejects (t ∷ ts) decisions id (other, others) =
    accept_each-rejects ts (insert t.id (accepted_decision t.id) decisions) id others
    ∙ ap is_some (earlier_reason-insert t.id id (accepted_decision t.id) decisions)
    ∙ rw other refl

pub reject_each-rejects :
    (reason : Text) (ts : List MatchTicket) (decisions : Decisions) (id : Text)
    → rejects decisions id ≡ true
    → rejects (reject_each reason ts decisions) id ≡ true
unfolding reject_each
reject_each-rejects reason [] decisions id h = h
reject_each-rejects reason (t ∷ ts) decisions id h =
    reject_each-rejects reason ts _ id (elim (Option-cases (lookup t.id decisions)) [
      | inr (d, found) ↦ rw found h
      | inl free ↦ rw free (
          ap is_some (earlier_reason-insert t.id id (rejected t.id reason) decisions)
          ∙ ground arith)
    ])

pub unrejected :
    (decisions : Decisions) (ts : List MatchTicket) (id : Text)
    → All (λ t. rejects decisions t.id ≡ false) ts
    → rejects decisions id ≡ true
    → All (λ t. (t.id == id) ≡ false) ts
unrejected decisions [] id free h = tt
unrejected decisions (t ∷ ts) id (first, free) h =
    (ground (arith, text_beq_iff t.id id), unrejected decisions ts id free h)
