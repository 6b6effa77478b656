-- ===== src/Engine/Candidates/Selecting.antt =====
-- What `GenerateCandidates` selects.
use match_mind.Base.{
  All, Bool-cases, List, [], arith, false, inl, inr, true, ◌++◌, ◌∷◌, ◌≡◌, All-append, All-both,
  All-map, length, length-append, subst, sym, ◌+◌, ◌∙◌,
}
use match_mind.Base.Int.{ℤ, pos, ◌≤ℤ◌}
use match_mind.Engine.{TicketGroup}
use match_mind.Engine.Candidates.{
  Decisions, Window, reason_for, take_groups, accept_each, group_rejection_reason, reject_each,
}
use match_mind.Engine.Candidates.Accepting.{
  Fits, Reasoned, rejects, accept_each-Reasoned, accept_each-rejects, group-Fits,
  reject_each-Reasoned, reject_each-rejects, unrejected,
}
use match_mind.Text.{Text, is_empty, text_eq}
use match_mind.Ticket.{MatchTicket}

-- What is known of a ticket that has been taken.
abbrev pub Chosen : Window → Decisions → (MatchTicket → Type 0) → MatchTicket → Type 0
Chosen w start P t = (Fits w t × (rejects start t.id ≡ false)) × P t

-- Rejections are not taken back.
abbrev pub Kept : Decisions → Decisions → Type 0
Kept start decisions = (id : Text) → rejects start id ≡ true → rejects decisions id ≡ true

Kept-false :
    (start decisions : Decisions) (id : Text)
    → Kept start decisions
    → rejects decisions id ≡ false
    → rejects start id ≡ false
Kept-false start decisions id kept h = ground (arith, kept id)

reason_for-empty :
    (w : Window) (limit : ℤ) (taken : List MatchTicket) (decisions : Decisions) (g : TicketGroup)
    → is_empty (reason_for w limit taken decisions g) ≡ true
    → is_empty (group_rejection_reason w decisions g.tickets) ≡ true
unfolding reason_for
reason_for-empty w limit taken decisions g h = ground arith

reason_for-room :
    (w : Window) (limit : ℤ) (taken : List MatchTicket) (decisions : Decisions) (g : TicketGroup)
    → is_empty (reason_for w limit taken decisions g) ≡ true
    → pos (length taken + length g.tickets) ≤ℤ limit
unfolding reason_for
reason_for-room w limit taken decisions g h = ground arith

pub take_groups-limit :
    (w : Window) (limit : ℤ) (taken : List MatchTicket) (decisions : Decisions)
    (gs : List TicketGroup)
    → pos (length taken) ≤ℤ limit
    → pos (length (take_groups w limit taken decisions gs).0) ≤ℤ limit
unfolding take_groups
take_groups-limit w limit taken decisions [] h = h
take_groups-limit w limit taken decisions (g ∷ gs) h =
    elim (Bool-cases (is_empty (reason_for w limit taken decisions g))) [
      | inl accepted ↦ rw accepted (
          take_groups-limit w limit (taken ++ g.tickets) _ gs (
            subst (λ n. pos n ≤ℤ limit) (sym (length-append taken g.tickets))
              (reason_for-room w limit taken decisions g accepted)))
      | inr refused ↦ rw refused (take_groups-limit w limit taken _ gs h)
    ]

pub take_groups-Chosen :
    (w : Window) (limit : ℤ) (start : Decisions) (P : MatchTicket → Type 0)
    (taken : List MatchTicket) (decisions : Decisions) (gs : List TicketGroup)
    → Reasoned decisions
    → Kept start decisions
    → All (Chosen w start P) taken
    → All (λ g. All P g.tickets) gs
    → All (Chosen w start P) (take_groups w limit taken decisions gs).0
unfolding take_groups
take_groups-Chosen w limit start P taken decisions [] v kept chosen all = chosen
take_groups-Chosen w limit start P taken decisions (g ∷ gs) v kept chosen (one, all) =
    elim (Bool-cases (is_empty (reason_for w limit taken decisions g))) [
      | inl accepted ↦
          let fits =
            group-Fits w decisions g.tickets v
              (reason_for-empty w limit taken decisions g accepted) in
          let free =
            All-map (λ t. Fits w t × (rejects decisions t.id ≡ false))
              (λ t. rejects decisions t.id ≡ false) g.tickets (λ t h. h.1) fits in
          let here =
            All-map (λ t. Fits w t × (rejects decisions t.id ≡ false))
              (λ t. Fits w t × (rejects start t.id ≡ false)) g.tickets
              (λ t h. (h.0, Kept-false start decisions t.id kept h.1)) fits in
          rw accepted (
            take_groups-Chosen w limit start P (taken ++ g.tickets)
              (accept_each g.tickets decisions) gs (accept_each-Reasoned g.tickets decisions v)
              (λ id h.
                accept_each-rejects g.tickets decisions id
                  (unrejected decisions g.tickets id free (kept id h))
                ∙ kept id h)
              (All-append (Chosen w start P) taken g.tickets chosen
                (All-both (λ t. Fits w t × (rejects start t.id ≡ false)) P g.tickets here one))
              all)
      | inr refused ↦
          let reason = reason_for w limit taken decisions g in
          rw refused (
            take_groups-Chosen w limit start P taken (reject_each reason g.tickets decisions) gs
              (reject_each-Reasoned reason g.tickets decisions refused v)
              (λ id h. reject_each-rejects reason g.tickets decisions id (kept id h)) chosen all)
    ]
