-- ===== src/Engine/Candidates/Grouping.antt =====
-- Grouping and moving keep what is said of every ticket, and how often a player is queued.
use match_mind.Base.{
  All, All-append, Bool-cases, List, Option-cases, [], arith, inl, inr, refl, some, subst, ℕ, ◌++◌,
  ◌+◌, ◌==◌, ◌∷◌, ◌≡◌, ◌≤◌,
}
use match_mind.Base.Int.{ℤ}
use match_mind.Engine.{
  TicketGroup, add_to_group, group_into, group_key, group_tickets, has_ticket,
  move_anchor_group_first, put_for,
}
use match_mind.Engine.Candidates.{
  Decisions, Window, accept_each, reason_for, reject_each, take_groups,
}
use match_mind.Engine.Candidates.Scanning.{queued_of}
use match_mind.Text.{Text, is_empty, text_eq}
use match_mind.Ticket.{MatchTicket}

-- A predicate of every ticket of every group.
abbrev pub AllOf : (MatchTicket → Type 0) → List TicketGroup → Type 0
AllOf P = All (λ g. All P g.tickets)

add_to_group-AllOf :
    (P : MatchTicket → Type 0) (key : Text) (t : MatchTicket) (gs : List TicketGroup)
    → P t
    → AllOf P gs
    → AllOf P (add_to_group key t gs)
unfolding add_to_group
add_to_group-AllOf P key t [] h all = ((h, tt), tt)
add_to_group-AllOf P key t (g ∷ gs) h (one, all) = elim (Bool-cases (g.key == key)) [
  | inl this ↦ rw this (All-append P g.tickets (t ∷ []) one (h, tt), all)
  | inr other ↦ rw other (one, add_to_group-AllOf P key t gs h all)
]

group_into-AllOf :
    (P : MatchTicket → Type 0) (gs : List TicketGroup) (ts : List MatchTicket)
    → AllOf P gs
    → All P ts
    → AllOf P (group_into gs ts)
unfolding group_into
group_into-AllOf P gs [] all h = all
group_into-AllOf P gs (t ∷ ts) all (first, h) =
    group_into-AllOf P (add_to_group (group_key t) t gs) ts
      (add_to_group-AllOf P (group_key t) t gs first all) h

put_for-AllOf :
    (P : MatchTicket → Type 0) (g : TicketGroup) (id : Text) (gs : List TicketGroup)
    (found : TicketGroup) (rest : List TicketGroup)
    → put_for g id gs ≡ some (found, rest)
    → All P g.tickets
    → AllOf P gs
    → All P found.tickets × AllOf P rest
unfolding put_for
put_for-AllOf P g id [] found rest e h all = absurd (ground arith)
put_for-AllOf P g id (x ∷ xs) found rest e h (one, all) =
    elim (Bool-cases (has_ticket id x.tickets)) [
      | inl this ↦
          let same : x ≡ found = ground arith in
          let same' : g ∷ xs ≡ rest = ground arith in
          (subst (λ y. All P y.tickets) same one, subst (AllOf P) same' (h, all))
      | inr other ↦ elim (Option-cases (put_for g id xs)) [
        | inl missing ↦ absurd (ground arith)
        | inr ((y, ys), deeper) ↦
            let (first, more) = put_for-AllOf P g id xs y ys deeper h all in
            let same : y ≡ found = ground arith in
            let same' : x ∷ ys ≡ rest = ground arith in
            (subst (λ z. All P z.tickets) same first, subst (AllOf P) same' (one, more))
      ]
    ]

move-AllOf :
    (P : MatchTicket → Type 0) (gs : List TicketGroup) (anchor : MatchTicket)
    → AllOf P gs
    → AllOf P (move_anchor_group_first gs anchor)
unfolding move_anchor_group_first
move-AllOf P [] anchor all = tt
move-AllOf P (g ∷ gs) anchor (one, all) = elim (Bool-cases (has_ticket anchor.id g.tickets)) [
  | inl this ↦ rw this (one, all)
  | inr other ↦ elim (Option-cases (put_for g anchor.id gs)) [
    | inl missing ↦ rw (other, missing) (one, all)
    | inr ((found, rest), e) ↦ rw (other, e) (put_for-AllOf P g anchor.id gs found rest e one all)
  ]
]

pub grouped-AllOf :
    (P : MatchTicket → Type 0) (ts : List MatchTicket) (anchor : MatchTicket)
    → All P ts
    → AllOf P (move_anchor_group_first (group_tickets ts) anchor)
unfolding group_tickets
grouped-AllOf P ts anchor h = move-AllOf P (group_into [] ts) anchor (group_into-AllOf P [] ts tt h)

-- How many queued tickets a player has in some groups.
unfoldable pub total_of : Text → List TicketGroup → ℕ
total_of p [] = 0
total_of p (g ∷ gs) = queued_of p g.tickets + total_of p gs

pub queued_of-append :
    (p : Text) (ts us : List MatchTicket) → queued_of p (ts ++ us) ≡ queued_of p ts + queued_of p us
unfolding queued_of
queued_of-append p [] us = omega arith
queued_of-append p (t ∷ ts) us = ground (arith, queued_of-append p ts us)

add_to_group-total :
    (p key : Text) (t : MatchTicket) (gs : List TicketGroup)
    → total_of p (add_to_group key t gs) ≡ total_of p gs + queued_of p (t ∷ [])
unfolding add_to_group total_of
add_to_group-total p key t [] = omega arith
add_to_group-total p key t (g ∷ gs) = elim (Bool-cases (g.key == key)) [
  | inl this ↦ rw this (omega (arith, queued_of-append p g.tickets (t ∷ [])))
  | inr other ↦ rw other (omega (arith, add_to_group-total p key t gs))
]

group_into-total :
    (p : Text) (gs : List TicketGroup) (ts : List MatchTicket)
    → total_of p (group_into gs ts) ≡ total_of p gs + queued_of p ts
unfolding group_into
group_into-total p gs [] = unfold queued_of in omega arith
group_into-total p gs (t ∷ ts) =
    let one = add_to_group-total p (group_key t) t gs in
    let more = group_into-total p (add_to_group (group_key t) t gs) ts in
    let both = queued_of-append p (t ∷ []) ts in omega (arith, one, more, both)

put_for-total :
    (p : Text) (g : TicketGroup) (id : Text) (gs : List TicketGroup) (found : TicketGroup)
    (rest : List TicketGroup)
    → put_for g id gs ≡ some (found, rest)
    → queued_of p found.tickets + total_of p rest ≡ queued_of p g.tickets + total_of p gs
unfolding put_for total_of
put_for-total p g id [] found rest e = absurd (ground arith)
put_for-total p g id (x ∷ xs) found rest e = elim (Bool-cases (has_ticket id x.tickets)) [
  | inl this ↦
      let same : x ≡ found = ground arith in
      let same' : g ∷ xs ≡ rest = ground arith in
      subst
        (λ y. queued_of p y.tickets + total_of p rest ≡ queued_of p g.tickets + total_of p (x ∷ xs))
        same
        (subst
          (λ ys.
            queued_of p x.tickets + total_of p ys ≡ queued_of p g.tickets + total_of p (x ∷ xs))
          same' (omega arith))
  | inr other ↦ elim (Option-cases (put_for g id xs)) [
    | inl missing ↦ absurd (ground arith)
    | inr ((y, ys), deeper) ↦
        let more = put_for-total p g id xs y ys deeper in
        let same : y ≡ found = ground arith in
        let same' : x ∷ ys ≡ rest = ground arith in
        subst
          (λ z.
            queued_of p z.tickets + total_of p rest ≡ queued_of p g.tickets + total_of p (x ∷ xs))
          same
          (subst
            (λ zs.
              queued_of p y.tickets + total_of p zs ≡ queued_of p g.tickets + total_of p (x ∷ xs))
            same' (omega (arith, more)))
  ]
]

move-total :
    (p : Text) (gs : List TicketGroup) (anchor : MatchTicket)
    → total_of p (move_anchor_group_first gs anchor) ≡ total_of p gs
unfolding move_anchor_group_first total_of
move-total p [] anchor = refl
move-total p (g ∷ gs) anchor = elim (Bool-cases (has_ticket anchor.id g.tickets)) [
  | inl this ↦ rw this refl
  | inr other ↦ elim (Option-cases (put_for g anchor.id gs)) [
    | inl missing ↦ rw (other, missing) refl
    | inr ((found, rest), e) ↦ rw (other, e) (put_for-total p g anchor.id gs found rest e)
  ]
]

pub grouped-total :
    (p : Text) (ts : List MatchTicket) (anchor : MatchTicket)
    → total_of p (move_anchor_group_first (group_tickets ts) anchor) ≡ queued_of p ts
unfolding group_tickets total_of
grouped-total p ts anchor =
    omega (arith, move-total p (group_into [] ts) anchor, group_into-total p [] ts)

pub take_groups-total :
    (w : Window) (limit : ℤ) (p : Text) (taken : List MatchTicket) (decisions : Decisions)
    (gs : List TicketGroup)
    → queued_of p (take_groups w limit taken decisions gs).0 ≤ queued_of p taken + total_of p gs
unfolding take_groups total_of
take_groups-total w limit p taken decisions [] = omega arith
take_groups-total w limit p taken decisions (g ∷ gs) =
    elim (Bool-cases (is_empty (reason_for w limit taken decisions g))) [
      | inl accepted ↦ rw accepted (
          omega (
            arith,
            take_groups-total w limit p (taken ++ g.tickets) (accept_each g.tickets decisions) gs,
            queued_of-append p taken g.tickets,
          ))
      | inr refused ↦ rw refused (
          omega (
            arith,
            take_groups-total w limit p taken
                (reject_each (reason_for w limit taken decisions g) g.tickets decisions) gs,
          ))
    ]
