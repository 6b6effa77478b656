-- ===== src/TicketStore/Settling.antt =====
-- The reservation part of the invariant under the three changes that calls make: a reservation begins, a
-- reservation ends, and a ticket that is not reserved comes or changes.
use match_mind.Base.{
  Bool-cases, List, Map, arith, contains, delete, distinct-delete, false, inl, inr, lookup,
  lookup-delete, some, sym, true, ◌==◌, ◌∙◌, ◌≡◌, distinct, distinct-insert, insert, lookup-insert,
  none, refl, subst,
}
use match_mind.Clock.{Time}
use match_mind.Text.{Text, text_beq_iff, text_eq, is_empty}
use match_mind.Ticket.{MatchTicket, is_queue_candidate, is_reserved}
use match_mind.TicketStore.{Tickets}
use match_mind.TicketStore.Effects.{changed, with_reservation}
use match_mind.TicketStore.Invariant.{Holds, Reserved, changed_inside, changed_outside}

-- A reservation ends: its tickets leave the state RESERVED, and its record is deleted.
module _ (tickets after_tickets : Tickets) (reservations : Map Text (List Text)) (r : Text)
    (ids : List Text) (g : MatchTicket → MatchTicket) (v : Reserved tickets reservations)
    (here : lookup r reservations ≡ some ids)
    (freed : (t : MatchTicket) → is_reserved (g t).state ≡ false)
    (effect : (j : Text) → lookup j after_tickets ≡ changed g ids tickets tickets j) where
  settle-Holds :
      (r' : Text) (ids' : List Text) (e : Time)
      → (r == r') ≡ false
      → Holds tickets r' e ids'
      → Holds after_tickets r' e ids'
  settle-Holds r' ids' e ne h j c =
      let (t, found, in_state, named, until) = h j c in
      let mine = (v.held r ids here).3 j in
      elim (Bool-cases (contains j ids)) [
        | inl inside ↦
            let (u, found', _, named', _) = mine inside in ground (arith, text_beq_iff r r')
        | inr outside ↦
            (t, effect j ∙ changed_outside g ids tickets j outside ∙ found, in_state, named, until)
      ]

  settle-owned :
      (j : Text) (t : MatchTicket)
      → lookup j after_tickets ≡ some t
      → is_reserved t.state ≡ true
      → (ids' : List Text) × (lookup t.reservation_id (delete r reservations) ≡ some ids')
        × (contains j ids' ≡ true)
  settle-owned j t found in_state = elim (Bool-cases (contains j ids)) [
    | inl inside ↦
        let (u, found', _, _, _) = (v.held r ids here).3 j inside in
        ground (arith, effect j, freed u)
    | inr outside ↦
        let before_found = sym (effect j ∙ changed_outside g ids tickets j outside) ∙ found in
        let (ids', recorded, member) = v.owned j t before_found in_state in
        (
          ids',
          ground (
            arith,
            lookup-delete r t.reservation_id reservations,
            text_beq_iff r t.reservation_id,
          ),
          member,
        )
  ]

  settle-held :
      (r' : Text) (ids' : List Text)
      → lookup r' (delete r reservations) ≡ some ids'
      → (e : Time) × (is_empty r' ≡ false) × (distinct ids' ≡ true) × Holds after_tickets r' e ids'
  settle-held r' ids' h = elim (Bool-cases (r == r')) [
    | inl same ↦ absurd (ground (arith, lookup-delete r r' reservations))
    | inr ne ↦
        let recorded : lookup r' reservations ≡ some ids' =
          ground (arith, lookup-delete r r' reservations) in
        let (e, named, nodup, holds) = v.held r' ids' recorded in
        (e, named, nodup, settle-Holds r' ids' e ne holds)
  ]

  pub settle-Reserved : Reserved after_tickets (delete r reservations)
  settle-Reserved = record {
    unique = distinct-delete r reservations v.unique;
    held = settle-held;
    owned = settle-owned;
  }

-- A reservation begins, over tickets that wait unreserved.
module _ (tickets after_tickets : Tickets) (reservations : Map Text (List Text)) (r : Text)
    (ids : List Text) (expires_at now : Time) (v : Reserved tickets reservations)
    (absent : lookup r reservations ≡ none) (named : is_empty r ≡ false)
    (nodup : distinct ids ≡ true)
    (free : (j : Text)
      → contains j ids ≡ true
      → (t : MatchTicket) × (lookup j tickets ≡ some t) × (is_queue_candidate t ≡ true))
    (effect : (j : Text)
      → lookup j after_tickets
        ≡ changed (with_reservation r expires_at now) ids tickets tickets j) where
  begin-Holds : Holds after_tickets r expires_at ids
  begin-Holds j c =
      let (t, found, _) = free j c in
      (
        with_reservation r expires_at now t,
        effect j ∙ changed_inside (with_reservation r expires_at now) ids tickets j c found,
        refl,
        refl,
        refl,
      )

  kept-Holds :
      (r' : Text) (ids' : List Text) (e : Time)
      → Holds tickets r' e ids'
      → Holds after_tickets r' e ids'
  kept-Holds r' ids' e h j c =
      let (t, found, in_state, n, until) = h j c in
      elim (Bool-cases (contains j ids)) [
        | inl inside ↦ let (u, found', waits) = free j inside in absurd (ground arith)
        | inr outside ↦ (
          t,
          effect j
              ∙ changed_outside (with_reservation r expires_at now) ids tickets j outside
              ∙ found,
          in_state,
          n,
          until,
        )
      ]

  begin-held :
      (r' : Text) (ids' : List Text)
      → lookup r' (insert r ids reservations) ≡ some ids'
      → (e : Time) × (is_empty r' ≡ false) × (distinct ids' ≡ true) × Holds after_tickets r' e ids'
  begin-held r' ids' h = elim (Bool-cases (r == r')) [
    | inl same ↦
        let er : r ≡ r' = (text_beq_iff r r').0 same in
        let ei : ids ≡ ids' = ground (arith, lookup-insert r r' ids reservations) in
        subst
          (λ q.
            (e : Time) × (is_empty q ≡ false)
            × (distinct ids' ≡ true)
            × Holds after_tickets q e ids')
          er
          (subst
            (λ l.
              (e : Time) × (is_empty r ≡ false) × (distinct l ≡ true) × Holds after_tickets r e l)
            ei (expires_at, named, nodup, begin-Holds))
    | inr ne ↦
        let recorded : lookup r' reservations ≡ some ids' =
          ground (arith, lookup-insert r r' ids reservations) in
        let (e, n, d, holds) = v.held r' ids' recorded in (e, n, d, kept-Holds r' ids' e holds)
  ]

  begin-owned :
      (j : Text) (t : MatchTicket)
      → lookup j after_tickets ≡ some t
      → is_reserved t.state ≡ true
      → (ids' : List Text) × (lookup t.reservation_id (insert r ids reservations) ≡ some ids')
        × (contains j ids' ≡ true)
  begin-owned j t found in_state = elim (Bool-cases (contains j ids)) [
    | inl inside ↦
        let (u, found', _) = free j inside in
        (
          ids,
          ground (arith, effect j, lookup-insert r r ids reservations, text_beq_iff r r),
          inside,
        )
    | inr outside ↦
        let before_found =
          sym (effect j ∙ changed_outside (with_reservation r expires_at now) ids tickets j outside)
          ∙ found in
        let (ids', recorded, member) = v.owned j t before_found in_state in
        (
          ids',
          ground (
            arith,
            lookup-insert r t.reservation_id ids reservations,
            text_beq_iff r t.reservation_id,
          ),
          member,
        )
  ]

  pub begin-Reserved : Reserved after_tickets (insert r ids reservations)
  begin-Reserved = record {
    unique = distinct-insert r ids reservations v.unique;
    held = begin-held;
    owned = begin-owned;
  }

-- A ticket that is not reserved comes, or takes the place of one that is not reserved.
module _ (tickets : Tickets) (reservations : Map Text (List Text)) (i : Text) (u : MatchTicket)
    (v : Reserved tickets reservations) (unreserved : is_reserved u.state ≡ false)
    (replaced : (t : MatchTicket) → lookup i tickets ≡ some t → is_reserved t.state ≡ false) where
  put-held :
      (r : Text) (ids : List Text)
      → lookup r reservations ≡ some ids
      → (e : Time) × (is_empty r ≡ false)
        × (distinct ids ≡ true)
        × Holds (insert i u tickets) r e ids
  put-held r ids h =
      let (e, named, nodup, holds) = v.held r ids h in
      (
        e,
        named,
        nodup,
        λ j c.
            let (t, found, in_state, n, until) = holds j c in
            (
              t,
              ground (arith, lookup-insert i j u tickets, text_beq_iff i j, replaced t),
              in_state,
              n,
              until,
            ),
      )

  pub put-Reserved : Reserved (insert i u tickets) reservations
  put-Reserved = record {
    unique = v.unique;
    held = put-held;
    owned = λ j t found in_state.
        v.owned j t (ground (arith, lookup-insert i j u tickets, text_beq_iff i j)) in_state;
  }
