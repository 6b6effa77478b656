-- ===== src/Worker/Releasing.antt =====
-- A round leaves no reservation behind.
use match_mind.Allocator.{allocate, release}
use match_mind.Base.{
  Context, Option-cases, Result-cases, inl, inr, lookup, none, refl, ◌≡◌, List, Result, ap, arith,
  eq_self, err, lookup-delete, ok, reservation_conflict, some, state_or, subst, sym, true, ◌∙◌,
  Bool-cases, contains, is_some, ◌⊎◌,
}
use match_mind.Clock.{Time}
use match_mind.Match.{start_allocation, mark_ready, fail, Match, NewMatchParams, new_match}
use match_mind.MatchService.{World}
use match_mind.MatchStore.{MatchStore, get, create, update}
use match_mind.Text.{Text, text_eq, trim_space}
use match_mind.Ticket.{MatchTicket, is_reserved}
use match_mind.TicketStore.{assign_all, release_all, reserve_all, TicketStore}
use match_mind.TicketStore.Conclusion.{release_all_total, assign_all-Inv, release_all-Inv}
use match_mind.TicketStore.Invariant.{Inv}
use match_mind.TicketStore.Reservation.{Begins, reserve_all-Begins, reserve_all-Inv}
use match_mind.Worker.{
  RoundContexts, fail_stored_match, release_allocation, release_tickets, allocate_match,
  assign_match, open_match, settle, undo_all,
}

-- Every ticket that is reserved under the ID is so until the time.
abbrev Held : Text → Time → TicketStore → Type 0
Held id expires_at s =
    (j : Text) (t : MatchTicket)
    → lookup j s.tickets ≡ some t
    → is_reserved t.state ≡ true
    → t.reservation_id ≡ id
    → t.reservation_expires_at ≡ expires_at

-- The invariant of the store holds, and the reservation is not recorded, unless the context was cancelled
-- when the tickets were to be released.
record Left (ctx : RoundContexts) (s : TicketStore) (id : Text) (expires_at : Time) : Type 0 where
  sound : Inv s
  outcome :
      (lookup id s.reservations ≡ none) ⊎ ((is_some ctx.releasing ≡ true) × Held id expires_at s)

release_tickets-Left :
    (ctx : RoundContexts) (w : World) (id : Text) (expires_at now : Time)
    → Inv w.tickets
    → Held id expires_at w.tickets
    → Left ctx (release_tickets ctx w id now).tickets id expires_at
unfolding release_all release_tickets
release_tickets-Left ctx w id expires_at now v held = elim (Option-cases ctx.releasing) [
  | inr (e, cut) ↦
      let refused : release_all ctx.releasing w.tickets id now ≡ err e =
        rw (cut, release_all) refl in
      rw (refused, release_tickets) (record { sound = v; outcome = inr (rw cut refl, held) })
  | inl live ↦ elim (Option-cases (lookup id w.tickets.reservations)) [
    | inl missing ↦
        let refused : release_all ctx.releasing w.tickets id now ≡ err reservation_conflict =
          rw (live, missing, release_all) refl in
        rw (refused, release_tickets) (record { sound = v; outcome = inl missing })
    | inr (ids, found) ↦
        let (s', done, ends) = release_all_total w.tickets id ids v found now in
        let released : release_all ctx.releasing w.tickets id now ≡ ok s' = rw live done in
        rw (released, release_tickets)
          (record {
            sound = release_all-Inv none w.tickets id now v s' done;
            outcome = inl (
                ap (lookup id) ends.dropped
                ∙ lookup-delete id id w.tickets.reservations
                ∙ rw (eq_self id) refl);
          })
  ]
]

release_allocation-tickets :
    (ctx : RoundContexts) (w : World) (match_id : Text)
    → (release_allocation ctx w match_id).tickets ≡ w.tickets
unfolding release_allocation
release_allocation-tickets ctx w match_id =
    elim (Result-cases (release ctx.returning w.servers match_id)) [
      | inl (servers, done) ↦ rw (done, release_allocation) refl
      | inr (e, refused) ↦ rw (refused, release_allocation) refl
    ]

fail_stored_match-tickets :
    (ctx : RoundContexts) (w : World) (match_id : Text) (now : Time)
    → (fail_stored_match ctx w match_id now).tickets ≡ w.tickets
unfolding fail_stored_match
fail_stored_match-tickets ctx w match_id now =
    elim (Result-cases (get ctx.reading w.matches match_id)) [
      | inr (e, missing) ↦ rw (missing, fail_stored_match) refl
      | inl (stored, found) ↦ elim (Result-cases (fail stored now)) [
        | inr (e, refused) ↦ rw (found, refused, fail_stored_match) refl
        | inl (m, over) ↦ elim (Result-cases (update ctx.failing w.matches m)) [
          | inl (matches, done) ↦ rw (found, over, done, fail_stored_match) refl
          | inr (e, refused) ↦ rw (found, over, refused, fail_stored_match) refl
        ]
      ]
    ]

-- What `AssignAll` leaves.
assign_all-unrecorded :
    (ctx : Context) (s s' : TicketStore) (id match_id : Text) (now : Time) (ts : List MatchTicket)
    → assign_all ctx s id match_id now ≡ ok (s', ts)
    → lookup id s'.reservations ≡ none
unfolding assign_all
assign_all-unrecorded ctx s s' id match_id now ts h =
    ground (arith, lookup-delete id id s.reservations, eq_self id)

module _ (ctx : RoundContexts) (id : Text) (expires_at now : Time) where
  undo_all-Left :
      (w : World) (match_id : Text)
      → Inv w.tickets
      → Held id expires_at w.tickets
      → Left ctx (undo_all ctx w id match_id now).tickets id expires_at
  unfolding undo_all
  undo_all-Left w match_id v held =
      let w1 = release_allocation ctx w match_id in
      let same =
        fail_stored_match-tickets ctx w1 match_id now ∙ release_allocation-tickets ctx w match_id in
      release_tickets-Left ctx (fail_stored_match ctx w1 match_id now) id expires_at now
        (subst Inv (sym same) v) (subst (Held id expires_at) (sym same) held)

  assign_match-Left :
      (w : World) (m : Match)
      → Inv w.tickets
      → Held id expires_at w.tickets
      → Left ctx (assign_match ctx w id m now).0.tickets id expires_at
  unfolding assign_match
  assign_match-Left w m v held =
      elim (Result-cases (assign_all ctx.assigning w.tickets id m.id now)) [
        | inr (e, refused) ↦ rw (refused, assign_match) (undo_all-Left w m.id v held)
        | inl ((s', ts), done) ↦
            let left : Left ctx s' id expires_at = record {
              sound = assign_all-Inv ctx.assigning w.tickets id m.id now v s' ts done;
              outcome = inl (assign_all-unrecorded ctx.assigning w.tickets s' id m.id now ts done);
            } in
            elim (Result-cases (update ctx.finishing w.matches m)) [
              | inr (e, refused) ↦ rw (done, refused, assign_match) left
              | inl (matches, stored) ↦ rw (done, stored, assign_match) left
            ]
      ]

  allocate_match-Left :
      (w : World) (m : Match) (token : Result Text)
      → Inv w.tickets
      → Held id expires_at w.tickets
      → Left ctx (allocate_match ctx w id m token now).0.tickets id expires_at
  unfolding allocate_match
  allocate_match-Left w m token v held =
      elim (Result-cases (allocate ctx.allocating w.servers m.id m.server_region token)) [
        | inr (e, refused) ↦
            let same = fail_stored_match-tickets ctx w m.id now in
            rw (refused, allocate_match)
              (release_tickets-Left ctx (fail_stored_match ctx w m.id now) id expires_at now
                (subst Inv (sym same) v) (subst (Held id expires_at) (sym same) held))
        | inl ((servers, allocation), granted) ↦
            let w1 = record w { servers = servers } in
            elim (Result-cases (mark_ready m allocation.address allocation.token now)) [
              | inr (e, refused) ↦
                  rw (granted, refused, allocate_match) (undo_all-Left w1 m.id v held)
              | inl (n, is_ready) ↦
                  rw (granted, is_ready, allocate_match) (assign_match-Left w1 n v held)
            ]
      ]

  open_match-Left :
      (w : World) (m : Match) (token : Result Text)
      → Inv w.tickets
      → Held id expires_at w.tickets
      → Left ctx (open_match ctx w id m token now).0.tickets id expires_at
  unfolding open_match
  open_match-Left w m token v held =
      let freed = λ (matches : MatchStore).
        release_tickets-Left ctx (record w { matches = matches }) id expires_at now v held in
      elim (Result-cases (create ctx.creating w.matches m)) [
        | inr (e, refused) ↦
            rw (refused, open_match) (release_tickets-Left ctx w id expires_at now v held)
        | inl (matches, made) ↦ elim (Result-cases (start_allocation m now)) [
          | inr (e, refused) ↦ rw (made, refused, open_match) (freed matches)
          | inl (n, began) ↦ elim (Result-cases (update ctx.updating matches n)) [
            | inr (e, refused) ↦ rw (made, began, refused, open_match) (freed matches)
            | inl (matches', stored) ↦
                rw (made, began, stored, open_match)
                  (allocate_match-Left (record w { matches = matches' }) n token v held)
          ]
        ]
      ]

-- The tickets that `ReserveAll` reserves under a new ID have the expiry that it was given.
reserve_all-Held :
    (ctx : Context) (s s' : TicketStore) (ids : List Text) (id : Text) (expires_at now : Time)
    (ts : List MatchTicket)
    → Inv s
    → trim_space id ≡ id
    → lookup id s.reservations ≡ none
    → reserve_all ctx s ids id expires_at now ≡ ok (s', ts)
    → Held id expires_at s'
reserve_all-Held ctx s s' ids id expires_at now ts v trimmed fresh taken j t found in_state mine =
    let begins =
      subst (λ i. Begins s ids i expires_at now s') trimmed
        (reserve_all-Begins ctx s s' ids id expires_at now ts (rw trimmed fresh) taken) in
    elim (Bool-cases (contains j ids)) [
      | inl inside ↦
          let (u, here, waits) = begins.free j inside in
          let effect = begins.effect j in ground arith
      | inr outside ↦
          let effect = begins.effect j in
          let before : lookup j s.tickets ≡ some t = ground arith in
          let (others, recorded, member) = v.reserved_part.owned j t before in_state in
          let again = ap (λ r. lookup r s.reservations) (sym mine) ∙ recorded in
          absurd (ground arith)
    ]

settle-Left :
    (ctx : RoundContexts) (w : World) (id : Text) (ids : List Text) (expires_at : Time)
    (params : NewMatchParams) (token : Result Text) (now : Time)
    → Inv w.tickets
    → trim_space id ≡ id
    → lookup id w.tickets.reservations ≡ none
    → Left ctx (settle ctx w id ids expires_at params token now).0.tickets id expires_at
unfolding settle
settle-Left ctx w id ids expires_at params token now v trimmed fresh =
    elim (Result-cases (reserve_all ctx.reserving w.tickets ids id expires_at now)) [
      | inr (e, refused) ↦ rw (refused, settle) (record { sound = v; outcome = inl fresh })
      | inl ((s', ts), taken) ↦
          let w1 = record w { tickets = s' } in
          let kept : Inv s' =
            subst (λ r. Inv (state_or w.tickets r)) taken
              (reserve_all-Inv ctx.reserving w.tickets ids id expires_at now v) in
          let held =
            reserve_all-Held ctx.reserving w.tickets s' ids id expires_at now ts v trimmed fresh
              taken in
          elim (Result-cases (new_match params)) [
            | inr (e, refused) ↦
                rw (taken, refused, settle)
                  (release_tickets-Left ctx w1 id expires_at now kept held)
            | inl (m, made) ↦
                rw (taken, made, settle)
                  (open_match-Left ctx id expires_at now w1 m token kept held)
          ]
    ]

-- Whatever the worker meets from the reservation of the tickets on (a refused reservation, match,
-- allocation, assignment or update, a context that is cancelled between two calls, or success), on a store
-- of tickets that satisfies the invariant and under a trimmed reservation ID without a record, the
-- invariant holds afterwards, and where a ticket is still reserved under that ID the context was cancelled
-- when `ReleaseAll` began and the reservation expires at the time that was given.
pub settle-unreserved :
    (ctx : RoundContexts) (w : World) (id : Text) (ids : List Text) (expires_at : Time)
    (params : NewMatchParams) (token : Result Text) (now : Time)
    → Inv w.tickets
    → trim_space id ≡ id
    → lookup id w.tickets.reservations ≡ none
    → Inv (settle ctx w id ids expires_at params token now).0.tickets
      × ((j : Text) (t : MatchTicket)
          → lookup j (settle ctx w id ids expires_at params token now).0.tickets.tickets ≡ some t
          → is_reserved t.state ≡ true
          → t.reservation_id ≡ id
          → (is_some ctx.releasing ≡ true) × (t.reservation_expires_at ≡ expires_at))
settle-unreserved ctx w id ids expires_at params token now v trimmed fresh =
    let s = (settle ctx w id ids expires_at params token now).0.tickets in
    let left = settle-Left ctx w id ids expires_at params token now v trimmed fresh in
    (
      left.sound,
      λ j t found in_state mine. elim left.outcome [
        | inr (cut, held) ↦ (cut, held j t found in_state mine)
        | inl gone ↦
            let (others, recorded, member) = left.sound.reserved_part.owned j t found in_state in
            let again = ap (λ r. lookup r s.reservations) (sym mine) ∙ recorded in
            absurd (ground arith)
      ],
    )
