-- ===== src/TicketStore/Idempotency.antt =====
-- Idempotency records: a request that is sent again gets the ticket that it made, whatever happened since.
use match_mind.Base.{
  Context, List, Map, Option-cases, Result-cases, [], arith, inl, inr, insert, is_some, lookup,
  lookup-insert, none, ok, some, state_or, true, ◌>>=◌, ◌∷◌, ◌≡◌, refl, suc,
}
use match_mind.Clock.{Time}
use match_mind.Text.{Text, text_beq_iff, trim_space, text_eq}
use match_mind.Ticket.{
  MatchTicket, cancel, assign, release_expired_reservation, release_reservation,
}
use match_mind.TicketStore.{
  Tickets, TicketStore, create_queued, cancel_ticket, complete_assigned_tickets, reserve_all,
  release_all, assign_all, reserve_each, change_each, put_all, scoped_key, Recovery, recover_each,
  recover_reservation, recover_loop, recover_expired_reservations, stored, or_conflict,
}
use match_mind.TicketStore.Effects.{lookup-put_all}
use match_mind.TicketStore.Invariant.{Inv}
use match_mind.TicketStore.Runs.{
  Call, creates, cancels, reserves, releases, assigns, completes, recovers, step, run,
}

-- What no call takes back: the ticket `id` is there, and the key `key` is recorded for it.
record Recorded (key id : Text) (s : TicketStore) : Type 0 where
  record_kept : lookup key s.create_idempotency ≡ some id
  ticket_kept : is_some (lookup id s.tickets) ≡ true

put_all-kept :
    (id : Text) (updated tickets : Tickets)
    → is_some (lookup id tickets) ≡ true
    → is_some (lookup id (put_all updated tickets)) ≡ true
put_all-kept id updated tickets h = ground (arith, lookup-put_all id updated tickets)

insert-kept :
    (id i : Text) (t : MatchTicket) (tickets : Tickets)
    → is_some (lookup id tickets) ≡ true
    → is_some (lookup id (insert i t tickets)) ≡ true
insert-kept id i t tickets h = ground (arith, lookup-insert i id t tickets)

module _ (key id : Text) (s : TicketStore) (v : Recorded key id s) where
  create_queued-Recorded :
      (ctx : Context) (t : MatchTicket) (k : Text)
      → Recorded key id (state_or s (create_queued ctx s t k))
  unfolding create_queued
  create_queued-Recorded ctx t k = ground (
    arith,
    insert-kept id t.id t s.tickets v.ticket_kept,
    lookup-insert (scoped_key t.player_id k) key t.id s.create_idempotency,
    text_beq_iff (scoped_key t.player_id k) key,
  )

  cancel_ticket-Recorded :
      (ctx : Context) (i p k : Text) (now : Time)
      → Recorded key id (state_or s (cancel_ticket ctx s i p k now))
  unfolding cancel_ticket
  cancel_ticket-Recorded (some e) i p k now = v
  cancel_ticket-Recorded none i p k now = elim (Option-cases (lookup (trim_space i) s.tickets)) [
    | inl missing ↦ ground arith
    | inr (t, found) ↦ elim (Result-cases (cancel t now)) [
      | inr (e, refused) ↦ ground arith
      | inl (u, done) ↦ ground (arith, insert-kept id (trim_space i) u s.tickets v.ticket_kept)
    ]
  ]

  complete-Recorded : (ctx : Context) (m : Text) → Recorded key id (step s (completes ctx m))
  unfolding step complete_assigned_tickets
  complete-Recorded ctx m = ground arith

  reserve_all-Recorded :
      (ctx : Context) (ids : List Text) (r : Text) (e now : Time)
      → Recorded key id (state_or s (reserve_all ctx s ids r e now))
  unfolding reserve_all
  reserve_all-Recorded ctx ids r e now =
      elim (Result-cases (reserve_each s.tickets (trim_space r) e now [] [] ids)) [
        | inr (x, refused) ↦ ground arith
        | inl (updated, done) ↦ ground (arith, put_all-kept id updated s.tickets v.ticket_kept)
      ]

  release_all-Recorded :
      (ctx : Context) (r : Text) (now : Time) → Recorded key id (step s (releases ctx r now))
  unfolding step release_all
  release_all-Recorded ctx r now = elim (Option-cases (lookup r s.reservations)) [
    | inl missing ↦ ground arith
    | inr (ids, listed) ↦
        elim (Result-cases (change_each (λ t. release_reservation t r now) s.tickets [] ids)) [
          | inr (x, refused) ↦ ground arith
          | inl (updated, done) ↦ ground (arith, put_all-kept id updated s.tickets v.ticket_kept)
        ]
  ]

  assign_all-Recorded :
      (ctx : Context) (r m : Text) (now : Time)
      → Recorded key id (state_or s (assign_all ctx s r m now))
  unfolding assign_all
  assign_all-Recorded ctx r m now = elim (Option-cases (lookup r s.reservations)) [
    | inl missing ↦ ground arith
    | inr (ids, listed) ↦
        elim (Result-cases (change_each (λ t. assign t r m now) s.tickets [] ids)) [
          | inr (x, refused) ↦ ground arith
          | inl (updated, done) ↦ ground (arith, put_all-kept id updated s.tickets v.ticket_kept)
        ]
  ]

module _ (now : Time) (id : Text) where
  recover_each-kept :
      (r : Recovery) (ids : List Text)
      → is_some (lookup id r.tickets) ≡ true
      → is_some (lookup id (recover_each now r ids).tickets) ≡ true
  unfolding recover_each
  recover_each-kept r [] h = h
  recover_each-kept r (i ∷ ids) h =
      elim (Result-cases
        (stored r.tickets i >>= λ t. or_conflict (release_expired_reservation t now))) [
          | inr (e, refused) ↦ rw (refused, recover_each) h
          | inl (t, done) ↦
              rw (done, recover_each)
                (recover_each-kept
                  (record r { tickets = insert i t r.tickets; recovered = suc r.recovered }) ids
                  (insert-kept id i t r.tickets h))
        ]

  recover_reservation-kept :
      (r : Recovery) (k : Text) (ids : List Text)
      → is_some (lookup id r.tickets) ≡ true
      → is_some (lookup id (recover_reservation now r k ids).tickets) ≡ true
  unfolding recover_reservation
  recover_reservation-kept r k [] h = h
  recover_reservation-kept r k (i ∷ ids) h = ground (arith, recover_each-kept r (i ∷ ids) h)

  recover_loop-kept :
      (r : Recovery) (rest : Map Text (List Text))
      → is_some (lookup id r.tickets) ≡ true
      → is_some (lookup id (recover_loop now r rest).tickets) ≡ true
  unfolding recover_loop
  recover_loop-kept r [] h = h
  recover_loop-kept r ((k, ids) ∷ rest) h =
      let kept = recover_reservation-kept r k ids h in
      elim (Option-cases (recover_reservation now r k ids).failure) [
        | inl fine ↦
            rw (fine, recover_loop) (recover_loop-kept (recover_reservation now r k ids) rest kept)
        | inr (e, broke) ↦ rw (broke, recover_loop) kept
      ]

recover-Recorded :
    (key id : Text) (s : TicketStore)
    → Recorded key id s
    → (ctx : Context) (now : Time) → Recorded key id (recover_expired_reservations ctx s now).0
unfolding recover_expired_reservations
recover-Recorded key id s v (some e) now = v
recover-Recorded key id s v none now = record {
  record_kept = v.record_kept;
  ticket_kept = recover_loop-kept now id _ s.reservations v.ticket_kept;
}

step-Recorded :
    (key id : Text) (s : TicketStore) (c : Call) → Recorded key id s → Recorded key id (step s c)
unfolding step
step-Recorded key id s (creates ctx t k) v = create_queued-Recorded key id s v ctx t k
step-Recorded key id s (cancels ctx i p k now) v = cancel_ticket-Recorded key id s v ctx i p k now
step-Recorded key id s (reserves ctx ids r e now) v =
    reserve_all-Recorded key id s v ctx ids r e now
step-Recorded key id s (releases ctx r now) v = release_all-Recorded key id s v ctx r now
step-Recorded key id s (assigns ctx r m now) v = assign_all-Recorded key id s v ctx r m now
step-Recorded key id s (completes ctx m) v = complete-Recorded key id s v ctx m
step-Recorded key id s (recovers ctx now) v = recover-Recorded key id s v ctx now

run-Recorded :
    (key id : Text) (s : TicketStore) (cs : List Call)
    → Recorded key id s
    → Recorded key id (run s cs)
unfolding run
run-Recorded key id s [] v = v
run-Recorded key id s (c ∷ cs) v = run-Recorded key id (step s c) cs (step-Recorded key id s c v)

-- A request that succeeded has recorded its key for the ticket that it returned.
create_queued-Recorded_self :
    (ctx : Context) (s s' : TicketStore) (t u : MatchTicket) (key : Text)
    → Inv s
    → create_queued ctx s t key ≡ ok (s', some u)
    → Recorded (scoped_key t.player_id key) u.id s'
unfolding create_queued
create_queued-Recorded_self ctx s s' t u key v h =
    elim (Option-cases (lookup (scoped_key t.player_id key) s.create_idempotency)) [
      | inr (id, known) ↦ ground (arith, v.indexed_part.keyed id u)
      | inl fresh_key ↦ ground (
        arith,
        lookup-insert t.id t.id t s.tickets,
        text_beq_iff t.id t.id,
        lookup-insert (scoped_key t.player_id key) (scoped_key t.player_id key) t.id
            s.create_idempotency,
        text_beq_iff (scoped_key t.player_id key) (scoped_key t.player_id key),
      )
    ]

-- When `CreateQueued` on a store that satisfies the invariant has returned a ticket, then after any
-- further calls of the store a request of the same player under the same key succeeds, changes nothing,
-- and returns that ticket as it then is.
pub create_queued_retry :
    (ctx : Context) (s s' : TicketStore) (t u again : MatchTicket) (key : Text) (cs : List Call)
    → Inv s
    → create_queued ctx s t key ≡ ok (s', some u)
    → again.player_id ≡ t.player_id
    → (w : MatchTicket) × (create_queued none (run s' cs) again key ≡ ok (run s' cs, some w))
      × (lookup u.id (run s' cs).tickets ≡ some w)
create_queued_retry ctx s s' t u again key cs v h same =
    let r =
      run-Recorded (scoped_key t.player_id key) u.id s' cs
        (create_queued-Recorded_self ctx s s' t u key v h) in
    elim (Option-cases (lookup u.id (run s' cs).tickets)) [
      | inl missing ↦ absurd (ground (arith, r.ticket_kept))
      | inr (w, found) ↦
          (w, unfold create_queued in rw same (rw (r.record_kept, found) refl), found)
    ]
