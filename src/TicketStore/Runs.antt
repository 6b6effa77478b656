-- ===== src/TicketStore/Runs.antt =====
-- The store under any sequence of calls, one after the other as its lock orders them.
use match_mind.Base.{
  Bool-cases, Context, List, Option-cases, Result, [], arith, err, inl, inr, lookup, none, ok, some,
  state_or, ◌∷◌, Result-cases, distinct, false, insert, refl, subst, true, ◌==◌, ◌≡◌,
}
use match_mind.Clock.{Time}
use match_mind.Text.{Text, text_eq, is_empty, text_beq_iff, trim_space}
use match_mind.Ticket.{MatchTicket, is_queue_candidate, PoolKey, cancel, is_reserved}
use match_mind.TicketStore.{
  TicketStore, create_queued, cancel_ticket, complete_assigned_tickets, reserve_all, release_all,
  assign_all, recover_expired_reservations, has_active, scoped_key, delete_active, new_ticket_store,
  pool_key, store_cancelled,
}
use match_mind.TicketStore.Conclusion.{assign_all-Inv, release_all-Inv}
use match_mind.TicketStore.ExpiryLoop.{recover_total}
use match_mind.TicketStore.Indexing.{create-Indexed, cancel-Indexed, complete-Indexed}
use match_mind.TicketStore.Invariant.{Inv, Indexed, is_waiting}
use match_mind.TicketStore.Reservation.{reserve_all-Inv}
use match_mind.TicketStore.Settling.{put-Reserved}

-- A call of a method that writes, with its arguments and the time of its clock.
pub data Call : Type 0 where
  creates : Context → MatchTicket → Text → Call
  cancels : Context → Text → Text → Text → Time → Call
  reserves : Context → List Text → Text → Time → Time → Call
  releases : Context → Text → Time → Call
  assigns : Context → Text → Text → Time → Call
  completes : Context → Text → Call
  recovers : Context → Time → Call

abbrev or_same : TicketStore → Result TicketStore → TicketStore
or_same s (ok s') = s'
or_same s (err e) = s

-- The store after a call; a call that fails leaves it as it was, but for the recovery.
unfoldable pub step : TicketStore → Call → TicketStore
step s (creates ctx t key) = state_or s (create_queued ctx s t key)
step s (cancels ctx id player key now) = state_or s (cancel_ticket ctx s id player key now)
step s (reserves ctx ids id expires_at now) = state_or s (reserve_all ctx s ids id expires_at now)
step s (releases ctx id now) = or_same s (release_all ctx s id now)
step s (assigns ctx id match_id now) = state_or s (assign_all ctx s id match_id now)
step s (completes ctx match_id) = or_same s (complete_assigned_tickets ctx s match_id)
step s (recovers ctx now) = (recover_expired_reservations ctx s now).0

unfoldable pub run : TicketStore → List Call → TicketStore
run s [] = s
run s (c ∷ cs) = run (step s c) cs

create_queued-Inv :
    (ctx : Context) (s : TicketStore) (t : MatchTicket) (key : Text)
    → Inv s
    → Inv (state_or s (create_queued ctx s t key))
unfolding create_queued
create_queued-Inv (some e) s t key v = v
create_queued-Inv none s t key v =
    elim (Option-cases (lookup (scoped_key t.player_id key) s.create_idempotency)) [
      | inr (id, e) ↦ rw (e, create_queued) v
      | inl e ↦ elim (Option-cases (lookup t.id s.tickets)) [
        | inr (u, old) ↦ rw (e, old, create_queued) v
        | inl new ↦ elim (Bool-cases (has_active s t.player_id)) [
          | inl busy ↦ rw (e, new, busy, create_queued) v
          | inr idle ↦ elim (Bool-cases (is_queue_candidate t)) [
            | inr other ↦ rw (e, new, idle, other, create_queued) v
            | inl waits ↦
                rw (e, new, idle, waits, create_queued)
                  (record {
                    reserved_part =
                        put-Reserved s.tickets s.reservations t.id t v.reserved_part (ground arith)
                          (λ u found. ground arith);
                    indexed_part = create-Indexed s t v.indexed_part new idle;
                  })
          ]
        ]
      ]
    ]

-- What a cancellation that succeeds says of the ticket before and after.
cancel_result :
    (t u : MatchTicket) (now : Time)
    → cancel t now ≡ ok u
    → (u.id ≡ t.id) × (is_waiting u ≡ false) × (is_reserved t.state ≡ false)
unfolding cancel
cancel_result t u now h = (ground arith, ground arith, ground arith)

stored_cancelled-Inv :
    (s : TicketStore) (id player key : Text) (pool : PoolKey) (t u : MatchTicket) (now : Time)
    → Inv s
    → lookup id s.tickets ≡ some t
    → t.player_id ≡ player
    → cancel t now ≡ ok u
    → Inv (store_cancelled s id player key pool u)
unfolding store_cancelled
stored_cancelled-Inv s id player key pool t u now v found mine done =
    let (same, stopped, free) = cancel_result t u now done in
    record {
      reserved_part =
          put-Reserved s.tickets s.reservations id u v.reserved_part (ground arith)
            (λ w at. ground arith);
      indexed_part =
          subst (λ p. Indexed (insert id u s.tickets) (delete_active p id s.active_by_player)) mine
            (cancel-Indexed s.tickets s.active_by_player id t u v.indexed_part found same stopped);
    }

cancel_ticket-Inv :
    (ctx : Context) (s : TicketStore) (ticket_id player_id key : Text) (now : Time)
    → Inv s
    → Inv (state_or s (cancel_ticket ctx s ticket_id player_id key now))
unfolding cancel_ticket
cancel_ticket-Inv (some e) s ticket_id player_id key now v = v
cancel_ticket-Inv none s ticket_id player_id key now v =
    let id = trim_space ticket_id in
    let player = trim_space player_id in
    elim (Option-cases (lookup (scoped_key player key) s.cancel_idempotency)) [
      | inr (previous, e) ↦ elim (Bool-cases (previous == id)) [
        | inl same ↦ rw (e, same, cancel_ticket) v
        | inr other ↦ rw (e, other, cancel_ticket) v
      ]
      | inl e ↦ elim (Option-cases (lookup id s.tickets)) [
        | inl missing ↦ rw (e, missing, cancel_ticket) v
        | inr (t, found) ↦ elim (Bool-cases (t.player_id == player)) [
          | inr foreign ↦ rw (e, found, foreign, cancel_ticket) v
          | inl mine ↦ elim (Result-cases (cancel t now)) [
            | inr (x, refused) ↦ rw (e, found, mine, refused, cancel_ticket) v
            | inl (u, done) ↦
                rw (e, found, mine, done, cancel_ticket)
                  (stored_cancelled-Inv s id player (scoped_key player key) (pool_key t) t u now v
                    found ((text_beq_iff t.player_id player).0 mine) done)
          ]
        ]
      ]
    ]

complete_assigned_tickets-Inv :
    (ctx : Context) (s : TicketStore) (match_id : Text)
    → Inv s
    → Inv (or_same s (complete_assigned_tickets ctx s match_id))
unfolding complete_assigned_tickets
complete_assigned_tickets-Inv (some e) s match_id v = v
complete_assigned_tickets-Inv none s match_id v =
    elim (Bool-cases (is_empty (trim_space match_id))) [
      | inl blank ↦ rw (blank, complete_assigned_tickets) v
      | inr named ↦
          rw (named, complete_assigned_tickets)
            (record {
              reserved_part = v.reserved_part;
              indexed_part =
                  complete-Indexed s.tickets s.active_by_player (trim_space match_id)
                    v.indexed_part;
            })
    ]

or_same-Inv :
    (s : TicketStore) (r : Result TicketStore)
    → Inv s
    → ((s' : TicketStore) → r ≡ ok s' → Inv s')
    → Inv (or_same s r)
or_same-Inv s (ok s') v h = h s' refl
or_same-Inv s (err e) v h = v

state_or-Inv :
    (s : TicketStore) (r : Result (TicketStore × List MatchTicket))
    → Inv s
    → ((s' : TicketStore) (ts : List MatchTicket) → r ≡ ok (s', ts) → Inv s')
    → Inv (state_or s r)
state_or-Inv s (ok (s', ts)) v h = h s' ts refl
state_or-Inv s (err e) v h = v

recovers-Inv :
    (ctx : Context) (s : TicketStore) (now : Time)
    → Inv s
    → Inv (recover_expired_reservations ctx s now).0
recovers-Inv none s now v = (recover_total s now v).1
recovers-Inv (some e) s now v = unfold recover_expired_reservations in v

-- Every call of every writing method keeps the invariant of the store, whether it succeeds or fails.
pub step-Inv : (s : TicketStore) (c : Call) → Inv s → Inv (step s c)
unfolding step
step-Inv s (creates ctx t key) v = create_queued-Inv ctx s t key v
step-Inv s (cancels ctx id player key now) v = cancel_ticket-Inv ctx s id player key now v
step-Inv s (reserves ctx ids id expires_at now) v = reserve_all-Inv ctx s ids id expires_at now v
step-Inv s (releases ctx id now) v = or_same-Inv s _ v (release_all-Inv ctx s id now v)
step-Inv s (assigns ctx id match_id now) v =
    state_or-Inv s _ v (assign_all-Inv ctx s id match_id now v)
step-Inv s (completes ctx match_id) v = complete_assigned_tickets-Inv ctx s match_id v
step-Inv s (recovers ctx now) v = recovers-Inv ctx s now v

pub run-keeps : (s : TicketStore) (cs : List Call) → Inv s → Inv (run s cs)
unfolding run
run-keeps s [] v = v
run-keeps s (c ∷ cs) v = run-keeps (step s c) cs (step-Inv s c v)

new_ticket_store-Inv : Inv new_ticket_store
unfolding distinct lookup
new_ticket_store-Inv = record {
  reserved_part = record {
    unique = refl;
    held = λ r ids h. absurd (ground arith);
    owned = λ j t h r. absurd (ground arith);
  };
  indexed_part = record {
    unique = refl;
    keyed = λ j t h. absurd (ground arith);
    waiting = λ j t h w. absurd (ground arith);
  };
}

-- After any sequence of calls of the seven writing methods on a new store, the recorded reservations are
-- nonempty IDs without repeated tickets that hold exactly the tickets in state RESERVED under one expiry
-- each, tickets stand under their IDs, and the index gives, for the player of a ticket that is queued or
-- reserved, that ticket.
pub run-Inv : (cs : List Call) → Inv (run new_ticket_store cs)
run-Inv cs = run-keeps new_ticket_store cs new_ticket_store-Inv

-- After any sequence of calls of the seven writing methods on a new store, two stored tickets of one
-- player that are both queued or reserved stand under the same ID.
pub run-one_waiting :
    (cs : List Call) (i j : Text) (t u : MatchTicket)
    → lookup i (run new_ticket_store cs).tickets ≡ some t
    → lookup j (run new_ticket_store cs).tickets ≡ some u
    → is_waiting t ≡ true
    → is_waiting u ≡ true
    → t.player_id ≡ u.player_id
    → i ≡ j
run-one_waiting cs i j t u found found' w w' same =
    let v = (run-Inv cs).indexed_part in
    let first = v.waiting i t found w in let second = v.waiting j u found' w' in ground arith
