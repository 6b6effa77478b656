-- ===== src/Examples/Stores.antt =====
-- A store with two waiting tickets, and what the calls do to it.
use match_mind.Base.{
  [], contains, insert, lookup, none, ok, refl, sort_stable, subst, ◌∷◌, ◌≡◌, err,
  reservation_conflict, some, sym, true, List, false, state_or,
}
use match_mind.Clock.{after}
use match_mind.Examples.Data.{ana, bo, stocked, both, held, held_ticket, requests}
use match_mind.Text.{codes, text_beq, text_lt, trim_space, text_eq, Text, is_empty}
use match_mind.Ticket.{reserve, release_expired_reservation, MatchTicket}
use match_mind.TicketStore.{
  clone_tickets, create_queued, new_ticket_store, pool_key_beq, put_all, reserve_all, reserve_each,
  scoped_key, store_queued, release_all, assign_all, TicketStore, recover_expired_reservations,
  recover_loop, recover_reservation, recover_each,
}
use match_mind.TicketStore.Conclusion.{Ends, assign_all_total}
use match_mind.TicketStore.Effects.{requeued, changed, with_match}
use match_mind.TicketStore.Exclusive.{release_all-reserve_all, reserve_all_exclusive}
use match_mind.TicketStore.ExpiryLoop.{recover_pending, recover_total}
use match_mind.TicketStore.Idempotency.{create_queued_retry}
use match_mind.TicketStore.Invariant.{Inv}
use match_mind.TicketStore.Reservation.{Begins, reserve_all-Begins, reserve_all-Inv}
use match_mind.TicketStore.Runs.{run, step, run-Inv, step-Inv, run-one_waiting, cancels}

requests_lem : run new_ticket_store requests ≡ stocked
unfolding run step create_queued store_queued scoped_key lookup insert trim_space text_beq
    sort_stable text_lt pool_key_beq
requests_lem = refl

pub stocked-Inv : Inv stocked
stocked-Inv = subst Inv requests_lem (run-Inv requests)

pub reserve_lem :
    reserve_all none stocked both (codes "r1") 40 8
    ≡ ok (held, held_ticket ana ∷ held_ticket bo ∷ [])
unfolding reserve_all reserve_each lookup insert trim_space text_beq contains put_all clone_tickets
    reserve
reserve_lem = refl

run-Inv_example : Inv (run new_ticket_store requests)
run-Inv_example = run-Inv requests

step-Inv_example : Inv (step stocked (cancels none (codes "t1") (codes "ana") (codes "c") 9))
step-Inv_example =
    step-Inv stocked (cancels none (codes "t1") (codes "ana") (codes "c") 9) stocked-Inv

ana_stored : lookup (codes "t1") (run new_ticket_store requests).tickets ≡ some ana
ana_stored =
    subst (λ s. lookup (codes "t1") s.tickets ≡ some ana) (sym requests_lem)
      (unfold lookup text_beq in refl)

run-one_waiting_example : codes "t1" ≡ codes "t1"
run-one_waiting_example =
    run-one_waiting requests (codes "t1") (codes "t1") ana ana ana_stored ana_stored refl refl refl

no_reservation : (id : Text) → lookup (trim_space id) stocked.reservations ≡ none
unfolding lookup
no_reservation id = refl

r2_new : lookup (trim_space (codes "r2")) held.reservations ≡ none
unfolding lookup trim_space text_beq
r2_new = refl

t1_in_both : contains (codes "t1") both ≡ true
unfolding contains text_beq
t1_in_both = refl

reserve_all_exclusive_example :
    reserve_all none held both (codes "r2") 50 9 ≡ err reservation_conflict
reserve_all_exclusive_example =
    reserve_all_exclusive none stocked held both both (codes "r1") (codes "r2") 40 50 8 9
      (held_ticket ana ∷ held_ticket bo ∷ []) (codes "t1") (no_reservation (codes "r1")) reserve_lem
      t1_in_both t1_in_both r2_new

release_all-reserve_all_example :
    (s : TicketStore) × (release_all none held (trim_space (codes "r1")) 11 ≡ ok s)
    × ((j : Text)
        → lookup j s.tickets ≡ changed (requeued 11) both stocked.tickets stocked.tickets j)
    × ((q : Text) → lookup q s.reservations ≡ lookup q stocked.reservations)
release_all-reserve_all_example =
    release_all-reserve_all none stocked held both (codes "r1") 40 8 11
      (held_ticket ana ∷ held_ticket bo ∷ []) stocked-Inv (no_reservation (codes "r1")) reserve_lem

reserve_all-Begins_example : Begins stocked both (trim_space (codes "r1")) 40 8 held
reserve_all-Begins_example =
    reserve_all-Begins none stocked held both (codes "r1") 40 8
      (held_ticket ana ∷ held_ticket bo ∷ []) (no_reservation (codes "r1")) reserve_lem

held-Inv : Inv held
held-Inv =
    subst (λ r. Inv (state_or stocked r)) reserve_lem
      (reserve_all-Inv none stocked both (codes "r1") 40 8 stocked-Inv)

r1_recorded : lookup (codes "r1") held.reservations ≡ some both
unfolding lookup text_beq
r1_recorded = refl

match_named : is_empty (trim_space (codes "m1")) ≡ false
unfolding trim_space
match_named = refl

assign_all_total_example :
    (s : TicketStore) × (ts : List MatchTicket) × (assign_all none held (codes "r1") (codes "m1") 11
      ≡ ok (s, ts))
    × Ends held (codes "r1") both (with_match (trim_space (codes "m1")) 11) s
assign_all_total_example =
    assign_all_total held (codes "r1") both held-Inv r1_recorded (codes "m1") 11 match_named

recover_total_example :
    ((recover_expired_reservations none held 39).2 ≡ none)
    × Inv (recover_expired_reservations none held 39).0
recover_total_example = recover_total held 39 held-Inv

r1_kept : lookup (codes "r1") (recover_expired_reservations none held 39).0.reservations ≡ some both
unfolding recover_expired_reservations recover_loop recover_reservation lookup text_beq
r1_kept = refl

t1_kept :
    lookup (codes "t1") (recover_expired_reservations none held 39).0.tickets
    ≡ some (held_ticket ana)
unfolding recover_expired_reservations recover_loop recover_reservation lookup text_beq
t1_kept = refl

recover_pending_example : after (held_ticket ana).reservation_expires_at 39 ≡ true
recover_pending_example =
    recover_pending held 39 (codes "r1") both (codes "t1") (held_ticket ana) held-Inv r1_kept
      t1_in_both t1_kept

-- At 40 the reservation is over: both tickets are back in the queue.
recovered_count : (recover_expired_reservations none held 40).1 ≡ 2
unfolding recover_expired_reservations recover_loop recover_reservation recover_each lookup text_beq
    insert release_expired_reservation
recovered_count = refl

ana_again : create_queued none stocked ana (codes "k1") ≡ ok (stocked, some ana)
unfolding create_queued scoped_key trim_space lookup text_beq
ana_again = refl

create_queued_retry_example :
    (w : MatchTicket) × (create_queued none
        (run stocked (cancels none (codes "t1") (codes "ana") (codes "c") 9 ∷ []))
        ana
        (codes "k1")
      ≡ ok (run stocked (cancels none (codes "t1") (codes "ana") (codes "c") 9 ∷ []), some w))
    × (lookup ana.id
          (run stocked (cancels none (codes "t1") (codes "ana") (codes "c") 9 ∷ [])).tickets
        ≡ some w)
create_queued_retry_example =
    create_queued_retry none stocked stocked ana ana ana (codes "k1")
      (cancels none (codes "t1") (codes "ana") (codes "c") 9 ∷ []) stocked-Inv ana_again refl
