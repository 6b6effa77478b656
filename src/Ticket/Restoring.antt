-- ===== src/Ticket/Restoring.antt =====
-- A ticket survives the store: `RestoreTicket` gives back what any history has made of a new ticket.
use match_mind.Base.{arith, false, ok, sym, ◌≡◌}
use match_mind.Clock.{is_zero}
use match_mind.Text.{trim_space}
use match_mind.Ticket.{MatchTicket, NewTicketParams, new_ticket, restore_ticket, reservation_fits}
use match_mind.Ticket.History.{History, IsConsistent, History-IsConsistent, History-params}
use match_mind.Ticket.Validation.{new_ticket_idem, new_ticket-fresh}

new_ticket-IsConsistent :
    (p : NewTicketParams) (t : MatchTicket) → new_ticket p ≡ ok t → IsConsistent t
unfolding reservation_fits trim_space
new_ticket-IsConsistent p t h = let (e, _) = new_ticket-fresh p t h in ground arith

restore-IsConsistent :
    (t u : MatchTicket)
    → new_ticket u.params ≡ ok t
    → t.params ≡ u.params
    → is_zero u.created_at ≡ false
    → IsConsistent u
    → restore_ticket u ≡ ok u
unfolding restore_ticket
restore-IsConsistent t u h e z c = ground arith

-- When `NewTicket` makes a ticket and any sequence of successful calls of its methods, each at a time not
-- before its creation, leads to `u`, `RestoreTicket` of the snapshot of `u` succeeds with `u` itself.
pub restore_ticket-History :
    (p : NewTicketParams) {t u : MatchTicket}
    → new_ticket p ≡ ok t
    → History t u
    → restore_ticket u ≡ ok u
restore_ticket-History p {t} {u} h r =
    let e = History-params r in
    let again : new_ticket u.params ≡ ok t = rw e (new_ticket_idem p t h) in
    restore-IsConsistent t u again (sym e) (rw e ((new_ticket-fresh p t h).1))
      (History-IsConsistent (new_ticket-IsConsistent p t h) r)
