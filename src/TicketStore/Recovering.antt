-- ===== src/TicketStore/Recovering.antt =====
-- ticket_store.go: `RecoverExpiredReservations`, which writes as it goes: a failure keeps what it wrote.
use match_mind.Base.{
  Bool, Context, Error, List, Map, Option, [], delete, err, if◌then◌else◌, insert, lookup, none, ok,
  some, suc, true, ℕ, ◌>>=◌, ◌∷◌,
}
use match_mind.Clock.{Time, after}
use match_mind.Text.{Text, text_eq}
use match_mind.Ticket.{release_expired_reservation}
use match_mind.TicketStore.Reserving.{or_conflict, stored}
use match_mind.TicketStore.State.{Tickets, TicketStore}

-- The tickets after the call, the number recovered, and the error.
pub record Recovery : Type 0 where
  pub tickets : Tickets
  pub reservations : Map Text (List Text)
  pub recovered : ℕ
  pub failure : Option Error

unfoldable pub recover_each : Time → Recovery → List Text → Recovery
recover_each now r [] = r
recover_each now r (id ∷ ids) =
    elim (stored r.tickets id >>= λ t. or_conflict (release_expired_reservation t now)) [
      | err e ↦ record r { failure = some e }
      | ok t ↦
          recover_each now
            (record r { tickets = insert id t r.tickets; recovered = suc r.recovered }) ids
    ]

-- Is the reservation whose first ticket is `id` left alone?
abbrev pub still_held : Time → Tickets → Text → Bool
still_held now tickets id = elim (lookup id tickets) [
  | none ↦ true
  | some t ↦ after t.reservation_expires_at now
]

unfoldable pub recover_reservation : Time → Recovery → Text → List Text → Recovery
unfolding recover_each
recover_reservation now r reservation_id [] = record r {
  reservations = delete reservation_id r.reservations;
}
recover_reservation now r reservation_id (id ∷ ids) =
    if still_held now r.tickets id
    then r
    else let done = recover_each now r (id ∷ ids) in
      elim done.failure [
        | some e ↦ done
        | none ↦ record done { reservations = delete reservation_id done.reservations }
      ]

unfoldable pub recover_loop : Time → Recovery → Map Text (List Text) → Recovery
unfolding recover_reservation
recover_loop now r [] = r
recover_loop now r ((reservation_id, ids) ∷ rest) =
    let next = recover_reservation now r reservation_id ids in
    elim next.failure [ some e ↦ next | none ↦ recover_loop now next rest ]

unfoldable pub recover_expired_reservations :
    Context → TicketStore → Time → TicketStore × ℕ × Option Error
unfolding recover_loop
recover_expired_reservations (some e) s now = (s, 0, some e)
recover_expired_reservations none s now =
    let r =
      recover_loop now
        (record {
          tickets = s.tickets;
          reservations = s.reservations;
          recovered = 0;
          failure = none;
        })
        s.reservations in
    (record s { tickets = r.tickets; reservations = r.reservations }, r.recovered, r.failure)
