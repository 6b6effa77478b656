-- ===== src/TicketStore/Reserving.antt =====
-- ticket_store.go: `ReserveAll`, `ReleaseAll`, `AssignAll`. Each builds the map of the changed tickets first
-- and writes only when every ticket has passed.
use match_mind.Base.{
  Context, List, Map, Result, [], check_context, contains, delete, err, insert, is_some, length,
  lookup, nat_beq, nil_dereference, none, not, ok, or_fail, reject_if, reservation_conflict, some,
  ◌>>=◌, ◌>>◌, ◌||◌, ◌∷◌,
}
use match_mind.Clock.{Time}
use match_mind.Text.{Text, is_empty, trim_space, text_eq}
use match_mind.Ticket.{
  MatchTicket, is_queue_candidate, reserve, release_reservation, assign, PoolKey,
}
use match_mind.TicketStore.State.{
  Tickets, TicketStore, pool_key, pool_key_eq, remove_from_pool, clone_tickets, same_ticket_ids,
  put_all,
}

-- An error of a ticket's method becomes the conflict that the store reports.
abbrev pub or_conflict : Result MatchTicket → Result MatchTicket
or_conflict (ok t) = ok t
or_conflict (err e) = err reservation_conflict

-- A method call on a stored ticket.
abbrev pub stored : Tickets → Text → Result MatchTicket
stored tickets id = or_fail (lookup id tickets) nil_dereference

unfoldable pub reserve_each :
    Tickets → Text → Time → Time → Tickets → List Text → List Text → Result Tickets
reserve_each tickets reservation_id expires_at now updated seen [] = ok updated
reserve_each tickets reservation_id expires_at now updated seen (id ∷ ids) = do
  reject_if (is_some (lookup id updated)) reservation_conflict
  t ← or_fail (lookup id tickets) reservation_conflict
  reject_if (not (is_queue_candidate t)) reservation_conflict
  reject_if (contains t.player_id seen) reservation_conflict
  clone ← or_conflict (reserve t reservation_id expires_at now)
  reserve_each tickets reservation_id expires_at now (insert id clone updated) (t.player_id ∷ seen)
      ids

unfoldable pub reserve_all :
    Context → TicketStore → List Text → Text → Time → Time → Result (TicketStore × List MatchTicket)
unfolding reserve_each
reserve_all ctx s ticket_ids reservation_id expires_at now = do
  check_context ctx
  let id = trim_space reservation_id
  reject_if (is_empty id || nat_beq (length ticket_ids) 0) reservation_conflict
  elim (lookup id s.reservations) [
    | some existing ↦ do
      reject_if (not (same_ticket_ids existing ticket_ids)) reservation_conflict
      ok (s, clone_tickets s.tickets existing)
    | none ↦ do
      updated ← reserve_each s.tickets id expires_at now [] [] ticket_ids
      let tickets = put_all updated s.tickets
      ok (
        record s { tickets = tickets; reservations = insert id ticket_ids s.reservations },
        clone_tickets tickets ticket_ids,
      )
  ]

-- The loop of `ReleaseAll` and of `AssignAll`, for the method `change` that each calls.
unfoldable pub change_each :
    (MatchTicket → Result MatchTicket) → Tickets → Tickets → List Text → Result Tickets
change_each change tickets updated [] = ok updated
change_each change tickets updated (id ∷ ids) = do
  t ← stored tickets id
  changed ← or_conflict (change t)
  change_each change tickets (insert id changed updated) ids

unfoldable pub release_all : Context → TicketStore → Text → Time → Result TicketStore
unfolding change_each
release_all ctx s reservation_id now = do
  check_context ctx
  ticket_ids ← or_fail (lookup reservation_id s.reservations) reservation_conflict
  updated ← change_each (λ t. release_reservation t reservation_id now) s.tickets [] ticket_ids
  ok (record s {
    tickets = put_all updated s.tickets;
    reservations = delete reservation_id s.reservations;
  })

unfoldable pub remove_all : Tickets → Map PoolKey (List Text) → Map PoolKey (List Text)
remove_all [] pools = pools
remove_all ((id, t) ∷ updated) pools = remove_all updated (remove_from_pool (pool_key t) id pools)

unfoldable pub assign_all :
    Context → TicketStore → Text → Text → Time → Result (TicketStore × List MatchTicket)
unfolding change_each remove_all
assign_all ctx s reservation_id match_id now = do
  check_context ctx
  ticket_ids ← or_fail (lookup reservation_id s.reservations) reservation_conflict
  updated ← change_each (λ t. assign t reservation_id match_id now) s.tickets [] ticket_ids
  let tickets = put_all updated s.tickets
  ok (
    record s {
      tickets = tickets;
      pools = remove_all updated s.pools;
      reservations = delete reservation_id s.reservations;
    },
    clone_tickets tickets ticket_ids,
  )
