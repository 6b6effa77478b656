-- ===== src/TicketStore/Creating.antt =====
-- ticket_store.go: `CreateQueued`, `Cancel`, `CompleteAssignedTickets`.
use match_mind.Base.{
  Bool, Context, List, Map, Option, Result, [], active_ticket_exists, check_context, delete, false,
  if◌then◌else◌, insert, invalid_match, invalid_ticket, is_some, lookup, lookup_or, none, not, ok,
  or_fail, reject_if, some, sort_stable, ticket_forbidden, ticket_not_found, values, ◌&&◌, ◌++◌,
  ◌==◌, ◌>>=◌, ◌>>◌, ◌∷◌,
}
use match_mind.Clock.{Time}
use match_mind.Text.{Text, is_empty, trim_space, text_eq}
use match_mind.Ticket.{MatchTicket, PoolKey, is_active, is_queue_candidate, is_assigned, cancel}
use match_mind.TicketStore.State.{
  Tickets, TicketStore, pool_key, pool_key_eq, scoped_key, remove_from_pool, older,
}

-- The order of a pool. Every ID of a pool is the ID of a ticket.
abbrev pub id_older : Tickets → Text → Text → Bool
id_older tickets i j = elim (lookup i tickets) [
  | none ↦ false
  | some t ↦ elim (lookup j tickets) [ none ↦ false | some u ↦ older t u ]
]

abbrev pub has_active : TicketStore → Text → Bool
has_active s player_id = elim (lookup player_id s.active_by_player) [
  | none ↦ false
  | some id ↦ elim (lookup id s.tickets) [ none ↦ false | some t ↦ is_active t ]
]

-- The part of `CreateQueued` that writes.
unfoldable pub store_queued : TicketStore → MatchTicket → Text → TicketStore
store_queued s t key =
    let tickets = insert t.id t s.tickets in
    let ids = lookup_or [] (pool_key t) s.pools ++ t.id ∷ [] in
    record s {
      tickets = tickets;
      active_by_player = insert t.player_id t.id s.active_by_player;
      create_idempotency = insert key t.id s.create_idempotency;
      pools = insert (pool_key t) (sort_stable (id_older tickets) ids) s.pools;
    }

-- The result is a pointer, nil for an idempotency record whose ticket is not there.
unfoldable pub create_queued :
    Context → TicketStore → MatchTicket → Text → Result (TicketStore × Option MatchTicket)
unfolding store_queued
create_queued ctx s t idempotency_key = do
  check_context ctx
  let key = scoped_key t.player_id idempotency_key
  elim (lookup key s.create_idempotency) [
    | some id ↦ ok (s, lookup id s.tickets)
    | none ↦ do
      reject_if (is_some (lookup t.id s.tickets)) active_ticket_exists
      reject_if (has_active s t.player_id) active_ticket_exists
      reject_if (not (is_queue_candidate t)) invalid_ticket
      ok (store_queued s t key, some t)
  ]

abbrev pub delete_active : Text → Text → Map Text Text → Map Text Text
delete_active player_id ticket_id active =
    if lookup_or [] player_id active == ticket_id then delete player_id active else active

unfoldable pub store_cancelled :
    TicketStore → Text → Text → Text → PoolKey → MatchTicket → TicketStore
store_cancelled s ticket_id player_id key pool t = record s {
  tickets = insert ticket_id t s.tickets;
  cancel_idempotency = insert key ticket_id s.cancel_idempotency;
  active_by_player = delete_active player_id ticket_id s.active_by_player;
  pools = remove_from_pool pool ticket_id s.pools;
}

unfoldable pub cancel_ticket :
    Context → TicketStore → Text → Text → Text → Time → Result (TicketStore × Option MatchTicket)
unfolding store_cancelled
cancel_ticket ctx s ticket_id player_id idempotency_key now = do
  check_context ctx
  let id = trim_space ticket_id
  let player = trim_space player_id
  let key = scoped_key player idempotency_key
  elim (lookup key s.cancel_idempotency) [
    | some previous ↦ do
      reject_if (not (previous == id)) ticket_forbidden
      ok (s, lookup previous s.tickets)
    | none ↦ do
      t ← or_fail (lookup id s.tickets) ticket_not_found
      reject_if (not (t.player_id == player)) ticket_forbidden
      cancelled_ticket ← cancel t now
      ok (store_cancelled s id player key (pool_key t) cancelled_ticket, some cancelled_ticket)
  ]

-- The loop over the tickets in `CompleteAssignedTickets`.
unfoldable pub complete_each : Text → List MatchTicket → Map Text Text → Map Text Text
complete_each match_id [] active = active
complete_each match_id (t ∷ ts) active = complete_each match_id ts (
    if is_assigned t.state && t.match_id == match_id
    then delete_active t.player_id t.id active
    else active)

unfoldable pub complete_assigned_tickets : Context → TicketStore → Text → Result TicketStore
unfolding complete_each
complete_assigned_tickets ctx s match_id = do
  check_context ctx
  let id = trim_space match_id
  reject_if (is_empty id) invalid_match
  ok (record s { active_by_player = complete_each id (values s.tickets) s.active_by_player })
