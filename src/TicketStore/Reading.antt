-- ===== src/TicketStore/Reading.antt =====
-- ticket_store.go: the methods that only read.
use match_mind.Base.{
  Bool, Context, List, Map, Result, [], check_context, false, if◌then◌else◌, keep, length, lookup,
  lookup_or, none, not, ok, or_fail, reject_if, some, sort_stable, suc, ticket_not_found, values,
  zero, ℕ, ◌==◌, ◌>>=◌, ◌>>◌, ◌||◌, ◌∷◌,
}
use match_mind.Base.Int.{leb_ℤ, ltb_ℤ, pos, pos_part, ℤ}
use match_mind.Text.{Text, text_lt, trim_space, text_eq}
use match_mind.Ticket.{MatchTicket, PoolKey, is_active, is_queue_candidate, is_reserved}
use match_mind.TicketStore.State.{Tickets, TicketStore, pool_key_eq, older}

unfoldable pub get : Context → TicketStore → Text → Result MatchTicket
get ctx s ticket_id = do
  check_context ctx
  or_fail (lookup (trim_space ticket_id) s.tickets) ticket_not_found

unfoldable pub get_active_by_player : Context → TicketStore → Text → Result MatchTicket
get_active_by_player ctx s player_id = do
  check_context ctx
  id ← or_fail (lookup (trim_space player_id) s.active_by_player) ticket_not_found
  t ← or_fail (lookup id s.tickets) ticket_not_found
  reject_if (not (is_active t)) ticket_not_found
  ok t

abbrev pub is_candidate_id : Tickets → Text → Bool
is_candidate_id tickets id = elim (lookup id tickets) [
  | none ↦ false
  | some t ↦ is_queue_candidate t
]

-- The loop of `QueueSnapshot`, which stops when it has as many tickets as it may take.
unfoldable pub collect : Tickets → ℕ → List Text → List MatchTicket
collect tickets zero ids = []
collect tickets (suc n) [] = []
collect tickets (suc n) (id ∷ ids) =
    let taken = collect tickets n ids in
    let skipped = collect tickets (suc n) ids in
    elim (lookup id tickets) [
      | none ↦ skipped
      | some t ↦ if is_queue_candidate t then t ∷ taken else skipped
    ]

-- `limit` as the source bounds it by the length of the pool.
abbrev pub bounded_limit : ℤ → ℕ → ℕ
bounded_limit limit size =
    if leb_ℤ limit (pos 0) || ltb_ℤ (pos size) limit then size else pos_part limit

unfoldable pub queue_snapshot : Context → TicketStore → PoolKey → ℤ → Result (List MatchTicket)
unfolding collect
queue_snapshot ctx s key limit = do
  check_context ctx
  let ids = lookup_or [] key s.pools
  ok (collect s.tickets (bounded_limit limit (length ids)) ids)

unfoldable pub any_candidate : Tickets → List Text → Bool
any_candidate tickets [] = false
any_candidate tickets (id ∷ ids) = is_candidate_id tickets id || any_candidate tickets ids

unfoldable pub live_keys : Tickets → Map PoolKey (List Text) → List PoolKey
unfolding any_candidate
live_keys tickets [] = []
live_keys tickets ((key, ids) ∷ pools) =
    let rest = live_keys tickets pools in if any_candidate tickets ids then key ∷ rest else rest

abbrev pub key_below : PoolKey → PoolKey → Bool
key_below k l =
    if not (k.mode == l.mode)
    then text_lt k.mode l.mode
    else if not (k.client_version == l.client_version)
    then text_lt k.client_version l.client_version
    else text_lt k.region l.region

unfoldable pub pool_keys : Context → TicketStore → Result (List PoolKey)
unfolding live_keys
pool_keys ctx s = do check_context ctx; ok (sort_stable key_below (live_keys s.tickets s.pools))

unfoldable pub queue_size : Context → TicketStore → Result ℕ
queue_size ctx s = do
  check_context ctx
  ok (length (keep (λ t. is_queue_candidate t) (values s.tickets)))

unfoldable pub active_tickets : Context → TicketStore → Result (List MatchTicket)
active_tickets ctx s = do
  check_context ctx
  ok (
      sort_stable older
        (keep (λ t. is_queue_candidate t || is_reserved t.state) (values s.tickets)))
