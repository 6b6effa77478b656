-- ===== src/TicketService.antt =====
-- internal/matchmaking/application/ticket_service.go: what a player asks of the matchmaker. The player reader
-- and the ID generator are arguments, as the results that they return; `now` is what the clock gives.
pub mod Region
pub mod Retry
use match_mind.TicketStore
use match_mind.Base.{
  Bool, Context, List, Map, Option, Result, [], err, idempotency_key_required, if◌then◌else◌,
  invalid_ticket, keys, lookup_or, none, ok, player_banned, reject_if, some, sort_stable, ◌>>=◌,
  ◌>>◌, ◌∷◌,
}
use match_mind.Base.Int.{ltb_ℤ, pos, ℤ}
use match_mind.Clock.{Time}
use match_mind.Float64.{Float64}
use match_mind.Text.{Text, is_empty, lower_trim, text_lt, trim_space, text_eq}
use match_mind.Ticket.{queue, MatchTicket, Role, new_ticket}
use match_mind.TicketStore.{TicketStore, cancel_ticket, create_queued, get_active_by_player}

pub record PlayerSnapshot : Type 0 where
  pub id : Text
  pub rating : Float64
  pub banned : Bool
  pub behavior_score : Float64
  pub hero_proficiency : Map Text Float64
  pub preferred_roles : List Role
  pub region_latency : Map Text ℤ

pub record CreateTicketCommand : Type 0 where
  pub party_id : Text
  pub mode : Text
  pub client_version : Text
  pub preferred_roles : List Role
  pub region_latency : Map Text ℤ
  pub idempotency_key : Text

-- `latencies[region]`
abbrev pub latency_of : Map Text ℤ → Text → ℤ
latency_of latencies region = lookup_or (pos 0) region latencies

-- The loop of `bestRegion`: a later region replaces the best one by a lower latency only.
unfoldable pub lowest : Map Text ℤ → Text → List Text → Text
lowest latencies best [] = best
lowest latencies best (region ∷ regions) =
    lowest latencies
      (if ltb_ℤ (latency_of latencies region) (latency_of latencies best) then region else best)
      regions

-- The key that `bestRegion` chooses, if there is one.
abbrev pub first_lowest : Map Text ℤ → List Text → Option Text
first_lowest latencies [] = none
first_lowest latencies (region ∷ regions) = some (lowest latencies region regions)

unfoldable pub best_key : Map Text ℤ → Option Text
unfolding lowest
best_key latencies = first_lowest latencies (sort_stable text_lt (keys latencies))

unfoldable pub best_region : Map Text ℤ → Result Text
unfolding best_key
best_region latencies = elim (best_key latencies) [
  | none ↦ err invalid_ticket
  | some key ↦ ok (lower_trim key)
]

abbrev pub or_roles : List Role → List Role → List Role
or_roles [] roles = roles
or_roles (r ∷ rs) roles = r ∷ rs

abbrev pub or_latencies : Map Text ℤ → Map Text ℤ → Map Text ℤ
or_latencies [] latencies = latencies
or_latencies (l ∷ ls) latencies = l ∷ ls

unfoldable pub create_ticket :
    Context
    → TicketStore
    → Result PlayerSnapshot
    → Result Text
    → Time
    → CreateTicketCommand
    → Result (TicketStore × Option MatchTicket)
create_ticket ctx s reader generator now c = do
  reject_if (is_empty (trim_space c.idempotency_key)) idempotency_key_required
  p ← reader
  reject_if p.banned player_banned
  let roles = or_roles c.preferred_roles p.preferred_roles
  let latencies = or_latencies c.region_latency p.region_latency
  region ← best_region latencies
  ticket_id ← generator
  t ← new_ticket (record {
    id = ticket_id;
    player_id = p.id;
    party_id = c.party_id;
    mode = c.mode;
    client_version = c.client_version;
    region = region;
    rating = p.rating;
    behavior_score = p.behavior_score;
    hero_proficiency = p.hero_proficiency;
    preferred_roles = roles;
    region_latency = latencies;
    created_at = now;
  })
  queued_ticket ← queue t now
  create_queued ctx s queued_ticket (trim_space c.idempotency_key)

unfoldable pub get_ticket : Context → TicketStore → Text → Result MatchTicket
get_ticket ctx s ticket_id = TicketStore.get ctx s (trim_space ticket_id)

unfoldable pub get_active_ticket_for_player : Context → TicketStore → Text → Result MatchTicket
get_active_ticket_for_player ctx s player_id = do
  let player = trim_space player_id
  reject_if (is_empty player) invalid_ticket
  get_active_by_player ctx s player

unfoldable pub cancel_ticket_of_player :
    Context → TicketStore → Text → Text → Text → Time → Result (TicketStore × Option MatchTicket)
cancel_ticket_of_player ctx s ticket_id player_id idempotency_key now = do
  reject_if (is_empty (trim_space idempotency_key)) idempotency_key_required
  cancel_ticket ctx s ticket_id player_id idempotency_key now
