-- ===== src/Examples/Requests.antt =====
-- A player who sends the same request again.
use match_mind.Base.{[], false, lookup, none, ok, refl, some, ◌∷◌, ◌≡◌}
use match_mind.Base.Int.{pos}
use match_mind.Examples.Data.{ana, stocked}
use match_mind.Examples.Stores.{stocked-Inv}
use match_mind.Float64.{float}
use match_mind.Text.{codes, text_eq}
use match_mind.Ticket.{core}
use match_mind.TicketService.{PlayerSnapshot, CreateTicketCommand, create_ticket}
use match_mind.TicketService.Retry.{create_ticket_retry}
use match_mind.TicketStore.Runs.{run}

abbrev ana_snapshot : PlayerSnapshot
ana_snapshot = record {
  id = codes "ana";
  rating = float 1500;
  banned = false;
  behavior_score = float 90;
  hero_proficiency = [];
  preferred_roles = core ∷ [];
  region_latency = (codes "tokyo", pos 20) ∷ [];
}

abbrev ana_command : CreateTicketCommand
ana_command = record {
  party_id = [];
  mode = codes "ranked_5v5";
  client_version = codes "1.2";
  preferred_roles = [];
  region_latency = [];
  idempotency_key = codes " k1";
}

ana_request :
    create_ticket none stocked (ok ana_snapshot) (ok (codes "t8")) 8 ana_command
    ≡ ok (stocked, some ana)
unfolding create_ticket match_mind.Ticket.new_ticket match_mind.Ticket.incomplete
    match_mind.Ticket.trim_params match_mind.Text.trim_space match_mind.Text.to_lower
    match_mind.Float64.float_le match_mind.Float64.float_lt match_mind.Float64.unit
    match_mind.Game.Mode.parse match_mind.Base.lookup match_mind.Text.text_beq
    match_mind.Ticket.validate_ticket_roles match_mind.Ticket.validate_ticket_latency
    match_mind.Ticket.validate_ticket_hero_proficiency match_mind.Base.contains
    match_mind.Ticket.clone_ticket_proficiency match_mind.TicketService.best_region
    match_mind.Base.sort_stable match_mind.Ticket.queue match_mind.TicketStore.create_queued
    match_mind.TicketStore.scoped_key
ana_request = refl

ana_request_again :
    create_ticket none (run stocked []) (ok ana_snapshot) (ok (codes "t9")) 9 ana_command
    ≡ ok (stocked, some ana)
unfolding create_ticket run match_mind.Ticket.new_ticket match_mind.Ticket.incomplete
    match_mind.Ticket.trim_params match_mind.Text.trim_space match_mind.Text.to_lower
    match_mind.Float64.float_le match_mind.Float64.float_lt match_mind.Float64.unit
    match_mind.Game.Mode.parse match_mind.Base.lookup match_mind.Text.text_beq
    match_mind.Ticket.validate_ticket_roles match_mind.Ticket.validate_ticket_latency
    match_mind.Ticket.validate_ticket_hero_proficiency match_mind.Base.contains
    match_mind.Ticket.clone_ticket_proficiency match_mind.TicketService.best_region
    match_mind.Base.sort_stable match_mind.Ticket.queue match_mind.TicketStore.create_queued
    match_mind.TicketStore.scoped_key
ana_request_again = refl

create_ticket_retry_example :
    (stocked ≡ run stocked []) × (lookup (codes "t1") (run stocked []).tickets ≡ some ana)
create_ticket_retry_example =
    create_ticket_retry none stocked stocked stocked ana_snapshot ana_snapshot (ok (codes "t8"))
      (ok (codes "t9")) 8 9 ana_command ana_command ana (some ana) [] stocked-Inv ana_request
      ana_request_again refl refl
