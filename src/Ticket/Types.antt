-- ===== src/Ticket/Types.antt =====
-- ticket.go and pool.go: the types. A state or a role is a string in the source; `unsupported` stands for
-- every string that is none of the constants.
use match_mind.Base.{Map, List}
use match_mind.Base.Int.{ℤ}
use match_mind.Clock.{Time}
use match_mind.Float64.{Float64}
use match_mind.Text.{Text}

pub data TicketState : Type 0 where
  created queued reserved assigned cancelled expired failed : TicketState
  unsupported_state : Text → TicketState

pub data Role : Type 0 where
  vanguard roamer core ranged support : Role
  unsupported_role : Text → Role

pub record NewTicketParams : Type 0 where
  pub id : Text
  pub player_id : Text
  pub party_id : Text
  pub mode : Text
  pub client_version : Text
  pub region : Text
  pub rating : Float64
  pub behavior_score : Float64
  pub hero_proficiency : Map Text Float64
  pub preferred_roles : List Role
  pub region_latency : Map Text ℤ
  pub created_at : Time

-- What changes in the life of a ticket.
pub record Progress : Type 0 where
  pub state : TicketState
  pub updated_at : Time
  pub reservation_id : Text
  pub reservation_expires_at : Time
  pub match_id : Text

-- The fields of `MatchTicket`: those of its parameters, and its progress. `TicketSnapshot` has the same.
pub record MatchTicket : Type 0 where
  pub params : NewTicketParams
  pub open params use *
  pub progress : Progress
  pub open progress use *

abbrev pub TicketSnapshot : Type 0
TicketSnapshot = MatchTicket

pub record PoolKey : Type 0 where
  pub mode : Text
  pub client_version : Text
  pub region : Text
