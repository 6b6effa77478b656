-- ===== src/Match/Types.antt =====
-- match.go: the types. A state or a winner is a string in the source; `unknown_state` and `unknown_team`
-- stand for every string that is none of the constants.
use match_mind.Base.{Bool, List, Option}
use match_mind.Base.Int.{ℤ}
use match_mind.Clock.{Time}
use match_mind.Float64.{Float64}
use match_mind.Text.{Text}
use match_mind.Ticket.{Role}

pub data MatchState : Type 0 where
  created allocating ready running finished failed : MatchState
  unknown_state : Text → MatchState

pub record MatchPlayer : Type 0 where
  pub player_id : Text
  pub ticket_id : Text
  pub party_id : Text
  pub role : Role
  pub rating : Float64
  pub hero_id : Text
  pub hero_proficiency : Float64
  pub behavior_score : Float64

pub record MatchTeam : Type 0 where
  pub id : Text
  pub players : List MatchPlayer
  pub average_rating : Float64

pub record MatchQuality : Type 0 where
  pub total_score : Float64
  pub skill_score : Float64
  pub role_score : Float64
  pub latency_score : Float64
  pub party_score : Float64
  pub wait_score : Float64
  pub predicted_win_rate_a : Float64
  pub predicted_win_rate_b : Float64
  pub reasons : List Text

pub data WinningTeam : Type 0 where
  team_a team_b : WinningTeam
  unknown_team : Text → WinningTeam

pub record MatchResult : Type 0 where
  pub winning_team : WinningTeam
  pub random_seed : ℤ
  pub duration_seconds : ℤ
  pub score_a : ℤ
  pub score_b : ℤ
  pub max_advantage : Float64
  pub has_afk : Bool
  pub surrendered : Bool
  pub one_sided : Bool
  pub actual_quality_score : Float64

pub record NewMatchParams : Type 0 where
  pub id : Text
  pub mode : Text
  pub side_a : MatchTeam
  pub side_b : MatchTeam
  pub server_region : Text
  pub policy_version : Text
  pub quality : MatchQuality
  pub created_at : Time

-- What changes in the life of a match.
pub record Progress : Type 0 where
  pub state : MatchState
  pub server_address : Text
  pub connection_token : Text
  pub result : Option MatchResult
  pub revision : ℤ
  pub updated_at : Time

-- The fields of `Match`: those of its parameters, and its progress. `MatchSnapshot` has the same.
pub record Match : Type 0 where
  pub params : NewMatchParams
  pub open params use *
  pub progress : Progress
  pub open progress use *

abbrev pub MatchSnapshot : Type 0
MatchSnapshot = Match
