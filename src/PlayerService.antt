-- ===== src/PlayerService.antt =====
-- internal/player/application/service.go: the calls on players, over the store in memory. `now` is what the
-- service's clock returns.
pub mod Runs
pub mod Once
pub mod Bans
use match_mind.Base.{
  Bool, Context, List, Map, Result, [], contains, if◌then◌else◌, invalid_player, length, ltb,
  nat_beq, ok, reject_if, ◌>>=◌, ◌>>◌, ◌||◌, ◌∷◌,
}
use match_mind.Base.Int.{ℤ}
use match_mind.Clock.{Time}
use match_mind.Float64.{Float64}
use match_mind.Player.{Player, new_player}
use match_mind.PlayerStore.{
  PlayerStore, create_player, get_ban_states, get_by_id, set_ban_state, update_region_latency,
}
use match_mind.Text.{Text, is_empty, trim_space, text_eq}
use match_mind.Ticket.{Role}

pub record CreatePlayerCommand : Type 0 where
  pub id : Text
  pub name : Text
  pub initial_rating : Float64
  pub preferred_roles : List Role
  pub home_region : Text
  pub region_latency : Map Text ℤ
  pub behavior_score : Float64
  pub hero_proficiency : Map Text Float64

unfoldable pub create_player_service :
    Context → PlayerStore → CreatePlayerCommand → Time → Result (PlayerStore × Player)
create_player_service ctx s command now = do
  player ← new_player (record {
    id = command.id;
    name = command.name;
    initial_rating = command.initial_rating;
    preferred_roles = command.preferred_roles;
    home_region = command.home_region;
    region_latency = command.region_latency;
    behavior_score = command.behavior_score;
    hero_proficiency = command.hero_proficiency;
    created_at = now;
  })
  s' ← create_player ctx s player
  ok (s', player)

unfoldable pub get_player : Context → PlayerStore → Text → Result Player
get_player ctx s player_id = get_by_id ctx s player_id

unfoldable pub update_latency :
    Context → PlayerStore → Text → Map Text ℤ → Time → Result (PlayerStore × Player)
update_latency ctx s raw_id latency now = do
  let player_id = trim_space raw_id
  reject_if (is_empty player_id) invalid_player
  update_region_latency ctx s player_id latency now

pub record SetPlayerBanCommand : Type 0 where
  pub player_id : Text
  pub banned : Bool
  pub reason : Text
  pub operator_id : Text

unfoldable pub set_player_ban :
    Context → PlayerStore → SetPlayerBanCommand → Time → Result (PlayerStore × Player)
set_player_ban ctx s command now = do
  let player_id = trim_space command.player_id
  let operator_id = trim_space command.operator_id
  reject_if (is_empty player_id || is_empty operator_id) invalid_player
  set_ban_state ctx s player_id command.banned command.reason operator_id now

-- The loop of `GetPlayerBanStates`: trimmed IDs, each once, in the order of their first mention.
unfoldable pub normalize_ids : List Text → List Text → Result (List Text)
normalize_ids seen [] = ok []
normalize_ids seen (raw ∷ raws) = do
  let id = trim_space raw
  reject_if (is_empty id) invalid_player
  (if contains id seen
      then normalize_ids seen raws
      else (normalize_ids (id ∷ seen) raws >>= λ ids. ok (id ∷ ids)))

unfoldable pub get_player_ban_states : Context → PlayerStore → List Text → Result (Map Text Bool)
get_player_ban_states ctx s player_ids = do
  reject_if (nat_beq (length player_ids) 0 || ltb 1000 (length player_ids)) invalid_player
  normalized ← normalize_ids [] player_ids
  get_ban_states ctx s normalized
