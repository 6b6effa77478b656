-- ===== src/Player.antt =====
-- internal/player/domain/player.go and rating_change.go: a player. Cloning a slice or a map gives an equal
-- value; only `cloneProficiency` changes what it copies, as `cloneTicketProficiency` does.
pub mod Regions
pub mod Restoring
use match_mind.Game.Hero
use match_mind.Base.{
  Bool, List, Map, Result, [], contains, err, false, if◌then◌else◌, insert, invalid_player, length,
  lookup, ltb, nat_beq, none, not, ok, reject_if, some, true, ◌&&◌, ◌*◌, ◌>>=◌, ◌>>◌, ◌||◌, ◌∷◌,
}
use match_mind.Base.Int.{ltb_ℤ, pos, ℤ}
use match_mind.Clock.{Time, is_zero, utc, zero_time}
use match_mind.Float64.{Float64, float, float_eq, float_le, float_lt, float_ratio, is_inf, is_nan}
use match_mind.Text.{Text, is_empty, lower_trim, trim_space, text_eq}
use match_mind.Ticket.{
  role_eq, Role, bad_score, clone_ticket_proficiency, supported_role,
  validate_ticket_hero_proficiency,
}

pub record NewPlayerParams : Type 0 where
  pub id : Text
  pub name : Text
  pub initial_rating : Float64
  pub preferred_roles : List Role
  pub home_region : Text
  pub region_latency : Map Text ℤ
  pub behavior_score : Float64
  pub hero_proficiency : Map Text Float64
  pub created_at : Time

-- What changes in the life of a player, besides the rating and the latencies.
pub record Standing : Type 0 where
  pub rating_deviation : Float64
  pub rating_volatility : Float64
  pub banned : Bool
  pub ban_reason : Text
  pub banned_at : Time
  pub banned_by : Text

-- The fields of `Player`, of which `initial_rating` is `rating`. `PlayerSnapshot` has the same.
pub record Player : Type 0 where
  pub params : NewPlayerParams
  pub open params use *
  pub standing : Standing
  pub open standing use *

pub record RatingState : Type 0 where
  pub rating : Float64
  pub deviation : Float64
  pub volatility : Float64

-- A turn of the loop of `normalizeRegionLatency`: of two spellings of a region the lower latency stays.
unfoldable pub note_latency : Map Text ℤ → Text → ℤ → Map Text ℤ
note_latency normalized region latency = elim (lookup region normalized) [
  | none ↦ insert region latency normalized
  | some existing ↦
      if not (is_empty region) && ltb_ℤ existing latency
      then normalized
      else insert region latency normalized
]

unfoldable pub normalize_latency : Map Text ℤ → Map Text ℤ → Map Text ℤ
unfolding note_latency
normalize_latency normalized [] = normalized
normalize_latency normalized ((raw, latency) ∷ rest) =
    normalize_latency (note_latency normalized (lower_trim raw) latency) rest

unfoldable pub normalize_region_latency : Map Text ℤ → Map Text ℤ
unfolding normalize_latency
normalize_region_latency latencies = normalize_latency [] latencies

unfoldable pub scan_role_list : List Role → List Role → Result (Unit {0})
scan_role_list seen [] = ok tt
scan_role_list seen (r ∷ rs) = do
  reject_if (not (supported_role r)) invalid_player
  reject_if (contains r seen) invalid_player
  scan_role_list (r ∷ seen) rs

unfoldable pub validate_roles : List Role → Result (Unit {0})
unfolding scan_role_list
validate_roles roles = do
  reject_if (nat_beq (length roles) 0) invalid_player
  reject_if (ltb 5 (length roles)) invalid_player
  scan_role_list [] roles

unfoldable pub scan_regions : Map Text ℤ → Result (Unit {0})
scan_regions [] = ok tt
scan_regions ((region, latency) ∷ rest) = do
  reject_if (is_empty (trim_space region)) invalid_player
  reject_if (ltb_ℤ latency (pos 0) || ltb_ℤ (pos 1000) latency) invalid_player
  scan_regions rest

unfoldable pub validate_region_latency : Map Text ℤ → Result (Unit {0})
unfolding scan_regions
validate_region_latency latencies = do
  reject_if (nat_beq (length latencies) 0) invalid_player
  scan_regions latencies

-- `validateHeroProficiency` makes the checks of `validateTicketHeroProficiency` and reports its own error.
unfoldable pub validate_hero_proficiency : Map Text Float64 → Result (Unit {0})
validate_hero_proficiency values = elim (validate_ticket_hero_proficiency values) [
  | ok u ↦ ok u
  | err e ↦ err invalid_player
]

unfoldable pub trim_player : NewPlayerParams → NewPlayerParams
trim_player p = record p {
  id = trim_space p.id;
  name = trim_space p.name;
  home_region = lower_trim p.home_region;
  region_latency = normalize_region_latency p.region_latency;
}

unfoldable pub incomplete_player : NewPlayerParams → Bool
incomplete_player p =
    is_empty p.id
    || is_empty p.name
    || float_le p.initial_rating (float 0)
    || is_empty p.home_region
    || is_zero p.created_at
    || bad_score p.behavior_score

abbrev pub default_deviation : Float64
default_deviation = float 350

abbrev pub default_volatility : Float64
default_volatility = float_ratio 6 100

abbrev pub new_standing : Standing
new_standing = record {
  rating_deviation = default_deviation;
  rating_volatility = default_volatility;
  banned = false;
  ban_reason = [];
  banned_at = zero_time;
  banned_by = [];
}

-- `NewPlayer` for trimmed parameters.
unfoldable pub checked_player : NewPlayerParams → Result Player
checked_player p = do
  reject_if (incomplete_player p) invalid_player
  validate_hero_proficiency p.hero_proficiency
  validate_roles p.preferred_roles
  validate_region_latency p.region_latency
  ok (record {
    params = record p {
      hero_proficiency = clone_ticket_proficiency p.hero_proficiency;
      created_at = utc p.created_at;
    };
    standing = new_standing;
  })

unfoldable pub new_player : NewPlayerParams → Result Player
unfolding checked_player
new_player p = checked_player (trim_player p)

-- The check of the ban in `RestorePlayer`, for trimmed texts.
unfoldable pub ban_fits : Bool → Text → Text → Time → Bool
ban_fits true reason by at = not (is_empty reason || is_empty by || is_zero at)
ban_fits false reason by at = not (not (is_empty reason) || not (is_empty by) || not (is_zero at))

abbrev pub restored_volatility : Float64 → Float64
restored_volatility v = if float_eq v (float 0) then default_volatility else v

unfoldable pub restore_player : Player → Result Player
restore_player s = do
  reject_if (float_le s.rating_deviation (float 0)) invalid_player
  let volatility = restored_volatility s.rating_volatility
  reject_if (float_lt volatility (float 0) || is_nan volatility || is_inf volatility) invalid_player
  let reason = trim_space s.ban_reason
  let by = trim_space s.banned_by
  reject_if (not (ban_fits s.banned reason by s.banned_at)) invalid_player
  player ← new_player s.params
  ok (record player {
    standing = record {
      rating_deviation = s.rating_deviation;
      rating_volatility = volatility;
      banned = s.banned;
      ban_reason = reason;
      banned_at = utc s.banned_at;
      banned_by = by;
    };
  })

unfoldable pub with_ban_state : Player → Bool → Text → Text → Time → Result Player
with_ban_state p banned ban_reason operator_id changed_at = do
  let reason = trim_space ban_reason
  let operator = trim_space operator_id
  reject_if (is_empty operator || is_zero changed_at) invalid_player
  reject_if (banned && is_empty reason) invalid_player
  ok (record p {
    standing = record p.standing {
      banned = banned;
      ban_reason = if banned then reason else [];
      banned_at = if banned then utc changed_at else zero_time;
      banned_by = if banned then operator else [];
    };
  })

unfoldable pub with_region_latency : Player → Map Text ℤ → Result Player
with_region_latency p latencies = do
  let normalized = normalize_region_latency latencies
  validate_region_latency normalized
  ok (record p { params = record p.params { region_latency = normalized } })

abbrev pub valid_rating_value : Float64 → Bool
valid_rating_value rating = float_lt (float 0) rating && not (is_nan rating) && not (is_inf rating)

abbrev pub valid_uncertainty_state : RatingState → Bool
valid_uncertainty_state s =
    valid_rating_value s.rating && valid_rating_value s.deviation && valid_rating_value s.volatility

unfoldable pub with_rating : Player → Float64 → Result Player
with_rating p rating = do
  reject_if (not (valid_rating_value rating)) invalid_player
  ok (record p { params = record p.params { initial_rating = rating } })

unfoldable pub with_rating_state : Player → RatingState → Result Player
with_rating_state p s = do
  reject_if (not (valid_uncertainty_state s)) invalid_player
  ok (record {
    params = record p.params { initial_rating = s.rating };
    standing = record p.standing {
      rating_deviation = s.deviation;
      rating_volatility = s.volatility;
    };
  })
