-- ===== src/Match/Creation.antt =====
-- match.go: `NewMatch`, `RestoreMatch` and the validation that they use. Cloning gives an equal value.
use match_mind.Game.Hero
use match_mind.Base.{
  bool_beq, Bool, List, Option, Result, [], contains, err, false, if◌then◌else◌, invalid_match,
  is_some, length, nat_beq, none, not, ok, reject_if, some, true, ◌&&◌, ◌++◌, ◌==◌, ◌>>=◌, ◌>>◌,
  ◌||◌, ◌∷◌,
}
use match_mind.Base.Int.{ltb_ℤ, pos, int_beq}
use match_mind.Clock.{Time, before, is_zero, utc}
use match_mind.Float64.{Float64, float, float_eq, float_le, float_lt, is_inf, is_nan}
use match_mind.Game.Hero.{Hero}
use match_mind.Match.Types.{
  MatchState, MatchPlayer, MatchTeam, MatchQuality, WinningTeam, MatchResult, NewMatchParams,
  Progress, Match, MatchSnapshot, created, allocating, ready, running, finished, failed,
  unknown_state, unknown_team,
}
use match_mind.Text.{Text, codes, is_empty, trim_space, text_eq}
use match_mind.Ticket.{Role, supported_role, parse_mode}

abbrev pub score_in_range : Float64 → Bool
score_in_range score =
    not (is_nan score)
    && not (is_inf score)
    && float_le (float 0) score
    && float_le score (float 100)

abbrev pub probability : Float64 → Bool
probability value =
    not (is_nan value) && not (is_inf value) && float_le (float 0) value && float_le value (float 1)

abbrev pub role_text : Role → Text
role_text Role.vanguard = codes "vanguard"
role_text Role.roamer = codes "roamer"
role_text Role.core = codes "core"
role_text Role.ranged = codes "ranged"
role_text Role.support = codes "support"
role_text (Role.unsupported_role r) = r

-- The hero of a player: one of the catalogue, of the player's role; or none and no proficiency.
unfoldable pub hero_fits : MatchPlayer → Bool
hero_fits p =
    if is_empty (trim_space p.hero_id)
    then float_eq p.hero_proficiency (float 0)
    else elim (Hero.get (trim_space p.hero_id)) [
      | none ↦ false
      | some h ↦ h.role == role_text p.role
    ]

unfoldable pub valid_player : MatchPlayer → Bool
unfolding hero_fits
valid_player p =
    not (is_empty (trim_space p.player_id))
    && not (is_empty (trim_space p.ticket_id))
    && not (float_le p.rating (float 0))
    && supported_role p.role
    && score_in_range p.hero_proficiency
    && score_in_range p.behavior_score
    && hero_fits p

-- The loop over the ten players, with the players and tickets seen so far.
unfoldable pub scan_players : List Text → List Text → List MatchPlayer → Result (Unit {0})
unfolding valid_player
scan_players seen_players seen_tickets [] = ok tt
scan_players seen_players seen_tickets (p ∷ ps) =
    let rest = scan_players (p.player_id ∷ seen_players) (p.ticket_id ∷ seen_tickets) ps in
    if not (valid_player p)
      || contains p.player_id seen_players
      || contains p.ticket_id seen_tickets
    then err invalid_match
    else rest

unfoldable pub validate_match_teams : MatchTeam → MatchTeam → Result (Unit {0})
unfolding scan_players
validate_match_teams a b = do
  reject_if
      (is_empty (trim_space a.id)
        || is_empty (trim_space b.id)
        || not (nat_beq (length a.players) 5)
        || not (nat_beq (length b.players) 5))
      invalid_match
  scan_players [] [] (a.players ++ b.players)

unfoldable pub trim_params : NewMatchParams → NewMatchParams
trim_params p = record p {
  id = trim_space p.id;
  mode = trim_space p.mode;
  server_region = trim_space p.server_region;
  policy_version = trim_space p.policy_version;
}

unfoldable pub incomplete : NewMatchParams → Bool
incomplete p =
    is_empty p.id
    || is_empty p.mode
    || is_empty p.server_region
    || is_empty p.policy_version
    || is_zero p.created_at

unfoldable pub bad_quality : MatchQuality → Bool
bad_quality q =
    not (score_in_range q.total_score)
    || not (probability q.predicted_win_rate_a)
    || not (probability q.predicted_win_rate_b)

abbrev pub fresh : Time → Progress
fresh created_at = record {
  state = created;
  server_address = [];
  connection_token = [];
  result = none;
  revision = pos 1;
  updated_at = created_at;
}

-- The match that `NewMatch` returns for checked parameters.
abbrev pub build : NewMatchParams → Text → Match
build p mode_id = record {
  params = record p { mode = mode_id; created_at = utc p.created_at };
  progress = fresh (utc p.created_at);
}

unfoldable pub validated : NewMatchParams → Result Match
validated p = do
  reject_if (incomplete p) invalid_match
  mode_id ← parse_mode invalid_match p.mode
  validate_match_teams p.side_a p.side_b
  reject_if (bad_quality p.quality) invalid_match
  ok (build p mode_id)

unfoldable pub new_match : NewMatchParams → Result Match
unfolding validated
new_match params = validated (trim_params params)

abbrev pub known_team : WinningTeam → Bool
known_team (unknown_team t) = false
known_team _ = true

unfoldable pub valid_result : MatchResult → Bool
valid_result r =
    known_team r.winning_team
    && not (ltb_ℤ r.duration_seconds (pos 0))
    && not (ltb_ℤ r.score_a (pos 0))
    && not (ltb_ℤ r.score_b (pos 0))
    && not (int_beq r.score_a r.score_b)
    && not (float_lt r.max_advantage (float 0))
    && score_in_range r.actual_quality_score

unfoldable pub validate_match_result : MatchResult → Result (Unit {0})
validate_match_result r = reject_if (not (valid_result r)) invalid_match

-- The `switch` of `validateRestoredMatchState`, for a snapshot that has an address or has none.
unfoldable pub state_fits : MatchState → Bool → Option MatchResult → Bool
state_fits created has_address result = not has_address && not (is_some result)
state_fits allocating has_address result = not has_address && not (is_some result)
state_fits ready has_address result = has_address && not (is_some result)
state_fits running has_address result = has_address && not (is_some result)
state_fits finished has_address none = false
state_fits finished has_address (some r) = has_address && valid_result r
state_fits failed has_address result = not (is_some result)
state_fits (unknown_state s) has_address result = false

unfoldable pub validate_restored_match_state : MatchSnapshot → Result (Unit {0})
unfolding state_fits
validate_restored_match_state s =
    let has_address = not (is_empty (trim_space s.server_address)) in
    let has_token = not (is_empty (trim_space s.connection_token)) in
    reject_if
      (not (bool_beq has_address has_token) || not (state_fits s.state has_address s.result))
      invalid_match

abbrev pub as_invalid {ℓ} : {A : Type ℓ} → Result A → Result A
as_invalid (ok a) = ok a
as_invalid (err e) = err invalid_match

unfoldable pub restore_match : MatchSnapshot → Result Match
restore_match snapshot = do
  m ← as_invalid (new_match snapshot.params)
  reject_if
      (ltb_ℤ snapshot.revision (pos 1)
        || is_zero snapshot.updated_at
        || before snapshot.updated_at snapshot.created_at)
      invalid_match
  validate_restored_match_state snapshot
  ok (record m {
    progress = record {
      state = snapshot.state;
      server_address = trim_space snapshot.server_address;
      connection_token = trim_space snapshot.connection_token;
      result = snapshot.result;
      revision = snapshot.revision;
      updated_at = utc snapshot.updated_at;
    };
  })
