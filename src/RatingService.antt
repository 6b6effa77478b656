-- ===== src/RatingService.antt =====
-- internal/player/application/rating_service.go: the ratings after a match. The calculators of rating/elo and
-- rating/glicko2 are made of transcendental functions; they and the square root are arguments.
pub mod Results
use match_mind.Base.{
  Bool, Context, List, Result, [], contains, err, if◌then◌else◌, invalid_match_result, length, map,
  nat_beq, not, ok, reject_if, some, ◌++◌, ◌==◌, ◌>>=◌, ◌>>◌, ◌||◌, ◌∷◌,
}
use match_mind.Base.Int.{int_beq, ltb_ℤ, pos, ℤ}
use match_mind.Clock.{Time}
use match_mind.Float64.{Float64, float, float_add, float_mul, float_over, float_ratio, float_sub}
use match_mind.Player.{Player, RatingState}
use match_mind.PlayerStore.{PlayerStore, apply_rating_changes, get_by_id, rating_history_of}
use match_mind.RatingChange.{
  RatingChange, RatingSystem, elo_system, glicko2_system, new_rating_change_with_state,
  rating_state,
}
use match_mind.Text.{Text, codes, is_empty, trim_space, text_eq}

-- `glicko2.Rating` has the fields of RatingState.
pub record Calculators : Type 0 where
  pub update_pair : Float64 → Float64 → Float64 → Result (Float64 × Float64)
  pub update_glicko : RatingState → RatingState → Float64 → Result RatingState
  pub sqrt : Float64 → Float64

abbrev pub MatchOutcome : Type 0
MatchOutcome = ℤ

abbrev pub team_a_win : MatchOutcome
team_a_win = pos 1

abbrev pub team_b_win : MatchOutcome
team_b_win = pos 2

abbrev pub draw : MatchOutcome
draw = pos 3

pub record RecordMatchResultCommand : Type 0 where
  pub match_id : Text
  pub team_a_player_ids : List Text
  pub team_b_player_ids : List Text
  pub outcome : MatchOutcome
  pub reason : Text

-- The loop of `validateUniquePlayers`.
unfoldable pub scan_unique : List Text → List Text → Result (Unit {0})
scan_unique seen [] = ok tt
scan_unique seen (raw ∷ raws) = do
  let id = trim_space raw
  reject_if (is_empty id) invalid_match_result
  reject_if (contains id seen) invalid_match_result
  scan_unique (id ∷ seen) raws

unfoldable pub validate_unique_players : List Text → List Text → Result (Unit {0})
validate_unique_players team_a team_b = scan_unique [] (team_a ++ team_b)

unfoldable pub load_players : Context → PlayerStore → List Text → Result (List Player)
load_players ctx s [] = ok []
load_players ctx s (id ∷ ids) = do
  player ← get_by_id ctx s id
  players ← load_players ctx s ids
  ok (player ∷ players)

unfoldable pub outcome_score_a : MatchOutcome → Float64
outcome_score_a outcome =
    if int_beq outcome team_a_win
    then float 1
    else if int_beq outcome draw
    then float_ratio 1 2
    else float 0

-- `for _, player := range players { total += f(player) }`
unfoldable pub total : (Player → Float64) → Float64 → List Player → Float64
total f sum [] = sum
total f sum (p ∷ ps) = total f (float_add sum (f p)) ps

unfoldable pub average_rating : List Player → Float64
average_rating players =
    float_over (total (λ p. p.initial_rating) (float 0) players) (length players)

unfoldable pub aggregate_team_rating : Calculators → List Player → RatingState
aggregate_team_rating calc players = record {
  rating = average_rating players;
  deviation =
      float_over
        (calc.sqrt (total (λ p. float_mul p.rating_deviation p.rating_deviation) (float 0) players))
        (length players);
  volatility = float_over (total (λ p. p.rating_volatility) (float 0) players) (length players);
}

unfoldable pub new_state_change :
    Text
    → RecordMatchResultCommand
    → RatingState
    → RatingState
    → RatingSystem
    → Time
    → Result RatingChange
new_state_change player_id command before after system created_at =
    new_rating_change_with_state (record {
      player_id = player_id;
      match_id = command.match_id;
      before = before;
      after = after;
      system = system;
      reason = command.reason;
      created_at = created_at;
    })

-- A change for each player, whose new rating is `next` of the rating before.
unfoldable pub changes_by :
    (RatingState → Result RatingState)
    → RecordMatchResultCommand
    → RatingSystem
    → Time
    → List Player
    → Result (List RatingChange)
changes_by next command system created_at [] = ok []
changes_by next command system created_at (p ∷ ps) = do
  after ← next (rating_state p)
  change ← new_state_change p.id command (rating_state p) after system created_at
  changes ← changes_by next command system created_at ps
  ok (change ∷ changes)

-- The changes of the one team and then those of the other.
unfoldable pub changes_of_teams :
    (RatingState → Result RatingState)
    → (RatingState → Result RatingState)
    → RecordMatchResultCommand
    → RatingSystem
    → Time
    → List Player
    → List Player
    → Result (List RatingChange)
changes_of_teams next_a next_b command system created_at team_a team_b = do
  changes_a ← changes_by next_a command system created_at team_a
  changes_b ← changes_by next_b command system created_at team_b
  ok (changes_a ++ changes_b)

abbrev pub add_delta : Float64 → RatingState → Result RatingState
add_delta delta state = ok (record state { rating = float_add state.rating delta })

unfoldable pub elo_changes :
    Calculators
    → RecordMatchResultCommand
    → List Player
    → List Player
    → Float64
    → Time
    → Result (List RatingChange)
elo_changes calc command team_a team_b score_a created_at = do
  (delta_a, delta_b) ← calc.update_pair (average_rating team_a) (average_rating team_b) score_a
  changes_of_teams (add_delta delta_a) (add_delta delta_b) command elo_system created_at team_a
      team_b

unfoldable pub glicko2_changes :
    Calculators
    → RecordMatchResultCommand
    → List Player
    → List Player
    → Float64
    → Time
    → Result (List RatingChange)
glicko2_changes calc command team_a team_b score_a created_at =
    changes_of_teams (λ state. calc.update_glicko state (aggregate_team_rating calc team_b) score_a)
      (λ state.
        calc.update_glicko state (aggregate_team_rating calc team_a) (float_sub (float 1) score_a))
      command glicko2_system created_at team_a team_b

-- The switch over the system of the service.
unfoldable pub system_changes :
    RatingSystem
    → Calculators
    → RecordMatchResultCommand
    → List Player
    → List Player
    → Float64
    → Time
    → Result (List RatingChange)
system_changes system calc command team_a team_b score_a created_at =
    if system == elo_system
    then elo_changes calc command team_a team_b score_a created_at
    else if system == glicko2_system
    then glicko2_changes calc command team_a team_b score_a created_at
    else err invalid_match_result

unfoldable pub trim_result : RecordMatchResultCommand → RecordMatchResultCommand
trim_result c = record c {
  match_id = trim_space c.match_id;
  reason = if is_empty (trim_space c.reason) then codes "ranked_match" else trim_space c.reason;
}

abbrev pub bad_teams : RecordMatchResultCommand → Bool
bad_teams c =
    not (nat_beq (length c.team_a_player_ids) 5) || not (nat_beq (length c.team_b_player_ids) 5)

-- `RecordMatchResult` for a trimmed command, up to the call of the store.
unfoldable pub changes_for :
    Context
    → PlayerStore
    → RatingSystem
    → Calculators
    → RecordMatchResultCommand
    → Time
    → Result (List RatingChange)
changes_for ctx s system calc command now = do
  reject_if (is_empty command.match_id) invalid_match_result
  reject_if (bad_teams command) invalid_match_result
  reject_if (ltb_ℤ command.outcome team_a_win || ltb_ℤ draw command.outcome) invalid_match_result
  validate_unique_players command.team_a_player_ids command.team_b_player_ids
  team_a ← load_players ctx s command.team_a_player_ids
  team_b ← load_players ctx s command.team_b_player_ids
  system_changes system calc command team_a team_b (outcome_score_a command.outcome) now

-- `ctx` is the context at the reads and `ctx'` the one at the write; the calls of other clients in between
-- lead from `s` to `s'`.
unfoldable pub record_match_result :
    Context
    → Context
    → PlayerStore
    → PlayerStore
    → RatingSystem
    → Calculators
    → RecordMatchResultCommand
    → Time
    → Result (PlayerStore × List RatingChange)
record_match_result ctx ctx' s s' system calc command now = do
  changes ← changes_for ctx s system calc (trim_result command) now
  apply_rating_changes ctx' s' (trim_result command).match_id (map some changes)

unfoldable pub history : Context → PlayerStore → Text → Result (List RatingChange)
history ctx s player_id = do
  reject_if (is_empty (trim_space player_id)) invalid_match_result
  rating_history_of ctx s player_id
