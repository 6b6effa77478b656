-- ===== src/Examples/Ratings.antt =====
-- Ten players and the ratings of a match between them.
use match_mind.Base.{
  List, Option, [], map, none, ok, refl, some, ℕ, ◌++◌, ◌∷◌, ◌≡◌, Error, contains, err, false,
  if◌then◌else◌, lookup, lookup_or, state_or, subst,
}
use match_mind.Base.Int.{pos}
use match_mind.Float64.{Float64, float, float_neg}
use match_mind.Player.{default_volatility, Player, new_standing, restore_player}
use match_mind.PlayerService.{CreatePlayerCommand}
use match_mind.PlayerService.Bans.{ban_of, get_player_ban_states_lem}
use match_mind.PlayerService.Once.{apply_rating_changes_retry}
use match_mind.PlayerService.Runs.{
  creates, rates, PlayerCall, player_run, Chain, player_run-Chain, player_run-Inv,
  player_run-restorable, PlayersInv,
}
use match_mind.PlayerStore.{PlayerStore, apply_rating_changes, new_player_store}
use match_mind.PlayerStore.Committing.{apply_rating_changes-overwrite, overwrite, ratings}
use match_mind.PlayerStore.Refusing.{apply_rating_changes_refused}
use match_mind.RatingChange.{RatingChange, elo_system}
use match_mind.RatingService.{
  Calculators, RecordMatchResultCommand, team_a_win, record_match_result, changes_for, trim_result,
}
use match_mind.RatingService.Results.{
  player_ids, record_match_result-player_ids, record_match_result_by,
}
use match_mind.Text.{Text, codes, trim_space, text_eq}
use match_mind.Ticket.{core}

abbrev player_command : Text → CreatePlayerCommand
player_command id = record {
  id = id;
  name = codes "P";
  initial_rating = float 1500;
  preferred_roles = core ∷ [];
  home_region = codes "tokyo";
  region_latency = (codes "tokyo", pos 20) ∷ [];
  behavior_score = float 90;
  hero_proficiency = [];
}

abbrev creation : Text → PlayerCall
creation id = creates none (player_command id) 5

abbrev first_ids : List Text
first_ids = codes "a1" ∷ codes "a2" ∷ codes "a3" ∷ codes "a4" ∷ codes "a5" ∷ []

abbrev second_ids : List Text
second_ids = codes "b1" ∷ codes "b2" ∷ codes "b3" ∷ codes "b4" ∷ codes " b5" ∷ []

abbrev creations : List PlayerCall
creations = map creation (first_ids ++ second_ids)

abbrev played : RecordMatchResultCommand
played = record {
  match_id = codes "m1 ";
  team_a_player_ids = first_ids;
  team_b_player_ids = second_ids;
  outcome = team_a_win;
  reason = [];
}

-- A calculator that moves every rating by ten.
abbrev ten_points : Calculators
ten_points = record {
  update_pair = λ a b score. ok (float 10, float_neg (float 10));
  update_glicko = λ state opponent score. ok state;
  sqrt = λ x. x;
}

abbrev plain_change : Text → ℕ → Text → Float64 → RatingChange
plain_change id now m before = record {
  player_id = id;
  match_id = m;
  before = before;
  after = float 1510;
  deviation_before = float 0;
  deviation_after = float 0;
  volatility_before = float 0;
  volatility_after = float 0;
  system = elo_system;
  reason = codes "test";
  created_at = now;
}

abbrev full_first : RatingChange
full_first = record (plain_change (codes "a1") 9 (codes "m1") (float 1500)) {
  deviation_before = float 350;
  deviation_after = float 350;
  volatility_before = default_volatility;
  volatility_after = default_volatility;
}

abbrev one_player : PlayerStore
one_player = player_run new_player_store (creation (codes "a1") ∷ [])

abbrev asked : List (Option RatingChange)
asked = some (plain_change (codes "a1") 9 (codes "m1") (float 1500)) ∷ []

abbrev rating_calls : List PlayerCall
rating_calls = creation (codes "a1") ∷ rates none (codes "m1") asked ∷ []

applied_lem :
    apply_rating_changes none one_player (codes "m1") asked
    ≡ ok (player_run new_player_store rating_calls, full_first ∷ [])
unfolding match_mind.Base.distinct lookup match_mind.Base.insert match_mind.Base.delete
    match_mind.Base.Int.◌*ℤ◌ match_mind.Text.text_beq match_mind.Text.text_lt trim_space
    match_mind.Text.to_lower match_mind.Float64.unit match_mind.Float64.float_lt
    match_mind.Float64.float_le match_mind.Float64.float_mul match_mind.Float64.float_over
    match_mind.Ticket.scan_proficiency match_mind.Ticket.validate_ticket_hero_proficiency
    match_mind.Player.normalize_region_latency match_mind.Player.scan_role_list
    match_mind.Player.validate_roles match_mind.Player.scan_regions
    match_mind.Player.validate_region_latency match_mind.Player.validate_hero_proficiency
    match_mind.Player.trim_player match_mind.Player.incomplete_player
    match_mind.Player.checked_player match_mind.Player.new_player match_mind.Player.with_rating
    match_mind.Player.with_rating_state match_mind.RatingChange.change_of
    match_mind.RatingChange.incomplete_change match_mind.RatingChange.unknown_system
    match_mind.RatingChange.bad_ratings match_mind.RatingChange.bad_uncertainty
    match_mind.RatingChange.new_rating_change_with_state match_mind.RatingChange.new_rating_change
    match_mind.RatingChange.has_uncertainty_state match_mind.RatingChange.rating_state
    match_mind.PlayerStore.create_player match_mind.PlayerStore.full_change
    match_mind.PlayerStore.rerated match_mind.PlayerStore.apply_change
    match_mind.PlayerStore.apply_each match_mind.PlayerStore.commit apply_rating_changes
    match_mind.PlayerStore.rating_history_of match_mind.PlayerService.create_player_service
    match_mind.PlayerService.get_player_ban_states match_mind.PlayerService.Runs.player_step
    player_run Chain
applied_lem = refl

abbrev rated_player : Player
rated_player = record {
  params = record {
    id = codes "a1";
    name = codes "P";
    initial_rating = float 1510;
    preferred_roles = core ∷ [];
    home_region = codes "tokyo";
    region_latency = (codes "tokyo", pos 20) ∷ [];
    behavior_score = float 90;
    hero_proficiency = [];
    created_at = 5;
  };
  standing = new_standing;
}

rated_player_lem :
    lookup (codes "a1") (player_run new_player_store rating_calls).players ≡ some rated_player
unfolding match_mind.Base.distinct lookup match_mind.Base.insert match_mind.Base.delete
    match_mind.Base.Int.◌*ℤ◌ match_mind.Text.text_beq match_mind.Text.text_lt trim_space
    match_mind.Text.to_lower match_mind.Float64.unit match_mind.Float64.float_lt
    match_mind.Float64.float_le match_mind.Float64.float_mul match_mind.Float64.float_over
    match_mind.Ticket.scan_proficiency match_mind.Ticket.validate_ticket_hero_proficiency
    match_mind.Ticket.clone_into match_mind.Ticket.clone_ticket_proficiency
    match_mind.Player.normalize_region_latency match_mind.Player.scan_role_list
    match_mind.Player.validate_roles match_mind.Player.scan_regions
    match_mind.Player.validate_region_latency match_mind.Player.validate_hero_proficiency
    match_mind.Player.trim_player match_mind.Player.incomplete_player
    match_mind.Player.checked_player match_mind.Player.new_player match_mind.Player.with_rating
    match_mind.Player.with_rating_state match_mind.RatingChange.change_of
    match_mind.RatingChange.incomplete_change match_mind.RatingChange.unknown_system
    match_mind.RatingChange.bad_ratings match_mind.RatingChange.bad_uncertainty
    match_mind.RatingChange.new_rating_change_with_state match_mind.RatingChange.new_rating_change
    match_mind.RatingChange.has_uncertainty_state match_mind.RatingChange.rating_state
    match_mind.PlayerStore.create_player match_mind.PlayerStore.full_change
    match_mind.PlayerStore.rerated match_mind.PlayerStore.apply_change
    match_mind.PlayerStore.apply_each match_mind.PlayerStore.put_players
    match_mind.PlayerStore.append_history match_mind.PlayerStore.commit apply_rating_changes
    match_mind.PlayerStore.rating_history_of match_mind.PlayerService.create_player_service
    match_mind.PlayerService.get_player_ban_states match_mind.PlayerService.Runs.player_step
    player_run Chain
rated_player_lem = refl

player_run-Chain_example :
    Chain
      (lookup_or [] (codes "a1") (player_run new_player_store rating_calls).rating_history)
      rated_player.initial_rating
player_run-Chain_example = player_run-Chain rating_calls (codes "a1") rated_player rated_player_lem

player_run-restorable_example :
    (rated_player.id ≡ codes "a1") × (restore_player rated_player ≡ ok rated_player)
player_run-restorable_example =
    player_run-restorable rating_calls (codes "a1") rated_player rated_player_lem

apply_rating_changes_retry_example :
    apply_rating_changes none
      (player_run (player_run new_player_store rating_calls) (creation (codes "a2") ∷ []))
      (codes "m1")
      (none ∷ [])
    ≡ ok (
      player_run (player_run new_player_store rating_calls) (creation (codes "a2") ∷ []),
      full_first ∷ [],
    )
apply_rating_changes_retry_example =
    apply_rating_changes_retry none one_player (player_run new_player_store rating_calls)
      (codes "m1") asked (none ∷ []) (full_first ∷ []) (creation (codes "a2") ∷ []) applied_lem refl

apply_rating_changes-overwrite_example :
    ratings (player_run new_player_store rating_calls)
    ≡ overwrite (full_first ∷ []) (ratings one_player)
unfolding lookup player_run match_mind.PlayerService.Runs.player_step
    match_mind.PlayerService.create_player_service match_mind.Player.new_player
    match_mind.Player.incomplete_player match_mind.Player.trim_player trim_space
    match_mind.Float64.float_le match_mind.Float64.unit match_mind.Text.to_lower
    match_mind.Float64.float_lt match_mind.Player.validate_hero_proficiency
    match_mind.Ticket.validate_ticket_hero_proficiency match_mind.Player.validate_roles contains
    match_mind.Player.validate_region_latency match_mind.Base.insert
    match_mind.Player.normalize_region_latency match_mind.PlayerStore.create_player
apply_rating_changes-overwrite_example =
    apply_rating_changes-overwrite none one_player (player_run new_player_store rating_calls)
      (codes "m1") asked (full_first ∷ []) (player_run-Inv (creation (codes "a1") ∷ [])).keyed refl
      applied_lem

abbrev stale : Option RatingChange
stale = some (plain_change (codes "a1") 9 (codes "m1") (float 1400))

apply_rating_changes_refused_example :
    (e : Error) × (apply_rating_changes none one_player (codes "m1") (asked ++ (stale ∷ []))
      ≡ err e)
unfolding match_mind.Base.distinct lookup match_mind.Base.insert match_mind.Text.text_beq trim_space
    match_mind.Text.to_lower match_mind.Float64.unit match_mind.Float64.float_lt
    match_mind.Float64.float_le match_mind.Ticket.validate_ticket_hero_proficiency
    match_mind.Player.normalize_region_latency match_mind.Player.validate_roles
    match_mind.Player.validate_region_latency match_mind.Player.validate_hero_proficiency
    match_mind.Player.trim_player match_mind.Player.incomplete_player match_mind.Player.new_player
    match_mind.PlayerStore.create_player match_mind.PlayerStore.Refusing.is_bad
    match_mind.PlayerService.create_player_service match_mind.PlayerService.Runs.player_step
    player_run
apply_rating_changes_refused_example =
    apply_rating_changes_refused none one_player (codes "m1") asked [] stale refl refl

get_player_ban_states_lem_example : lookup (codes "a1") ((codes "a1", false) ∷ []) ≡ (
    if contains (codes "a1") (map trim_space (codes "zz" ∷ codes " a1" ∷ []))
    then ban_of one_player (codes "a1")
    else none)
unfolding match_mind.Base.distinct lookup match_mind.Base.insert match_mind.Text.text_beq trim_space
    match_mind.Text.to_lower match_mind.Float64.unit match_mind.Float64.float_lt
    match_mind.Float64.float_le match_mind.Ticket.validate_ticket_hero_proficiency
    match_mind.Player.normalize_region_latency match_mind.Player.validate_roles
    match_mind.Player.validate_region_latency match_mind.Player.validate_hero_proficiency
    match_mind.Player.trim_player match_mind.Player.incomplete_player match_mind.Player.new_player
    match_mind.PlayerStore.create_player match_mind.PlayerStore.collect_bans
    match_mind.PlayerStore.get_ban_states match_mind.PlayerService.create_player_service
    match_mind.PlayerService.normalize_ids match_mind.PlayerService.get_player_ban_states
    match_mind.PlayerService.Runs.player_step player_run
get_player_ban_states_lem_example =
    get_player_ban_states_lem none one_player (codes "zz" ∷ codes " a1" ∷ [])
      ((codes "a1", false) ∷ []) refl (codes "a1")

abbrev rated_at : Float64 → Text → Player
rated_at rating id = record rated_player {
  params = record rated_player.params { id = id; initial_rating = rating };
}

abbrev entry_at : Float64 → Text → Text × Player
entry_at rating id = (id, rated_at rating id)

abbrev ten_ids : List Text
ten_ids = map trim_space (first_ids ++ second_ids)

abbrev ten_players : PlayerStore
ten_players = record new_player_store { players = map (entry_at (float 1500)) ten_ids }

abbrev change_to : Float64 → Text → RatingChange
change_to after id = record full_first {
  player_id = id;
  after = after;
  reason = codes "ranked_match";
}

abbrev ten_changes : List RatingChange
ten_changes =
    map (change_to (float 1510)) first_ids
    ++ map (change_to (float 1490)) (map trim_space second_ids)

abbrev after_played : PlayerStore
after_played = record {
  players =
      map (entry_at (float 1510)) first_ids
      ++ map (entry_at (float 1490)) (map trim_space second_ids);
  rating_history = map (λ c. (c.player_id, c ∷ [])) ten_changes;
  rated_match_history = (codes "m1", ten_changes) ∷ [];
}

played_changes_lem :
    changes_for none ten_players elo_system ten_points (trim_result played) 9 ≡ ok ten_changes
unfolding match_mind.Base.distinct lookup match_mind.Base.Int.◌+ℤ◌ match_mind.Base.Int.◌-ℤ◌
    match_mind.Text.text_beq trim_space match_mind.Float64.unit match_mind.Float64.float_lt
    match_mind.Float64.float_le match_mind.Float64.float_add match_mind.RatingChange.change_of
    match_mind.RatingChange.incomplete_change match_mind.RatingChange.unknown_system
    match_mind.RatingChange.bad_ratings match_mind.RatingChange.bad_uncertainty
    match_mind.RatingChange.new_rating_change_with_state match_mind.RatingChange.rating_state
    match_mind.PlayerStore.get_by_id match_mind.PlayerService.get_player_ban_states
    match_mind.PlayerService.Runs.player_step player_run Chain match_mind.RatingService.scan_unique
    match_mind.RatingService.validate_unique_players match_mind.RatingService.load_players
    match_mind.RatingService.outcome_score_a match_mind.RatingService.total
    match_mind.RatingService.average_rating match_mind.RatingService.aggregate_team_rating
    match_mind.RatingService.new_state_change match_mind.RatingService.changes_by
    match_mind.RatingService.changes_of_teams match_mind.RatingService.elo_changes
    match_mind.RatingService.glicko2_changes match_mind.RatingService.system_changes
    match_mind.RatingService.trim_result match_mind.RatingService.changes_for
played_changes_lem = refl

created_lem : player_run new_player_store creations ≡ ten_players
unfolding match_mind.Base.distinct lookup match_mind.Base.insert match_mind.Text.text_beq trim_space
    match_mind.Text.to_lower match_mind.Float64.unit match_mind.Float64.float_lt
    match_mind.Float64.float_le match_mind.Ticket.validate_ticket_hero_proficiency
    match_mind.Ticket.clone_ticket_proficiency match_mind.Player.normalize_region_latency
    match_mind.Player.validate_roles match_mind.Player.validate_region_latency
    match_mind.Player.validate_hero_proficiency match_mind.Player.trim_player
    match_mind.Player.incomplete_player match_mind.Player.new_player
    match_mind.PlayerStore.create_player match_mind.PlayerService.create_player_service
    match_mind.PlayerService.Runs.player_step player_run
created_lem = refl

committed_lem :
    apply_rating_changes none ten_players (codes "m1") (map some ten_changes)
    ≡ ok (after_played, ten_changes)
unfolding lookup match_mind.Base.insert match_mind.Text.text_beq trim_space match_mind.Float64.unit
    match_mind.Float64.float_lt match_mind.Float64.float_le match_mind.Float64.float_over
    match_mind.Player.with_rating_state match_mind.RatingChange.has_uncertainty_state
    match_mind.PlayerStore.full_change match_mind.PlayerStore.rerated
    match_mind.PlayerStore.apply_change match_mind.PlayerStore.apply_each
    match_mind.PlayerStore.put_players match_mind.PlayerStore.append_history
    match_mind.PlayerStore.commit apply_rating_changes
committed_lem = refl

played_lem :
    record_match_result none none ten_players ten_players elo_system ten_points played 9
    ≡ ok (after_played, ten_changes)
unfolding match_mind.RatingService.trim_result trim_space
played_lem =
    record_match_result_by none none ten_players ten_players elo_system ten_points played 9
      ten_changes (ok (after_played, ten_changes)) played_changes_lem committed_lem

ten_players-Inv : PlayersInv ten_players
ten_players-Inv = subst PlayersInv created_lem (player_run-Inv creations)

record_match_result-player_ids_example :
    player_ids ten_changes ≡ map trim_space (first_ids ++ second_ids)
unfolding match_mind.RatingService.trim_result trim_space lookup
record_match_result-player_ids_example =
    record_match_result-player_ids none none ten_players ten_players after_played elo_system
      ten_points played 9 ten_changes ten_players-Inv ten_players-Inv refl played_lem

recommitted_lem :
    apply_rating_changes none after_played (codes "m1") (map some ten_changes)
    ≡ ok (after_played, ten_changes)
unfolding lookup match_mind.Text.text_beq trim_space apply_rating_changes
recommitted_lem = refl

again_lem :
    record_match_result none none ten_players after_played elo_system ten_points played 9
    ≡ ok (after_played, ten_changes)
unfolding match_mind.RatingService.trim_result trim_space
again_lem =
    record_match_result_by none none ten_players after_played elo_system ten_points played 9
      ten_changes (ok (after_played, ten_changes)) played_changes_lem recommitted_lem
