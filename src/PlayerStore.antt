-- ===== src/PlayerStore.antt =====
-- internal/player/repository/memory/repository.go: the players in memory. Each method holds the lock for the
-- whole call, so a call is one step. A pointer to a change that may be nil is an Option; Clone gives an equal
-- value.
pub mod Applying
pub mod Committing
pub mod Refusing
use match_mind.Base.{
  Bool, Context, List, Map, Option, Result, [], check_context, err, if◌then◌else◌, insert, is_some,
  length, lookup, lookup_or, nat_beq, none, not, ok, or_fail, player_already_exists,
  player_not_found, rating_conflict, reject_if, some, ◌++◌, ◌==◌, ◌>>=◌, ◌>>◌, ◌||◌, ◌∷◌, ◌&&◌,
}
use match_mind.Base.Int.{ℤ}
use match_mind.Clock.{Time}
use match_mind.Float64.{float_eq}
use match_mind.Player.{Player, with_ban_state, with_rating, with_rating_state, with_region_latency}
use match_mind.RatingChange.{
  RatingChange, has_uncertainty_state, new_rating_change_with_state, rating_state,
}
use match_mind.Text.{Text, is_empty, trim_space, text_eq}

pub record PlayerStore : Type 0 where
  pub players : Map Text Player
  pub rating_history : Map Text (List RatingChange)
  pub rated_match_history : Map Text (List RatingChange)

abbrev pub new_player_store : PlayerStore
new_player_store = record { players = []; rating_history = []; rated_match_history = [] }

unfoldable pub create_player : Context → PlayerStore → Player → Result PlayerStore
create_player ctx s player = do
  check_context ctx
  reject_if (is_some (lookup player.id s.players)) player_already_exists
  ok (record s { players = insert player.id player s.players })

unfoldable pub get_by_id : Context → PlayerStore → Text → Result Player
get_by_id ctx s player_id = do
  check_context ctx
  or_fail (lookup (trim_space player_id) s.players) player_not_found

-- The loop of `GetBanStates`.
unfoldable pub collect_bans : Map Text Player → List Text → Map Text Bool → Map Text Bool
collect_bans players [] result = result
collect_bans players (id ∷ ids) result = elim (lookup id players) [
  | none ↦ collect_bans players ids result
  | some p ↦ collect_bans players ids (insert id p.banned result)
]

unfoldable pub get_ban_states : Context → PlayerStore → List Text → Result (Map Text Bool)
get_ban_states ctx s player_ids = do check_context ctx; ok (collect_bans s.players player_ids [])

-- The end of `UpdateRegionLatency` and of `SetBanState`: the changed player goes back under its ID.
unfoldable pub put_player : PlayerStore → Text → Player → PlayerStore
put_player s id p = record s { players = insert id p s.players }

unfoldable pub update_region_latency :
    Context → PlayerStore → Text → Map Text ℤ → Time → Result (PlayerStore × Player)
update_region_latency ctx s player_id latencies updated_at = do
  check_context ctx
  let id = trim_space player_id
  player ← or_fail (lookup id s.players) player_not_found
  updated ← with_region_latency player latencies
  ok (put_player s id updated, updated)

unfoldable pub set_ban_state :
    Context → PlayerStore → Text → Bool → Text → Text → Time → Result (PlayerStore × Player)
set_ban_state ctx s player_id banned reason operator_id changed_at = do
  check_context ctx
  let id = trim_space player_id
  player ← or_fail (lookup id s.players) player_not_found
  updated ← with_ban_state player banned reason operator_id changed_at
  ok (put_player s id updated, updated)

-- A change without an uncertainty gets that of the player.
unfoldable pub full_change : Player → RatingChange → Result RatingChange
full_change player change =
    if has_uncertainty_state change
    then ok change
    else new_rating_change_with_state (record {
      player_id = change.player_id;
      match_id = change.match_id;
      before = rating_state player;
      after = record (rating_state player) { rating = change.after };
      system = change.system;
      reason = change.reason;
      created_at = change.created_at;
    })

-- Has the uncertainty of the player changed since?
abbrev pub same_uncertainty : Player → RatingChange → Bool
same_uncertainty player change =
    float_eq player.rating_deviation change.deviation_before
    && float_eq player.rating_volatility change.volatility_before

unfoldable pub rerated : Player → RatingChange → Result Player
rerated player change =
    if has_uncertainty_state change
    then reject_if (not (same_uncertainty player change)) rating_conflict
      >> with_rating_state player (record {
        rating = change.after;
        deviation = change.deviation_after;
        volatility = change.volatility_after;
      })
    else with_rating player change.after

-- A turn of the loop over the changes: the change to commit and the player that it makes.
unfoldable pub apply_change :
    Text → Map Text Player → Map Text Player → Option RatingChange → Result (RatingChange × Player)
apply_change match_id players updated none = err rating_conflict
apply_change match_id players updated (some change) = do
  reject_if (not (change.match_id == match_id)) rating_conflict
  reject_if (is_some (lookup change.player_id updated)) rating_conflict
  player ← or_fail (lookup change.player_id players) player_not_found
  reject_if (not (float_eq player.initial_rating change.before)) rating_conflict
  full ← full_change player change
  q ← rerated player full
  ok (full, q)

-- The loop over the changes, which collects the players to write and the changes to commit. The written
-- player stands under the ID of the change.
unfoldable pub apply_each :
    Text
    → Map Text Player
    → Map Text Player
    → List (Option RatingChange)
    → Result (Map Text Player × List RatingChange)
apply_each match_id players updated [] = ok (updated, [])
apply_each match_id players updated (change ∷ changes) = do
  (full, q) ← apply_change match_id players updated change
  (all, committed) ← apply_each match_id players (insert full.player_id q updated) changes
  ok (all, full ∷ committed)

-- The two loops that write.
unfoldable pub put_players : Map Text Player → Map Text Player → Map Text Player
put_players [] players = players
put_players ((id, p) ∷ updated) players = put_players updated (insert id p players)

unfoldable pub append_history :
    List RatingChange → Map Text (List RatingChange) → Map Text (List RatingChange)
append_history [] history = history
append_history (c ∷ cs) history =
    append_history cs (insert c.player_id (lookup_or [] c.player_id history ++ (c ∷ [])) history)

unfoldable pub commit : PlayerStore → Text → Map Text Player → List RatingChange → PlayerStore
commit s match_id updated committed = record {
  players = put_players updated s.players;
  rating_history = append_history committed s.rating_history;
  rated_match_history = insert match_id committed s.rated_match_history;
}

unfoldable pub apply_rating_changes :
    Context
    → PlayerStore
    → Text
    → List (Option RatingChange)
    → Result (PlayerStore × List RatingChange)
apply_rating_changes ctx s match_id changes = do
  check_context ctx
  reject_if (is_empty (trim_space match_id) || nat_beq (length changes) 0) rating_conflict
  elim (lookup match_id s.rated_match_history) [
    | some existing ↦ ok (s, existing)
    | none ↦ do
      (updated, committed) ← apply_each match_id s.players [] changes
      ok (commit s match_id updated committed, committed)
  ]

unfoldable pub rating_history_of : Context → PlayerStore → Text → Result (List RatingChange)
rating_history_of ctx s player_id = do
  check_context ctx
  let id = trim_space player_id
  reject_if (not (is_some (lookup id s.players))) player_not_found
  ok (lookup_or [] id s.rating_history)
