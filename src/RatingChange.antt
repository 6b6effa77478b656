-- ===== src/RatingChange.antt =====
-- internal/player/domain/rating_change.go: what a match changes in the rating of a player. The rating of a
-- player itself is in Player.antt.
use match_mind.Base.{
  Bool, Result, invalid_rating_change, not, ok, reject_if, ◌&&◌, ◌==◌, ◌>>◌, ◌||◌, arith, ◌≡◌,
}
use match_mind.Clock.{Time, is_zero, utc}
use match_mind.Float64.{Float64, float, float_eq, float_lt}
use match_mind.Player.{Player, RatingState, valid_rating_value, valid_uncertainty_state}
use match_mind.Text.{Text, codes, is_empty, trim_space, text_eq}

abbrev pub RatingSystem : Type 0
RatingSystem = Text

abbrev pub elo_system : RatingSystem
elo_system = codes "elo"

abbrev pub glicko2_system : RatingSystem
glicko2_system = codes "glicko2"

pub record NewRatingChangeParams : Type 0 where
  pub player_id : Text
  pub match_id : Text
  pub before : RatingState
  pub after : RatingState
  pub system : RatingSystem
  pub reason : Text
  pub created_at : Time

pub record RatingChange : Type 0 where
  pub player_id : Text
  pub match_id : Text
  pub before : Float64
  pub after : Float64
  pub deviation_before : Float64
  pub deviation_after : Float64
  pub volatility_before : Float64
  pub volatility_after : Float64
  pub system : RatingSystem
  pub reason : Text
  pub created_at : Time

abbrev has_uncertainty : RatingState → RatingState → Bool
has_uncertainty b a =
    not (float_eq b.deviation (float 0))
    || not (float_eq a.deviation (float 0))
    || not (float_eq b.volatility (float 0))
    || not (float_eq a.volatility (float 0))

unfoldable pub change_of : NewRatingChangeParams → RatingChange
change_of p = record {
  player_id = trim_space p.player_id;
  match_id = trim_space p.match_id;
  before = p.before.rating;
  after = p.after.rating;
  deviation_before = p.before.deviation;
  deviation_after = p.after.deviation;
  volatility_before = p.before.volatility;
  volatility_after = p.after.volatility;
  system = p.system;
  reason = trim_space p.reason;
  created_at = utc p.created_at;
}

-- The conditions of `NewRatingChangeWithState`, in its order.
unfoldable pub incomplete_change : NewRatingChangeParams → Bool
incomplete_change p =
    is_empty (trim_space p.player_id)
    || is_empty (trim_space p.match_id)
    || is_empty (trim_space p.reason)
    || is_zero p.created_at

unfoldable pub unknown_system : RatingSystem → Bool
unknown_system system = not (system == elo_system) && not (system == glicko2_system)

unfoldable pub bad_ratings : NewRatingChangeParams → Bool
bad_ratings p = not (valid_rating_value p.before.rating) || not (valid_rating_value p.after.rating)

unfoldable pub bad_uncertainty : NewRatingChangeParams → Bool
bad_uncertainty p =
    has_uncertainty p.before p.after
    && (not (valid_uncertainty_state p.before) || not (valid_uncertainty_state p.after))

unfoldable pub new_rating_change_with_state : NewRatingChangeParams → Result RatingChange
new_rating_change_with_state p = do
  reject_if (incomplete_change p) invalid_rating_change
  reject_if (unknown_system p.system) invalid_rating_change
  reject_if (bad_ratings p) invalid_rating_change
  reject_if (bad_uncertainty p) invalid_rating_change
  ok (change_of p)

abbrev plain_rating : Float64 → RatingState
plain_rating r = record { rating = r; deviation = float 0; volatility = float 0 }

unfoldable pub new_rating_change :
    Text → Text → Float64 → Float64 → Text → Time → Result RatingChange
new_rating_change player_id match_id before after reason created_at =
    new_rating_change_with_state (record {
      player_id = player_id;
      match_id = match_id;
      before = plain_rating before;
      after = plain_rating after;
      system = elo_system;
      reason = reason;
      created_at = created_at;
    })

unfoldable pub has_uncertainty_state : RatingChange → Bool
has_uncertainty_state c = float_lt (float 0) c.deviation_before

unfoldable pub rating_state : Player → RatingState
rating_state p = record {
  rating = p.initial_rating;
  deviation = p.rating_deviation;
  volatility = p.rating_volatility;
}

pub new_rating_change_lem :
    (p : NewRatingChangeParams) (c : RatingChange)
    → new_rating_change_with_state p ≡ ok c
    → c ≡ change_of p
unfolding new_rating_change_with_state
new_rating_change_lem p c h = ground arith
