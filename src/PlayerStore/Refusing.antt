-- ===== src/PlayerStore/Refusing.antt =====
-- One bad change is enough to refuse all of them.
use match_mind.Base.{
  Bool, Context, Error, List, Map, Option, Option-cases, Result-cases, [], arith, err, inl, inr,
  insert, lookup, none, not, rating_conflict, refl, some, true, ◌++◌, ◌==◌, ◌||◌, ◌∷◌, ◌≡◌,
}
use match_mind.Float64.{float_eq}
use match_mind.Player.{Player}
use match_mind.PlayerStore.{PlayerStore, apply_change, apply_each, apply_rating_changes}
use match_mind.RatingChange.{RatingChange}
use match_mind.Text.{Text, text_eq}

-- A change that is nil, is of another match, has no stored player, or starts at another rating than the player has.
unfoldable pub is_bad : Text → Map Text Player → Option RatingChange → Bool
is_bad match_id players none = true
is_bad match_id players (some c) =
    not (c.match_id == match_id) || elim (lookup c.player_id players) [
      | none ↦ true
      | some p ↦ not (float_eq p.initial_rating c.before)
    ]

apply_change_bad :
    (match_id : Text) (players updated : Map Text Player) (change : Option RatingChange)
    → is_bad match_id players change ≡ true
    → (e : Error) × (apply_change match_id players updated change ≡ err e)
unfolding apply_change is_bad
apply_change_bad match_id players updated none h = (rating_conflict, refl)
apply_change_bad match_id players updated (some c) h =
    elim (Result-cases (apply_change match_id players updated (some c))) [
      | inr (e, refused) ↦ (e, refused)
      | inl (a, done) ↦ elim (Option-cases (lookup c.player_id players)) [
        | inl missing ↦ absurd (ground arith)
        | inr (p, found) ↦ absurd (ground arith)
      ]
    ]

apply_each_bad :
    (match_id : Text) (players updated : Map Text Player) (xs ys : List (Option RatingChange))
    (change : Option RatingChange)
    → is_bad match_id players change ≡ true
    → (e : Error) × (apply_each match_id players updated (xs ++ (change ∷ ys)) ≡ err e)
unfolding apply_each
apply_each_bad match_id players updated [] ys change h =
    let (e, refused) = apply_change_bad match_id players updated change h in (e, rw (refused) refl)
apply_each_bad match_id players updated (x ∷ xs) ys change h =
    elim (Result-cases (apply_change match_id players updated x)) [
      | inr (e, refused) ↦ (e, rw (refused) refl)
      | inl ((full, q), applied) ↦
          let (e, refused) =
            apply_each_bad match_id players (insert full.player_id q updated) xs ys change h in
          (e, rw (applied, refused) refl)
    ]

-- When one of the changes that `ApplyRatingChanges` is called with for a match that is not rated yet is
-- nil, is of another match, has no stored player or starts at another rating than its player has, wherever
-- it stands in the list, the call returns an error.
pub apply_rating_changes_refused :
    (ctx : Context) (s : PlayerStore) (match_id : Text) (xs ys : List (Option RatingChange))
    (change : Option RatingChange)
    → lookup match_id s.rated_match_history ≡ none
    → is_bad match_id s.players change ≡ true
    → (e : Error) × (apply_rating_changes ctx s match_id (xs ++ (change ∷ ys)) ≡ err e)
unfolding apply_rating_changes
apply_rating_changes_refused ctx s match_id xs ys change fresh h =
    elim (Result-cases (apply_rating_changes ctx s match_id (xs ++ (change ∷ ys)))) [
      | inr (e, refused) ↦ (e, refused)
      | inl (a, done) ↦
          let (e, refused) = apply_each_bad match_id s.players [] xs ys change h in
          absurd (ground arith)
    ]
