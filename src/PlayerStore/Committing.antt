-- ===== src/PlayerStore/Committing.antt =====
-- What a successful `ApplyRatingChanges` writes, player by player.
use mathlib.Core.Option
use match_mind.Base.{
  Bool-cases, List, Map, Option, Option-cases, Result-cases, [], arith, contains-lookup, distinct,
  distinct-insert, inl, inr, insert, keep, keys, lookup, lookup-insert, lookup_or, none, ok, refl,
  some, sym, true, ◌++◌, ◌==◌, ◌∙◌, ◌∷◌, ◌≡◌, Context, ap, if◌then◌else◌, subst, ◌⊎◌,
}
use match_mind.Float64.{Float64}
use match_mind.Player.{Player}
use match_mind.PlayerStore.{
  append_history, apply_change, apply_each, put_players, PlayerStore, apply_rating_changes, commit,
}
use match_mind.PlayerStore.Applying.{changes_of, Keyed, Made, apply_each-Changed}
use match_mind.RatingChange.{RatingChange}
use match_mind.Text.{Text, text_beq_iff, text_eq}
use mathlib.Core.List.{append-nil, append_assoc}
use mathlib.Core.Path.{fun_ext}

-- The entry of the first map, or that of the second.
abbrev or_else {ℓ} : {A : Type ℓ} → Option A → Option A → Option A
or_else none b = b
or_else (some a) b = some a

lookup-put_players :
    (id : Text) (updated players : Map Text Player)
    → distinct (keys updated) ≡ true
    → lookup id (put_players updated players) ≡ or_else (lookup id updated) (lookup id players)
unfolding put_players lookup distinct
lookup-put_players id [] players d = refl
lookup-put_players id ((k, p) ∷ updated) players d =
    lookup-put_players id updated (insert k p players) (ground arith)
    ∙ elim (Option-cases (lookup id updated)) [
      | inl e ↦ ground (arith, lookup-insert k id p players)
      | inr (q, e) ↦
          ground
            (arith, lookup-insert k id p players, contains-lookup id q updated e, text_beq_iff k id)
    ]

lookup_or-insert :
    (k id : Text) (v : List RatingChange) (m : Map Text (List RatingChange))
    → lookup_or [] id (insert k v m) ≡ (if k == id then v else lookup_or [] id m)
lookup_or-insert k id v m = ground (arith, lookup-insert k id v m)

lookup-append_history :
    (id : Text) (cs : List RatingChange) (history : Map Text (List RatingChange))
    → lookup_or [] id (append_history cs history) ≡ lookup_or [] id history ++ changes_of id cs
unfolding append_history keep
lookup-append_history id [] history = sym (append-nil (lookup_or [] id history))
lookup-append_history id (c ∷ cs) history =
    let next = insert c.player_id (lookup_or [] c.player_id history ++ (c ∷ [])) history in
    lookup-append_history id cs next ∙ elim (Bool-cases (c.player_id == id)) [
      | inl this ↦
          let same : c.player_id ≡ id = (text_beq_iff c.player_id id).0 this in
          let old = lookup_or [] c.player_id history in
          let start : lookup_or [] id next ≡ old ++ (c ∷ []) =
            lookup_or-insert c.player_id id (old ++ (c ∷ [])) history ∙ rw this refl in
          rw this (
            ap (λ xs. xs ++ changes_of id cs) start
            ∙ append_assoc old (c ∷ []) (changes_of id cs)
            ∙ ap (λ i. lookup_or [] i history ++ (c ∷ changes_of id cs)) same)
      | inr other ↦ rw other (
          ap (λ xs. xs ++ changes_of id cs)
            (lookup_or-insert c.player_id id _ history ∙ rw other refl))
    ]

apply_each-distinct :
    (match_id : Text) (players updated : Map Text Player) (changes : List (Option RatingChange))
    (all : Map Text Player) (committed : List RatingChange)
    → distinct (keys updated) ≡ true
    → apply_each match_id players updated changes ≡ ok (all, committed)
    → distinct (keys all) ≡ true
unfolding apply_each
apply_each-distinct match_id players updated [] all committed d h = ground arith
apply_each-distinct match_id players updated (x ∷ xs) all committed d h =
    elim (Result-cases (apply_change match_id players updated x)) [
      | inr (e, refused) ↦ absurd (ground arith)
      | inl ((full, q), applied) ↦
          elim (Result-cases (apply_each match_id players (insert full.player_id q updated) xs)) [
            | inr (e, refused) ↦ absurd (ground arith)
            | inl ((a, cs), rest) ↦
                let whole =
                  apply_each-distinct match_id players (insert full.player_id q updated) xs a cs
                    (distinct-insert full.player_id q updated d) rest in
                let e : a ≡ all = ground arith in subst (λ m. distinct (keys m) ≡ true) e whole
          ]
    ]

-- The rating of a player in the store.
unfoldable pub ratings : PlayerStore → Text → Option Float64
ratings s id = Option.map (λ p. p.initial_rating) (lookup id s.players)

-- The ratings that the changes ask for, written over the ratings before.
unfoldable pub overwrite : List RatingChange → (Text → Option Float64) → Text → Option Float64
overwrite [] old id = old id
overwrite (c ∷ cs) old id =
    let rest = overwrite cs old id in if c.player_id == id then some c.after else rest

overwrite-none :
    (cs : List RatingChange) (old : Text → Option Float64) (id : Text)
    → changes_of id cs ≡ []
    → overwrite cs old id ≡ old id
unfolding overwrite keep
overwrite-none [] old id h = refl
overwrite-none (c ∷ cs) old id h = ground (arith, overwrite-none cs old id)

overwrite-single :
    (cs : List RatingChange) (old : Text → Option Float64) (id : Text) (c : RatingChange)
    → changes_of id cs ≡ c ∷ []
    → overwrite cs old id ≡ some c.after
unfolding overwrite keep
overwrite-single [] old id c h = absurd (ground arith)
overwrite-single (d ∷ cs) old id c h = ground (arith, overwrite-single cs old id c)

-- A player after the commit.
pub record Committed (s s' : PlayerStore) (id : Text) (cs : List RatingChange) : Type 0 where
  pub history_grows : lookup_or [] id s'.rating_history ≡ lookup_or [] id s.rating_history ++ cs
  pub outcome :
      ((cs ≡ []) × (lookup id s'.players ≡ lookup id s.players))
      ⊎ ((c : RatingChange) × (p : Player) × (q : Player) × (cs ≡ c ∷ [])
          × (lookup id s.players ≡ some p)
          × (lookup id s'.players ≡ some q)
          × Made p c q)

commit-Committed :
    (s : PlayerStore) (match_id : Text) (changes : List (Option RatingChange))
    (all : Map Text Player) (committed : List RatingChange)
    → Keyed s.players
    → apply_each match_id s.players [] changes ≡ ok (all, committed)
    → (id : Text) → Committed s (commit s match_id all committed) id (changes_of id committed)
unfolding commit lookup distinct
commit-Committed s match_id changes all committed k h id =
    let d = apply_each-distinct match_id s.players [] changes all committed refl h in
    let at = lookup-put_players id all s.players d in
    record {
      history_grows = lookup-append_history id committed s.rating_history;
      outcome = elim (apply_each-Changed match_id s.players [] changes all committed k h id) [
        | inl (none_of, kept) ↦ inl (none_of, at ∙ rw kept refl)
        | inr e ↦ inr (e.c, e.p, e.q, e.single, e.found, at ∙ rw (e.written) refl, e.made)
      ];
    }

-- A call on a match that is not rated yet writes what the loop has collected.
pub apply-Committed :
    (ctx : Context) (s s' : PlayerStore) (match_id : Text) (changes : List (Option RatingChange))
    (committed : List RatingChange)
    → Keyed s.players
    → lookup match_id s.rated_match_history ≡ none
    → apply_rating_changes ctx s match_id changes ≡ ok (s', committed)
    → ((id : Text) → Committed s s' id (changes_of id committed))
      × (s'.rated_match_history ≡ insert match_id committed s.rated_match_history)
unfolding apply_rating_changes commit
apply-Committed ctx s s' match_id changes committed k fresh h =
    elim (Result-cases (apply_each match_id s.players [] changes)) [
      | inr (e, refused) ↦ absurd (ground arith)
      | inl ((all, cs), done) ↦
          let same : commit s match_id all cs ≡ s' = ground arith in
          let same' : cs ≡ committed = ground arith in
          let whole = commit-Committed s match_id changes all cs k done in
          (
            λ id.
                subst (λ x. Committed s x id (changes_of id committed)) same
                  (subst (λ ds. Committed s (commit s match_id all cs) id (changes_of id ds)) same'
                    (whole id)),
            ap (λ x. x.rated_match_history) (sym same)
                ∙ ap (λ ds. insert match_id ds s.rated_match_history) same',
          )
    ]

-- When `ApplyRatingChanges` succeeds for a match that is not rated yet, on a store whose players stand
-- under their IDs and are as `NewPlayer` and the methods of a player leave them, the ratings after it, as
-- a function of the ID, are the ratings before it with the new rating of each committed change written
-- over that of its player.
pub apply_rating_changes-overwrite :
    (ctx : Context) (s s' : PlayerStore) (match_id : Text) (changes : List (Option RatingChange))
    (committed : List RatingChange)
    → Keyed s.players
    → lookup match_id s.rated_match_history ≡ none
    → apply_rating_changes ctx s match_id changes ≡ ok (s', committed)
    → ratings s' ≡ overwrite committed (ratings s)
unfolding ratings
apply_rating_changes-overwrite ctx s s' match_id changes committed k fresh h =
    let whole = apply-Committed ctx s s' match_id changes committed k fresh h in
    fun_ext λ id. elim (whole.0 id).outcome [
      | inl (none_of, kept) ↦
          ap (Option.map (λ p. p.initial_rating)) kept
          ∙ sym (overwrite-none committed (ratings s) id none_of)
      | inr (c, p, q, single, found, written, made) ↦
          ap (Option.map (λ p. p.initial_rating)) written
          ∙ ap some made.to_after
          ∙ sym (overwrite-single committed (ratings s) id c single)
    ]
