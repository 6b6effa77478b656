-- ===== src/PlayerService/Once.antt =====
-- A match changes the ratings once.
use match_mind.Base.{
  Context, List, Map, Option, Option-cases, Result, Result-cases, [], ap, arith, eq_self, err,
  false, inl, inr, insert, length, lookup, lookup-insert, nat_beq, none, ok, refl, some, state_or,
  ◌∙◌, ◌∷◌, ◌≡◌,
}
use match_mind.Base.Int.{ℤ}
use match_mind.Clock.{Time}
use match_mind.Player.{Player}
use match_mind.PlayerService.{
  CreatePlayerCommand, SetPlayerBanCommand, create_player_service, set_player_ban, update_latency,
}
use match_mind.PlayerService.Runs.{
  creates, measures, bans, rates, PlayerCall, apply-known, player_run, player_step,
}
use match_mind.PlayerStore.{
  PlayerStore, apply_rating_changes, commit, create_player, put_player, set_ban_state,
  update_region_latency,
}
use match_mind.RatingChange.{RatingChange}
use match_mind.Text.{Text, is_empty, text_beq_iff, trim_space, text_eq}

-- The rated matches after a call that does not rate.
keeps_rated {ℓ} :
    {A : Type ℓ} (s : PlayerStore) (r : Result (PlayerStore × A))
    → ((s' : PlayerStore) (a : A) → r ≡ ok (s', a) → s'.rated_match_history ≡ s.rated_match_history)
    → (state_or s r).rated_match_history ≡ s.rated_match_history
keeps_rated s (ok (s', a)) h = h s' a refl
keeps_rated s (err e) h = refl

creates-rated :
    (ctx : Context) (s s' : PlayerStore) (command : CreatePlayerCommand) (now : Time) (q : Player)
    → create_player_service ctx s command now ≡ ok (s', q)
    → s'.rated_match_history ≡ s.rated_match_history
unfolding create_player_service create_player
creates-rated ctx s s' command now q h = ground arith

measures-rated :
    (ctx : Context) (s s' : PlayerStore) (id : Text) (latency : Map Text ℤ) (now : Time)
    (q : Player)
    → update_latency ctx s id latency now ≡ ok (s', q)
    → s'.rated_match_history ≡ s.rated_match_history
unfolding update_latency update_region_latency put_player
measures-rated ctx s s' id latency now q h = ground arith

bans-rated :
    (ctx : Context) (s s' : PlayerStore) (command : SetPlayerBanCommand) (now : Time) (q : Player)
    → set_player_ban ctx s command now ≡ ok (s', q)
    → s'.rated_match_history ≡ s.rated_match_history
unfolding set_player_ban set_ban_state put_player
bans-rated ctx s s' command now q h = ground arith

-- What a successful call says of the matches that are rated after it.
pub apply_rated :
    (ctx : Context) (s s' : PlayerStore) (id : Text) (changes : List (Option RatingChange))
    (committed : List RatingChange)
    → apply_rating_changes ctx s id changes ≡ ok (s', committed)
    → (lookup id s'.rated_match_history ≡ some committed)
      × ((other : Text) (cs : List RatingChange)
          → lookup other s.rated_match_history ≡ some cs
          → lookup other s'.rated_match_history ≡ some cs)
unfolding apply_rating_changes commit
apply_rated ctx s s' id changes committed h =
    elim (Option-cases (lookup id s.rated_match_history)) [
      | inr (known, found) ↦
          let (same, same') = apply-known ctx s s' id changes committed known found h in
          (ground arith, λ other cs k. ground arith)
      | inl fresh ↦
          let written : s'.rated_match_history ≡ insert id committed s.rated_match_history =
            ground arith in
          (
            ap (lookup id) written
                ∙ lookup-insert id id committed s.rated_match_history
                ∙ rw (eq_self id) refl,
            λ other cs k.
                ap (lookup other) written
                ∙ lookup-insert id other committed s.rated_match_history
                ∙ ground (arith, text_beq_iff id other),
          )
    ]

player_step-rated :
    (s : PlayerStore) (call : PlayerCall) (match_id : Text) (cs : List RatingChange)
    → lookup match_id s.rated_match_history ≡ some cs
    → lookup match_id (player_step s call).rated_match_history ≡ some cs
unfolding player_step
player_step-rated s (creates ctx command now) match_id cs h =
    ap (lookup match_id) (keeps_rated s _ (λ s' q k. creates-rated ctx s s' command now q k)) ∙ h
player_step-rated s (measures ctx id latency now) match_id cs h =
    ap (lookup match_id) (keeps_rated s _ (λ s' q k. measures-rated ctx s s' id latency now q k))
    ∙ h
player_step-rated s (bans ctx command now) match_id cs h =
    ap (lookup match_id) (keeps_rated s _ (λ s' q k. bans-rated ctx s s' command now q k)) ∙ h
player_step-rated s (rates ctx id changes) match_id cs h =
    elim (Result-cases (apply_rating_changes ctx s id changes)) [
      | inl ((s', committed), done) ↦
          rw (done) ((apply_rated ctx s s' id changes committed done).1 match_id cs h)
      | inr (e, refused) ↦ rw (refused) h
    ]

pub player_run-rated :
    (s : PlayerStore) (calls : List PlayerCall) (match_id : Text) (cs : List RatingChange)
    → lookup match_id s.rated_match_history ≡ some cs
    → lookup match_id (player_run s calls).rated_match_history ≡ some cs
unfolding player_run
player_run-rated s [] match_id cs h = h
player_run-rated s (c ∷ calls) match_id cs h =
    player_run-rated (player_step s c) calls match_id cs (player_step-rated s c match_id cs h)

apply_known_total :
    (s : PlayerStore) (match_id : Text) (changes : List (Option RatingChange))
    (known : List RatingChange)
    → is_empty (trim_space match_id) ≡ false
    → nat_beq (length changes) 0 ≡ false
    → lookup match_id s.rated_match_history ≡ some known
    → apply_rating_changes none s match_id changes ≡ ok (s, known)
unfolding apply_rating_changes
apply_known_total s match_id changes known named some_changes found =
    rw (named, some_changes, found) refl

named_match :
    (ctx : Context) (s s' : PlayerStore) (match_id : Text) (changes : List (Option RatingChange))
    (committed : List RatingChange)
    → apply_rating_changes ctx s match_id changes ≡ ok (s', committed)
    → is_empty (trim_space match_id) ≡ false
unfolding apply_rating_changes
named_match ctx s s' match_id changes committed h = ground arith

-- When `ApplyRatingChanges` has succeeded for a match, then after any calls of the services a further call
-- for that match with at least one change, whatever the changes, returns the changes of the first call and
-- leaves the store as it is.
pub apply_rating_changes_retry :
    (ctx : Context) (s s' : PlayerStore) (match_id : Text)
    (changes changes' : List (Option RatingChange)) (committed : List RatingChange)
    (calls : List PlayerCall)
    → apply_rating_changes ctx s match_id changes ≡ ok (s', committed)
    → nat_beq (length changes') 0 ≡ false
    → apply_rating_changes none (player_run s' calls) match_id changes'
      ≡ ok (player_run s' calls, committed)
apply_rating_changes_retry ctx s s' match_id changes changes' committed calls h nonempty =
    apply_known_total (player_run s' calls) match_id changes' committed
      (named_match ctx s s' match_id changes committed h) nonempty
      (player_run-rated s' calls match_id committed
        (apply_rated ctx s s' match_id changes committed h).0)
