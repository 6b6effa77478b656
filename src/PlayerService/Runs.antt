-- ===== src/PlayerService/Runs.antt =====
-- The players and their rating history under any sequence of calls.
use match_mind.Base.{
  Bool-cases, Context, List, Map, Option, Option-cases, Result-cases, [], ap, arith, inl, inr,
  lookup, lookup-insert, lookup_or, none, ok, refl, some, state_or, subst, sym, ◌++◌, ◌==◌, ◌∙◌,
  ◌∷◌, ◌≡◌, Result, err,
}
use match_mind.Base.Int.{ℤ}
use match_mind.Clock.{Time}
use match_mind.Float64.{Float64}
use match_mind.Player.{
  NewPlayerParams, Player, new_player, with_ban_state, with_region_latency, restore_player,
}
use match_mind.Player.Restoring.{
  IsStored, PlayerStep, PlayerStep-IsStored, new_player-IsStored, IsStored-restore,
}
use match_mind.PlayerService.{
  CreatePlayerCommand, SetPlayerBanCommand, create_player_service, set_player_ban, update_latency,
}
use match_mind.PlayerStore.{
  PlayerStore, apply_rating_changes, create_player, put_player, set_ban_state,
  update_region_latency, new_player_store,
}
use match_mind.PlayerStore.Applying.{Keyed, changes_of}
use match_mind.PlayerStore.Committing.{Committed, apply-Committed}
use match_mind.RatingChange.{RatingChange}
use match_mind.Text.{Text, text_beq_iff, trim_space, text_eq}
use mathlib.Core.List.{append-nil}

-- A call that may write, with its arguments and the time of the clock.
pub data PlayerCall : Type 0 where
  creates : Context → CreatePlayerCommand → Time → PlayerCall
  measures : Context → Text → Map Text ℤ → Time → PlayerCall
  bans : Context → SetPlayerBanCommand → Time → PlayerCall
  rates : Context → Text → List (Option RatingChange) → PlayerCall

-- The store after a call, which a failing call leaves as it was.
unfoldable pub player_step : PlayerStore → PlayerCall → PlayerStore
player_step s (creates ctx command now) = state_or s (create_player_service ctx s command now)
player_step s (measures ctx id latency now) = state_or s (update_latency ctx s id latency now)
player_step s (bans ctx command now) = state_or s (set_player_ban ctx s command now)
player_step s (rates ctx id changes) = state_or s (apply_rating_changes ctx s id changes)

unfoldable pub player_run : PlayerStore → List PlayerCall → PlayerStore
player_run s [] = s
player_run s (c ∷ cs) = player_run (player_step s c) cs

-- Each change starts at the rating that the one before it has left, and the last one leaves `r`.
unfoldable pub Chain : List RatingChange → Float64 → Type 0
Chain [] r = Unit
Chain (c ∷ []) r = c.after ≡ r
Chain (c ∷ d ∷ cs) r = (c.after ≡ d.before) × Chain (d ∷ cs) r

Chain-append :
    (cs : List RatingChange) (c : RatingChange) (r : Float64)
    → Chain cs r
    → r ≡ c.before
    → Chain (cs ++ (c ∷ [])) c.after
unfolding Chain
Chain-append [] c r h e = refl
Chain-append (b ∷ []) c r h e = (h ∙ e, refl)
Chain-append (b ∷ d ∷ cs) c r h e = (h.0, Chain-append (d ∷ cs) c r h.1 e)

-- What holds between the calls.
pub record PlayersInv (s : PlayerStore) : Type 0 where
  pub keyed : Keyed s.players
  pub chained :
      (id : Text) (p : Player)
      → lookup id s.players ≡ some p
      → Chain (lookup_or [] id s.rating_history) p.initial_rating
  pub unrated : (id : Text) → lookup id s.players ≡ none → lookup_or [] id s.rating_history ≡ []

-- Writing a player whose rating is that of the player before it, or who is new.
put-Inv :
    (s : PlayerStore) (id : Text) (q : Player)
    → PlayersInv s
    → IsStored q
    → q.id ≡ id
    → Chain (lookup_or [] id s.rating_history) q.initial_rating
    → PlayersInv (put_player s id q)
unfolding put_player
put-Inv s id q v stored same chain = record {
  keyed = λ k p h. elim (Bool-cases (id == k)) [
    | inl this ↦
        let e : q ≡ p = ground (arith, lookup-insert id k q s.players) in
        (subst IsStored e stored, ap (λ x. x.id) (sym e) ∙ same ∙ (text_beq_iff id k).0 this)
    | inr other ↦ v.keyed k p (sym (lookup-insert id k q s.players ∙ rw other refl) ∙ h)
  ];
  chained = λ k p h. elim (Bool-cases (id == k)) [
    | inl this ↦
        let e : q ≡ p = ground (arith, lookup-insert id k q s.players) in
        subst (λ x. Chain (lookup_or [] k s.rating_history) x.initial_rating) e
          (subst (λ i. Chain (lookup_or [] i s.rating_history) q.initial_rating)
            ((text_beq_iff id k).0 this) chain)
    | inr other ↦ v.chained k p (sym (lookup-insert id k q s.players ∙ rw other refl) ∙ h)
  ];
  unrated = λ k h. v.unrated k (ground (arith, lookup-insert id k q s.players));
}

-- A step of a stored player that keeps the rating.
change-Inv :
    (s : PlayerStore) (id : Text) (p q : Player)
    → PlayersInv s
    → lookup id s.players ≡ some p
    → PlayerStep p q
    → q.id ≡ p.id
    → q.initial_rating ≡ p.initial_rating
    → PlayersInv (put_player s id q)
change-Inv s id p q v found step same kept =
    let (stored, at) = v.keyed id p found in
    put-Inv s id q v (PlayerStep-IsStored step stored) (same ∙ at) (rw kept (v.chained id p found))

measures-Inv :
    (ctx : Context) (s s' : PlayerStore) (raw : Text) (latency : Map Text ℤ) (now : Time)
    (q : Player)
    → PlayersInv s
    → update_latency ctx s raw latency now ≡ ok (s', q)
    → PlayersInv s'
unfolding update_latency update_region_latency with_region_latency trim_space
measures-Inv ctx s s' raw latency now q v h =
    let id = trim_space (trim_space raw) in
    elim (Option-cases (lookup id s.players)) [
      | inl missing ↦ absurd (ground arith)
      | inr (p, found) ↦ elim (Result-cases (with_region_latency p latency)) [
        | inr (e, refused) ↦ absurd (ground arith)
        | inl (u, done) ↦
            let e : put_player s id u ≡ s' = ground arith in
            subst PlayersInv e (
              change-Inv s id p u v found (PlayerStep.measures latency done) (ground arith)
                (ground arith))
      ]
    ]

bans-Inv :
    (ctx : Context) (s s' : PlayerStore) (command : SetPlayerBanCommand) (now : Time) (q : Player)
    → PlayersInv s
    → set_player_ban ctx s command now ≡ ok (s', q)
    → PlayersInv s'
unfolding set_player_ban set_ban_state with_ban_state
bans-Inv ctx s s' command now q v h =
    let id = trim_space (trim_space command.player_id) in
    let by = trim_space command.operator_id in
    elim (Option-cases (lookup id s.players)) [
      | inl missing ↦ absurd (ground arith)
      | inr (p, found) ↦
          elim (Result-cases (with_ban_state p command.banned command.reason by now)) [
            | inr (e, refused) ↦ absurd (ground arith)
            | inl (u, done) ↦
                let e : put_player s id u ≡ s' = ground arith in
                subst PlayersInv e (
                  change-Inv s id p u v found
                    (PlayerStep.bans command.banned command.reason by now done) (ground arith)
                    (ground arith))
          ]
    ]

creates-Inv :
    (ctx : Context) (s s' : PlayerStore) (command : CreatePlayerCommand) (now : Time) (q : Player)
    → PlayersInv s
    → create_player_service ctx s command now ≡ ok (s', q)
    → PlayersInv s'
unfolding create_player_service create_player put_player
creates-Inv ctx s s' command now q v h =
    let params : NewPlayerParams = record {
      id = command.id;
      name = command.name;
      initial_rating = command.initial_rating;
      preferred_roles = command.preferred_roles;
      home_region = command.home_region;
      region_latency = command.region_latency;
      behavior_score = command.behavior_score;
      hero_proficiency = command.hero_proficiency;
      created_at = now;
    } in
    elim (Result-cases (new_player params)) [
      | inr (e, refused) ↦ absurd (ground arith)
      | inl (p, made) ↦ elim (Option-cases (lookup p.id s.players)) [
        | inr (old, found) ↦ absurd (ground arith)
        | inl fresh ↦
            let e : put_player s p.id p ≡ s' = ground arith in
            subst PlayersInv e (
              put-Inv s p.id p v (new_player-IsStored params p made) refl (
                subst (λ cs. Chain cs p.initial_rating) (sym (v.unrated p.id fresh))
                  (unfold Chain in tt)))
      ]
    ]

pub apply-known :
    (ctx : Context) (s s' : PlayerStore) (match_id : Text) (changes : List (Option RatingChange))
    (committed known : List RatingChange)
    → lookup match_id s.rated_match_history ≡ some known
    → apply_rating_changes ctx s match_id changes ≡ ok (s', committed)
    → (s' ≡ s) × (committed ≡ known)
unfolding apply_rating_changes
apply-known ctx s s' match_id changes committed known found h = (ground arith, ground arith)

-- The commit of one player's changes keeps what the invariant says of that player.
rated-Inv :
    (s s' : PlayerStore) (committed : List RatingChange)
    → PlayersInv s
    → ((id : Text) → Committed s s' id (changes_of id committed))
    → PlayersInv s'
rated-Inv s s' committed v whole = record {
  keyed = λ k p h. elim (whole k).outcome [
    | inl (none_of, kept) ↦ v.keyed k p (sym kept ∙ h)
    | inr (c, o, q, single, found, written, made) ↦
        let e : q ≡ p = ground arith in
        (
          subst IsStored e made.still_stored,
          ap (λ x. x.id) (sym e) ∙ made.same_id ∙ (v.keyed k o found).1,
        )
  ];
  chained = λ k p h. elim (whole k).outcome [
    | inl (none_of, kept) ↦
        rw ((whole k).history_grows, none_of)
          (rw (append-nil (lookup_or [] k s.rating_history)) (v.chained k p (sym kept ∙ h)))
    | inr (c, o, q, single, found, written, made) ↦
        let e : q ≡ p = ground arith in
        let longer =
          Chain-append (lookup_or [] k s.rating_history) c o.initial_rating (v.chained k o found)
            made.from_before in
        subst (λ cs. Chain cs p.initial_rating)
          (sym ((whole k).history_grows ∙ ap (λ cs. lookup_or [] k s.rating_history ++ cs) single))
          (subst (Chain (lookup_or [] k s.rating_history ++ (c ∷ [])))
            (sym made.to_after ∙ ap (λ x. x.initial_rating) e) longer)
  ];
  unrated = λ k h. elim (whole k).outcome [
    | inl (none_of, kept) ↦
        (whole k).history_grows
        ∙ ap (λ cs. lookup_or [] k s.rating_history ++ cs) none_of
        ∙ append-nil (lookup_or [] k s.rating_history)
        ∙ v.unrated k (sym kept ∙ h)
    | inr (c, o, q, single, found, written, made) ↦ absurd (ground arith)
  ];
}

rates-Inv :
    (ctx : Context) (s s' : PlayerStore) (match_id : Text) (changes : List (Option RatingChange))
    (committed : List RatingChange)
    → PlayersInv s
    → apply_rating_changes ctx s match_id changes ≡ ok (s', committed)
    → PlayersInv s'
rates-Inv ctx s s' match_id changes committed v h =
    elim (Option-cases (lookup match_id s.rated_match_history)) [
      | inr (known, found) ↦
          subst PlayersInv (sym (apply-known ctx s s' match_id changes committed known found h).0) v
      | inl fresh ↦
          rated-Inv s s' committed v
            (apply-Committed ctx s s' match_id changes committed v.keyed fresh h).0
    ]

state_or-PlayersInv {ℓ} :
    {A : Type ℓ} (s : PlayerStore) (r : Result (PlayerStore × A))
    → PlayersInv s
    → ((s' : PlayerStore) (a : A) → r ≡ ok (s', a) → PlayersInv s')
    → PlayersInv (state_or s r)
state_or-PlayersInv s (ok (s', a)) v h = h s' a refl
state_or-PlayersInv s (err e) v h = v

player_step-Inv : (s : PlayerStore) (c : PlayerCall) → PlayersInv s → PlayersInv (player_step s c)
unfolding player_step
player_step-Inv s (creates ctx command now) v =
    state_or-PlayersInv s _ v (λ s' q h. creates-Inv ctx s s' command now q v h)
player_step-Inv s (measures ctx id latency now) v =
    state_or-PlayersInv s _ v (λ s' q h. measures-Inv ctx s s' id latency now q v h)
player_step-Inv s (bans ctx command now) v =
    state_or-PlayersInv s _ v (λ s' q h. bans-Inv ctx s s' command now q v h)
player_step-Inv s (rates ctx id changes) v =
    state_or-PlayersInv s _ v (λ s' cs h. rates-Inv ctx s s' id changes cs v h)

pub player_run-keeps :
    (s : PlayerStore) (cs : List PlayerCall) → PlayersInv s → PlayersInv (player_run s cs)
unfolding player_run
player_run-keeps s [] v = v
player_run-keeps s (c ∷ cs) v = player_run-keeps (player_step s c) cs (player_step-Inv s c v)

new_player_store-Inv : PlayersInv new_player_store
unfolding lookup Chain
new_player_store-Inv = record {
  keyed = λ id p h. absurd (ground arith);
  chained = λ id p h. tt;
  unrated = λ id h. refl;
}

pub player_run-Inv : (cs : List PlayerCall) → PlayersInv (player_run new_player_store cs)
player_run-Inv cs = player_run-keeps new_player_store cs new_player_store-Inv

-- After any calls of the services on a new store of players, the rating changes in the history of a stored
-- player form a chain: each starts at the rating that the one before it left, and the last one left the
-- rating that the player has.
pub player_run-Chain :
    (cs : List PlayerCall) (id : Text) (p : Player)
    → lookup id (player_run new_player_store cs).players ≡ some p
    → Chain (lookup_or [] id (player_run new_player_store cs).rating_history) p.initial_rating
player_run-Chain cs id p h = (player_run-Inv cs).chained id p h

-- After any calls of the services on a new store of players, a player stands under its ID, and
-- `RestorePlayer` of its snapshot gives it back.
pub player_run-restorable :
    (cs : List PlayerCall) (id : Text) (p : Player)
    → lookup id (player_run new_player_store cs).players ≡ some p
    → (p.id ≡ id) × (restore_player p ≡ ok p)
player_run-restorable cs id p h =
    let (stored, same) = (player_run-Inv cs).keyed id p h in (same, IsStored-restore p stored)
