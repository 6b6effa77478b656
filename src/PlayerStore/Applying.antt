-- ===== src/PlayerStore/Applying.antt =====
-- What the loops of `ApplyRatingChanges` do to a player: at most one change each.
use match_mind.Base.{
  Bool-cases, List, Map, Option, Option-cases, Result-cases, [], ap, arith, inl, inr, insert, keep,
  lookup, none, ok, some, true, ◌==◌, ◌∷◌, ◌≡◌, ◌⊎◌, lookup-insert, refl, subst, ◌∙◌,
}
use match_mind.Float64.{Float64, float_eq, float_le}
use match_mind.Player.{Player, RatingState, trim_player, with_rating, with_rating_state}
use match_mind.Player.Restoring.{IsStored, rates, rates_state, PlayerStep-IsStored}
use match_mind.PlayerStore.{apply_change, apply_each, full_change, rerated}
use match_mind.RatingChange.{
  RatingChange, change_of, has_uncertainty_state, new_rating_change_with_state, rating_state,
}
use match_mind.Text.{Text, trim_space, text_eq, text_beq_iff}

float_eq_sound : (x y : Float64) → float_eq x y ≡ true → x ≡ y
unfolding float_le
float_eq_sound x y h = ground arith

-- Players stand under their IDs and are as `NewPlayer` and the methods leave them.
abbrev pub Keyed : Map Text Player → Type 0
Keyed players = (id : Text) (p : Player) → lookup id players ≡ some p → IsStored p × (p.id ≡ id)

-- What a committed change says of the player before it and after it.
pub record Made (p : Player) (c : RatingChange) (q : Player) : Type 0 where
  pub from_before : p.initial_rating ≡ c.before
  pub to_after : q.initial_rating ≡ c.after
  pub still_stored : IsStored q
  pub same_id : q.id ≡ p.id

rerated-Made :
    (p q : Player) (c : RatingChange)
    → IsStored p
    → p.initial_rating ≡ c.before
    → rerated p c ≡ ok q
    → Made p c q
unfolding rerated with_rating_state with_rating
rerated-Made p q c v e h = elim (Bool-cases (has_uncertainty_state c)) [
  | inl full ↦
      let state : RatingState = record {
        rating = c.after;
        deviation = c.deviation_after;
        volatility = c.volatility_after;
      } in
      let done : with_rating_state p state ≡ ok q = ground arith in
      record {
        from_before = e;
        to_after = ground arith;
        still_stored = PlayerStep-IsStored (rates_state state done) v;
        same_id = ground arith;
      }
  | inr plain ↦
      let done : with_rating p c.after ≡ ok q = ground arith in
      record {
        from_before = e;
        to_after = ground arith;
        still_stored = PlayerStep-IsStored (rates c.after done) v;
        same_id = ground arith;
      }
]

full_change_lem :
    (p : Player) (c full : RatingChange)
    → p.initial_rating ≡ c.before
    → trim_space c.player_id ≡ c.player_id
    → full_change p c ≡ ok full
    → (full.player_id ≡ c.player_id) × (p.initial_rating ≡ full.before)
unfolding full_change new_rating_change_with_state change_of rating_state
full_change_lem p c full e t h = (ground arith, ground arith)

-- What a turn of the loop has found.
pub record Applied (players updated : Map Text Player) (c : RatingChange) (q : Player)
    : Type 0 where
  pub unused : lookup c.player_id updated ≡ none
  pub p : Player
  pub found : lookup c.player_id players ≡ some p
  pub made : Made p c q

pub apply_change-Applied :
    (match_id : Text) (players updated : Map Text Player) (change : Option RatingChange)
    (full : RatingChange) (q : Player)
    → Keyed players
    → apply_change match_id players updated change ≡ ok (full, q)
    → Applied players updated full q
unfolding apply_change trim_player
apply_change-Applied match_id players updated none full q k h = absurd (ground arith)
apply_change-Applied match_id players updated (some c) full q k h =
    elim (Option-cases (lookup c.player_id players)) [
      | inl missing ↦ absurd (ground arith)
      | inr (p, found) ↦ elim (Result-cases (full_change p c)) [
        | inr (e, refused) ↦ absurd (ground arith)
        | inl (f, completed) ↦
            let (stored, same) = k c.player_id p found in
            let equal = float_eq_sound p.initial_rating c.before (ground arith) in
            let trimmed : trim_space p.id ≡ p.id = ap (λ x. x.id) stored.trimmed in
            let (id, start) = full_change_lem p c f equal (ground arith) completed in
            let e : f ≡ full = ground arith in
            record {
              unused = ground arith;
              p = p;
              found = ground arith;
              made = rerated-Made p q full stored (ground arith) (ground arith);
            }
      ]
    ]

-- The change that is committed is for the player of the change that was asked for.
pub apply_change_id :
    (match_id : Text) (players updated : Map Text Player) (c full : RatingChange) (q : Player)
    → Keyed players
    → apply_change match_id players updated (some c) ≡ ok (full, q)
    → full.player_id ≡ c.player_id
unfolding apply_change trim_player
apply_change_id match_id players updated c full q k h =
    elim (Option-cases (lookup c.player_id players)) [
      | inl missing ↦ absurd (ground arith)
      | inr (p, found) ↦ elim (Result-cases (full_change p c)) [
        | inr (e, refused) ↦ absurd (ground arith)
        | inl (f, completed) ↦
            let (stored, same) = k c.player_id p found in
            let equal = float_eq_sound p.initial_rating c.before (ground arith) in
            let trimmed : trim_space p.id ≡ p.id = ap (λ x. x.id) stored.trimmed in
            let (id, start) = full_change_lem p c f equal (ground arith) completed in ground arith
      ]
    ]

-- The changes of one player.
abbrev pub changes_of : Text → List RatingChange → List RatingChange
changes_of id = keep (λ c. c.player_id == id)

-- What the loop leaves for one player: nothing, or one change and the player that it makes.
pub record Changed (players updated all : Map Text Player) (id : Text) (cs : List RatingChange)
    : Type 0 where
  pub c : RatingChange
  pub p : Player
  pub q : Player
  pub single : cs ≡ c ∷ []
  pub unused : lookup id updated ≡ none
  pub found : lookup id players ≡ some p
  pub written : lookup id all ≡ some q
  pub made : Made p c q

-- One more change in front of those of the rest of the loop.
one_more :
    (players updated all : Map Text Player) (full : RatingChange) (q : Player)
    (cs : List RatingChange) (id : Text)
    → Applied players updated full q
    → ((changes_of id cs ≡ []) × (lookup id all ≡ lookup id (insert full.player_id q updated)))
      ⊎ Changed players (insert full.player_id q updated) all id (changes_of id cs)
    → ((changes_of id (full ∷ cs) ≡ []) × (lookup id all ≡ lookup id updated))
      ⊎ Changed players updated all id (changes_of id (full ∷ cs))
unfolding keep
one_more players updated all full q cs id one (inl (others, kept)) =
    elim (Bool-cases (full.player_id == id)) [
      | inr other ↦ inl (ground arith, ground (arith, lookup-insert full.player_id id q updated))
      | inl this ↦
          let same : full.player_id ≡ id = (text_beq_iff full.player_id id).0 this in
          inr (record {
            c = full;
            p = one.p;
            q = q;
            single = rw this (ap (λ cs. full ∷ cs) others);
            unused = subst (λ i. lookup i updated ≡ none) same one.unused;
            found = subst (λ i. lookup i players ≡ some one.p) same one.found;
            written = kept ∙ lookup-insert full.player_id id q updated ∙ rw this refl;
            made = one.made;
          })
    ]
one_more players updated all full q cs id one (inr more) =
    elim (Bool-cases (full.player_id == id)) [
      | inl this ↦ absurd (ground (arith, lookup-insert full.player_id id q updated, more.unused))
      | inr other ↦ inr (record {
        c = more.c;
        p = more.p;
        q = more.q;
        single = rw other more.single;
        unused = ground (arith, lookup-insert full.player_id id q updated, more.unused);
        found = more.found;
        written = more.written;
        made = more.made;
      })
    ]

pub apply_each-Changed :
    (match_id : Text) (players updated : Map Text Player) (changes : List (Option RatingChange))
    (all : Map Text Player) (committed : List RatingChange)
    → Keyed players
    → apply_each match_id players updated changes ≡ ok (all, committed)
    → (id : Text)
    → ((changes_of id committed ≡ []) × (lookup id all ≡ lookup id updated))
      ⊎ Changed players updated all id (changes_of id committed)
unfolding apply_each keep
apply_each-Changed match_id players updated [] all committed k h id =
    inl (ground arith, ground arith)
apply_each-Changed match_id players updated (x ∷ xs) all committed k h id =
    elim (Result-cases (apply_change match_id players updated x)) [
      | inr (e, refused) ↦ absurd (ground arith)
      | inl ((full, q), applied) ↦
          elim (Result-cases (apply_each match_id players (insert full.player_id q updated) xs)) [
            | inr (e, refused) ↦ absurd (ground arith)
            | inl ((a, cs), rest) ↦
                let one = apply_change-Applied match_id players updated x full q k applied in
                let more =
                  apply_each-Changed match_id players (insert full.player_id q updated) xs a cs k
                    rest id in
                let e : a ≡ all = ground arith in
                let e' : full ∷ cs ≡ committed = ground arith in
                subst
                  (λ ms.
                    ((changes_of id committed ≡ []) × (lookup id ms ≡ lookup id updated))
                    ⊎ Changed players updated ms id (changes_of id committed))
                  e
                  (subst
                    (λ ds.
                      ((changes_of id ds ≡ []) × (lookup id a ≡ lookup id updated))
                      ⊎ Changed players updated a id (changes_of id ds))
                    e' (one_more players updated a full q cs id one more))
          ]
    ]
