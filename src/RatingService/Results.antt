-- ===== src/RatingService/Results.antt =====
-- What `RecordMatchResult` does with a match.
use match_mind.Base.{
  Bool-cases, Context, List, Option-cases, Result, Result-cases, [], ap, arith, inl, inr, lookup,
  map, ok, refl, some, subst, sym, ◌++◌, ◌==◌, ◌∙◌, ◌∷◌, ◌≡◌, ap₂, Map, insert, none,
}
use match_mind.Clock.{Time}
use match_mind.Float64.{Float64, float, float_sub}
use match_mind.Player.{Player, RatingState}
use match_mind.PlayerService.Once.{apply_rated, player_run-rated}
use match_mind.PlayerService.Runs.{apply-known, PlayerCall, player_run, PlayersInv}
use match_mind.PlayerStore.{PlayerStore, apply_rating_changes, get_by_id, apply_change, apply_each}
use match_mind.PlayerStore.Applying.{Keyed, apply_change_id}
use match_mind.RatingChange.{
  RatingChange, RatingSystem, change_of, elo_system, glicko2_system, rating_state,
  new_rating_change_lem,
}
use match_mind.RatingService.{
  Calculators, RecordMatchResultCommand, average_rating, changes_by, changes_for, changes_of_teams,
  elo_changes, glicko2_changes, load_players, new_state_change, record_match_result, system_changes,
  trim_result, add_delta, aggregate_team_rating, outcome_score_a,
}
use match_mind.Text.{Text, trim_space, text_eq, trim_space_idem}

-- When `RecordMatchResult` has succeeded for a match, then after any calls of the services a further call
-- for that match that succeeds returns the changes of the first call and leaves the store as it is,
-- whatever its other arguments and calculators.
pub record_match_result_retry :
    (ctx ctx' again again' : Context) (read s s' read' end : PlayerStore)
    (system system' : RatingSystem) (calc calc' : Calculators)
    (command command' : RecordMatchResultCommand) (now now' : Time)
    (changes changes' : List RatingChange) (calls : List PlayerCall)
    → record_match_result ctx ctx' read s system calc command now ≡ ok (s', changes)
    → (trim_result command').match_id ≡ (trim_result command).match_id
    → record_match_result again again' read' (player_run s' calls) system' calc' command' now'
      ≡ ok (end, changes')
    → (end ≡ player_run s' calls) × (changes' ≡ changes)
unfolding record_match_result
record_match_result_retry ctx ctx' again again' read s s' read' end system system' calc calc'
      command command' now now' changes changes' calls h same h' =
    elim (Result-cases (changes_for ctx read system calc (trim_result command) now)) [
      | inr (e, refused) ↦ absurd (ground arith)
      | inl (cs, first) ↦
          elim (Result-cases (changes_for again read' system' calc' (trim_result command') now')) [
            | inr (e, refused) ↦ absurd (ground arith)
            | inl (cs', second) ↦
                let id = (trim_result command).match_id in
                let done : apply_rating_changes ctx' s id (map some cs) ≡ ok (s', changes) =
                  ground arith in
                let done' : apply_rating_changes again' (player_run s' calls) id (map some cs')
                    ≡ ok (end, changes') =
                  ground arith in
                apply-known again' (player_run s' calls) end id (map some cs') changes' changes
                  (player_run-rated s' calls id changes
                    (apply_rated ctx' s s' id (map some cs) changes done).0)
                  done'
          ]
    ]

pub record_match_result_by :
    (ctx ctx' : Context) (read s : PlayerStore) (system : RatingSystem) (calc : Calculators)
    (command : RecordMatchResultCommand) (now : Time) (changes : List RatingChange)
    (r : Result (PlayerStore × List RatingChange))
    → changes_for ctx read system calc (trim_result command) now ≡ ok changes
    → apply_rating_changes ctx' s (trim_result command).match_id (map some changes) ≡ r
    → record_match_result ctx ctx' read s system calc command now ≡ r
unfolding record_match_result
record_match_result_by ctx ctx' read s system calc command now changes r h k = rw (h) k

-- The IDs of the players of some changes.
abbrev pub player_ids : List RatingChange → List Text
player_ids = map (λ c. c.player_id)

load_players_ids :
    (ctx : Context) (s : PlayerStore) (ids : List Text) (players : List Player)
    → Keyed s.players
    → load_players ctx s ids ≡ ok players
    → map (λ p. p.id) players ≡ map trim_space ids
unfolding load_players get_by_id
load_players_ids ctx s [] players k h = ground arith
load_players_ids ctx s (id ∷ ids) players k h = elim (Result-cases (load_players ctx s ids)) [
  | inr (e, refused) ↦ absurd (ground arith)
  | inl (ps, rest) ↦ elim (Option-cases (lookup (trim_space id) s.players)) [
    | inl missing ↦ absurd (ground arith)
    | inr (p, found) ↦
        let e : p ∷ ps ≡ players = ground arith in
        subst (λ qs. map (λ p. p.id) qs ≡ map trim_space (id ∷ ids)) e
          (ap₂ (λ x xs. x ∷ xs) (k (trim_space id) p found).1
            (load_players_ids ctx s ids ps k rest))
  ]
]

new_state_change_id :
    (id : Text) (command : RecordMatchResultCommand) (before after : RatingState)
    (system : RatingSystem) (now : Time) (c : RatingChange)
    → new_state_change id command before after system now ≡ ok c
    → c.player_id ≡ trim_space id
unfolding new_state_change change_of
new_state_change_id id command before after system now c h =
    ap (λ x. x.player_id) (new_rating_change_lem _ c h)

changes_by_ids :
    (next : RatingState → Result RatingState) (command : RecordMatchResultCommand)
    (system : RatingSystem) (now : Time) (players : List Player) (changes : List RatingChange)
    → changes_by next command system now players ≡ ok changes
    → player_ids changes ≡ map (λ p. trim_space p.id) players
unfolding changes_by
changes_by_ids next command system now [] changes h = ground arith
changes_by_ids next command system now (p ∷ ps) changes h =
    elim (Result-cases (next (rating_state p))) [
      | inr (e, refused) ↦ absurd (ground arith)
      | inl (after, n) ↦
          elim (Result-cases (new_state_change p.id command (rating_state p) after system now)) [
            | inr (e, refused) ↦ absurd (ground arith)
            | inl (c, made) ↦ elim (Result-cases (changes_by next command system now ps)) [
              | inr (e, refused) ↦ absurd (ground arith)
              | inl (cs, rest) ↦
                  let e : c ∷ cs ≡ changes = ground arith in
                  subst (λ ds. player_ids ds ≡ map (λ p. trim_space p.id) (p ∷ ps)) e
                    (ap₂ (λ x xs. x ∷ xs)
                      (new_state_change_id p.id command (rating_state p) after system now c made)
                      (changes_by_ids next command system now ps cs rest))
            ]
          ]
    ]

map-append : {A B : Type 0} (f : A → B) (xs ys : List A) → map f (xs ++ ys) ≡ map f xs ++ map f ys
map-append f [] ys = refl
map-append f (x ∷ xs) ys = ap (λ zs. f x ∷ zs) (map-append f xs ys)

changes_of_teams_ids :
    (next_a next_b : RatingState → Result RatingState) (command : RecordMatchResultCommand)
    (system : RatingSystem) (now : Time) (team_a team_b : List Player) (changes : List RatingChange)
    → changes_of_teams next_a next_b command system now team_a team_b ≡ ok changes
    → player_ids changes ≡ map (λ p. trim_space p.id) (team_a ++ team_b)
unfolding changes_of_teams
changes_of_teams_ids next_a next_b command system now team_a team_b changes h =
    elim (Result-cases (changes_by next_a command system now team_a)) [
      | inr (e, refused) ↦ absurd (ground arith)
      | inl (cs, first) ↦ elim (Result-cases (changes_by next_b command system now team_b)) [
        | inr (e, refused) ↦ absurd (ground arith)
        | inl (ds, rest) ↦
            let e : cs ++ ds ≡ changes = ground arith in
            subst (λ xs. player_ids xs ≡ map (λ p. trim_space p.id) (team_a ++ team_b)) e
              (map-append (λ c. c.player_id) cs ds
                ∙ ap₂ (λ xs ys. xs ++ ys) (changes_by_ids next_a command system now team_a cs first)
                    (changes_by_ids next_b command system now team_b ds rest)
                ∙ sym (map-append (λ p. trim_space p.id) team_a team_b))
      ]
    ]

system_changes_ids :
    (system : RatingSystem) (calc : Calculators) (command : RecordMatchResultCommand)
    (team_a team_b : List Player) (score : Float64) (now : Time) (changes : List RatingChange)
    → system_changes system calc command team_a team_b score now ≡ ok changes
    → player_ids changes ≡ map (λ p. trim_space p.id) (team_a ++ team_b)
unfolding system_changes elo_changes glicko2_changes
system_changes_ids system calc command team_a team_b score now changes h =
    elim (Bool-cases (system == elo_system)) [
      | inl elo ↦
          elim (Result-cases
            (calc.update_pair (average_rating team_a) (average_rating team_b) score)) [
              | inr (e, refused) ↦ absurd (ground arith)
              | inl ((delta_a, delta_b), found) ↦
                  changes_of_teams_ids (add_delta delta_a) (add_delta delta_b) command elo_system
                    now team_a team_b changes (ground arith)
            ]
      | inr other ↦
          changes_of_teams_ids
            (λ state. calc.update_glicko state (aggregate_team_rating calc team_b) score)
            (λ state.
              calc.update_glicko state (aggregate_team_rating calc team_a)
                (float_sub (float 1) score))
            command glicko2_system now team_a team_b changes (ground arith)
    ]

-- A stored ID is trimmed.
trimmed_ids :
    (players : List Player) (ids : List Text)
    → map (λ p. p.id) players ≡ map trim_space ids
    → map (λ p. trim_space p.id) players ≡ map trim_space ids
trimmed_ids [] [] h = h
trimmed_ids [] (i ∷ is) h = absurd (ground arith)
trimmed_ids (p ∷ ps) [] h = absurd (ground arith)
trimmed_ids (p ∷ ps) (i ∷ is) h =
    let e : p.id ≡ trim_space i = ground arith in
    ap₂ (λ x xs. x ∷ xs) (ap trim_space e ∙ trim_space_idem i) (trimmed_ids ps is (ground arith))

changes_for_ids :
    (ctx : Context) (s : PlayerStore) (system : RatingSystem) (calc : Calculators)
    (command : RecordMatchResultCommand) (now : Time) (changes : List RatingChange)
    → Keyed s.players
    → changes_for ctx s system calc command now ≡ ok changes
    → player_ids changes ≡ map trim_space (command.team_a_player_ids ++ command.team_b_player_ids)
unfolding changes_for
changes_for_ids ctx s system calc command now changes k h =
    elim (Result-cases (load_players ctx s command.team_a_player_ids)) [
      | inr (e, refused) ↦ absurd (ground arith)
      | inl (team_a, first) ↦ elim (Result-cases (load_players ctx s command.team_b_player_ids)) [
        | inr (e, refused) ↦ absurd (ground arith)
        | inl (team_b, rest) ↦
            system_changes_ids system calc command team_a team_b (outcome_score_a command.outcome)
              now changes (ground arith)
            ∙ map-append (λ p. trim_space p.id) team_a team_b
            ∙ ap₂ (λ xs ys. xs ++ ys)
                (trimmed_ids team_a command.team_a_player_ids
                  (load_players_ids ctx s command.team_a_player_ids team_a k first))
                (trimmed_ids team_b command.team_b_player_ids
                  (load_players_ids ctx s command.team_b_player_ids team_b k rest))
            ∙ sym (map-append trim_space command.team_a_player_ids command.team_b_player_ids)
      ]
    ]

apply_each_ids :
    (match_id : Text) (players updated : Map Text Player) (changes : List RatingChange)
    (all : Map Text Player) (committed : List RatingChange)
    → Keyed players
    → apply_each match_id players updated (map some changes) ≡ ok (all, committed)
    → player_ids committed ≡ player_ids changes
unfolding apply_each
apply_each_ids match_id players updated [] all committed k h = ground arith
apply_each_ids match_id players updated (c ∷ cs) all committed k h =
    elim (Result-cases (apply_change match_id players updated (some c))) [
      | inr (e, refused) ↦ absurd (ground arith)
      | inl ((full, q), applied) ↦
          let next = insert full.player_id q updated in
          elim (Result-cases (apply_each match_id players next (map some cs))) [
            | inr (e, refused) ↦ absurd (ground arith)
            | inl ((a, ds), rest) ↦
                let e : full ∷ ds ≡ committed = ground arith in
                subst (λ xs. player_ids xs ≡ player_ids (c ∷ cs)) e
                  (ap₂ (λ x xs. x ∷ xs)
                    (apply_change_id match_id players updated c full q k applied)
                    (apply_each_ids match_id players next cs a ds k rest))
          ]
    ]

apply_ids :
    (ctx : Context) (s s' : PlayerStore) (match_id : Text) (changes committed : List RatingChange)
    → Keyed s.players
    → lookup match_id s.rated_match_history ≡ none
    → apply_rating_changes ctx s match_id (map some changes) ≡ ok (s', committed)
    → player_ids committed ≡ player_ids changes
unfolding apply_rating_changes
apply_ids ctx s s' match_id changes committed k fresh h =
    elim (Result-cases (apply_each match_id s.players [] (map some changes))) [
      | inr (e, refused) ↦ absurd (ground arith)
      | inl ((all, cs), done) ↦
          let e : cs ≡ committed = ground arith in
          subst (λ xs. player_ids xs ≡ player_ids changes) e
            (apply_each_ids match_id s.players [] changes all cs k done)
    ]

-- When `RecordMatchResult` succeeds for a match that is not rated yet, where the stores that it reads and
-- writes satisfy the invariant, the committed changes are for the players of the first team and then those
-- of the second, each once and in the order of the command.
pub record_match_result-player_ids :
    (ctx ctx' : Context) (read s s' : PlayerStore) (system : RatingSystem) (calc : Calculators)
    (command : RecordMatchResultCommand) (now : Time) (changes : List RatingChange)
    → PlayersInv read
    → PlayersInv s
    → lookup (trim_result command).match_id s.rated_match_history ≡ none
    → record_match_result ctx ctx' read s system calc command now ≡ ok (s', changes)
    → player_ids changes ≡ map trim_space (command.team_a_player_ids ++ command.team_b_player_ids)
unfolding record_match_result trim_result
record_match_result-player_ids ctx ctx' read s s' system calc command now changes v v' fresh h =
    elim (Result-cases (changes_for ctx read system calc (trim_result command) now)) [
      | inr (e, refused) ↦ absurd (ground arith)
      | inl (cs, first) ↦
          apply_ids ctx' s s' (trim_result command).match_id cs changes v'.keyed fresh
            (ground arith)
          ∙ changes_for_ids ctx read system calc (trim_result command) now cs v.keyed first
    ]
