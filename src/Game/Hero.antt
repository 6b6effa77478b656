-- ===== src/Game/Hero.antt =====
-- internal/game/hero/catalog.go: the ten heroes, and the hero that a player is given for a role.
use match_mind.Base.{
  List, [], ◌∷◌, Map, sort_stable, ℕ, Option, Result, insert, lookup, lookup_or, keep,
  if◌then◌else◌, err, ◌==◌, unknown_role, ok, ◌≡◌,
}
use match_mind.Float64.{Float64, float, float_lt}
use match_mind.Text.{Text, codes, lower_trim, text_lt, text_eq, lower_trim_idem}

pub record Hero : Type 0 where
  pub id : Text
  pub name : Text
  pub role : Text
  pub difficulty : ℕ
  pub offense : ℕ
  pub defense : ℕ
  pub control : ℕ
  pub teamwork : ℕ

abbrev make : Text → Text → Text → ℕ → ℕ → ℕ → ℕ → ℕ → Hero
make id name role difficulty offense defense control teamwork = record {
  id = id;
  name = name;
  role = role;
  difficulty = difficulty;
  offense = offense;
  defense = defense;
  control = control;
  teamwork = teamwork;
}

unfoldable pub catalog : List Hero
catalog =
    make (codes "ironwall") (codes "Ironwall") (codes "vanguard") 35 45 95 80 85
    ∷ make (codes "stormguard") (codes "Stormguard") (codes "vanguard") 65 65 85 75 80
    ∷ make (codes "shadowstep") (codes "Shadowstep") (codes "roamer") 80 80 35 70 75
    ∷ make (codes "pathfinder") (codes "Pathfinder") (codes "roamer") 55 60 55 75 90
    ∷ make (codes "starblade") (codes "Starblade") (codes "core") 75 95 40 45 60
    ∷ make (codes "emberlord") (codes "Emberlord") (codes "core") 60 90 50 55 65
    ∷ make (codes "windshot") (codes "Windshot") (codes "ranged") 50 90 30 50 65
    ∷ make (codes "arcweaver") (codes "Arcweaver") (codes "ranged") 85 85 35 75 75
    ∷ make (codes "lifebloom") (codes "Lifebloom") (codes "support") 45 30 50 65 98
    ∷ make (codes "chronowarden") (codes "Chronowarden") (codes "support") 80 45 45 95 95
    ∷ []

unfoldable pub index : List Hero → Map Text Hero
index [] = []
index (h ∷ hs) = insert h.id h (index hs)

unfoldable pub get : Text → Option Hero
unfolding index catalog
get id = lookup (lower_trim id) (index catalog)

-- The heroes of a role, by their IDs.
unfoldable pub candidates : Text → List Hero
unfolding catalog
candidates role = sort_stable (λ g h. text_lt g.id h.id) (keep (λ h. h.role == role) catalog)

-- The loop over `candidates[1:]`: a later hero replaces the best one by a higher score only.
unfoldable pub best_of : Map Text Float64 → Hero → Float64 → List Hero → Hero × Float64
best_of proficiency best best_score [] = (best, best_score)
best_of proficiency best best_score (h ∷ hs) =
    let score = lookup_or (float 0) h.id proficiency in
    let higher = float_lt best_score score in
    best_of proficiency (if higher then h else best) (if higher then score else best_score) hs

pick_hero : Map Text Float64 → List Hero → Result (Hero × Float64)
pick_hero proficiency [] = err unknown_role
pick_hero [] (h ∷ hs) = ok (h, float 50)
pick_hero (p ∷ ps) (h ∷ hs) = ok (best_of (p ∷ ps) h (lookup_or (float 0) h.id (p ∷ ps)) hs)

unfoldable pub best_for_role : Map Text Float64 → Text → Result (Hero × Float64)
unfolding candidates pick_hero best_of
best_for_role proficiency role = pick_hero proficiency (candidates (lower_trim role))

-- A hero is found by any spelling of its ID.
pub get-lower_trim : (id : Text) → get (lower_trim id) ≡ get id
unfolding get
get-lower_trim id = rw (lower_trim_idem id)
