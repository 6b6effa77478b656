-- ===== src/Engine/Teams/Roles.antt =====
-- The roles of a team.
use match_mind.Base.{
  All, All-append, Bool, Bool-cases, List, Option, Option-cases, [], ap, arith, count, inl, inr,
  insert_sorted, length, map, none, ok, refl, some, sort_stable, subst, suc, sym, zero, ℕ, ◌∙◌, ◌∷◌,
  ◌≡◌, true,
}
use match_mind.Clock.{Time}
use match_mind.Engine.Teams.{
  Team, all_with, assign_players, best_roles, build_assigned_team, canonical_roles, choices,
  permutations, put_at, roles_score, swap_first, team_with,
}
use match_mind.Float64.{Float64, float, float_lt, float_neg}
use match_mind.Policy.{MatchPolicy}
use match_mind.Text.{text_lt, text_eq}
use match_mind.Ticket.{role_eq, MatchTicket, Role}

-- A list with the same number of each role, and of the same length.
abbrev pub SameRoles : List Role → List Role → Type 0
SameRoles xs ys = (length ys ≡ length xs) × ((r : Role) → count r ys ≡ count r xs)

put_at-SameRoles :
    (n : ℕ) (x y : Role) (xs ys : List Role)
    → put_at n x xs ≡ some (y, ys)
    → SameRoles (x ∷ xs) (y ∷ ys)
unfolding put_at count
put_at-SameRoles n x y [] ys h = absurd (ground arith)
put_at-SameRoles zero x y (z ∷ xs) ys h =
    let e : z ≡ y = ground arith in
    let e' : x ∷ xs ≡ ys = ground arith in
    subst (λ w. SameRoles (x ∷ z ∷ xs) (w ∷ ys)) e
      (subst (λ ws. SameRoles (x ∷ z ∷ xs) (z ∷ ws)) e' (refl, λ r. ground arith))
put_at-SameRoles (suc n) x y (z ∷ xs) ys h = elim (Option-cases (put_at n x xs)) [
  | inl missing ↦ absurd (ground arith)
  | inr ((w, ws), deeper) ↦
      let (same, counts) = put_at-SameRoles n x w xs ws deeper in
      let e : w ≡ y = ground arith in
      let e' : z ∷ ws ≡ ys = ground arith in
      subst (λ v. SameRoles (x ∷ z ∷ xs) (v ∷ ys)) e
        (subst (λ vs. SameRoles (x ∷ z ∷ xs) (w ∷ vs)) e'
          (omega (arith, same), λ r. ground (arith, counts r)))
]

swap_first-SameRoles : (n : ℕ) (xs : List Role) → SameRoles xs (swap_first n xs)
unfolding swap_first
swap_first-SameRoles zero xs = (refl, λ r. refl)
swap_first-SameRoles (suc n) [] = (refl, λ r. refl)
swap_first-SameRoles (suc n) (x ∷ xs) = elim (Option-cases (put_at n x xs)) [
  | inl missing ↦ rw (missing, swap_first) (refl, λ r. refl)
  | inr ((y, ys), found) ↦ rw (found, swap_first) (put_at-SameRoles n x y xs ys found)
]

choices-SameRoles :
    (n k : ℕ) (xs : List Role) → All (λ c. SameRoles xs (c.0 ∷ c.1)) (choices n k xs)
unfolding choices
choices-SameRoles zero k xs = tt
choices-SameRoles (suc n) k xs = go (swap_first k xs) refl (choices-SameRoles n (suc k) xs)
  where
    go :
        (ys : List Role)
        → swap_first k xs ≡ ys
        → All (λ c. SameRoles xs (c.0 ∷ c.1)) (choices n (suc k) xs)
        → All (λ c. SameRoles xs (c.0 ∷ c.1)) (choices (suc n) k xs)
    go [] e rest = rw (e, choices, All) tt
    go (y ∷ ys) e rest =
        rw (e, choices, All) (subst (SameRoles xs) e (swap_first-SameRoles k xs), rest)

prefixed :
    (xs : List Role) (x : Role) (ys : List Role) (yss : List (List Role))
    → SameRoles xs (x ∷ ys)
    → All (SameRoles ys) yss
    → All (SameRoles xs) (map (λ zs. x ∷ zs) yss)
unfolding count
prefixed xs x ys [] same all = tt
prefixed xs x ys (zs ∷ zss) same (first, all) = (
  (omega (arith, same.0, first.0), λ r. ground (arith, same.1 r, first.1 r)),
  prefixed xs x ys zss same all,
)

all_with-SameRoles :
    (xs : List Role) (rest : List Role → List (List Role)) (cs : List (Role × List Role))
    → ((ys : List Role) → All (SameRoles ys) (rest ys))
    → All (λ c. SameRoles xs (c.0 ∷ c.1)) cs
    → All (SameRoles xs) (all_with rest cs)
unfolding all_with
all_with-SameRoles xs rest [] deeper all = tt
all_with-SameRoles xs rest ((x, ys) ∷ cs) deeper (first, all) =
    All-append (SameRoles xs) (map (λ zs. x ∷ zs) (rest ys)) (all_with rest cs)
      (prefixed xs x ys (rest ys) first (deeper ys)) (all_with-SameRoles xs rest cs deeper all)

permutations-SameRoles : (n : ℕ) (xs : List Role) → All (SameRoles xs) (permutations n xs)
unfolding permutations
permutations-SameRoles zero xs = ((refl, λ r. refl), tt)
permutations-SameRoles (suc n) xs =
    all_with-SameRoles xs (permutations n) (choices (length xs) 0 xs) (permutations-SameRoles n)
      (choices-SameRoles (length xs) 0 xs)

best_roles-All :
    (now : Time) (policy : MatchPolicy) (ts : List MatchTicket) (score : Float64)
    (best : Option (List Role)) (rss : List (List Role)) (rs : List Role)
    → ((bs : List Role) → best ≡ some bs → SameRoles canonical_roles bs)
    → All (SameRoles canonical_roles) rss
    → best_roles now policy ts score best rss ≡ some rs
    → SameRoles canonical_roles rs
unfolding best_roles
best_roles-All now policy ts score best [] rs start all h = start rs h
best_roles-All now policy ts score best (qs ∷ qss) rs start (first, all) h =
    let next = roles_score now policy (float 0) ts qs in
    elim (Bool-cases (float_lt score next)) [
      | inl higher ↦
          best_roles-All now policy ts next (some qs) qss rs
            (λ bs e. subst (SameRoles canonical_roles) (ground arith) first) all (ground arith)
      | inr other ↦ best_roles-All now policy ts score best qss rs start all (ground arith)
    ]

assign_players_lem :
    (now : Time) (policy : MatchPolicy) (ts : List MatchTicket) (rs : List Role)
    → length ts ≡ length rs
    → (map (λ p. p.ticket) (assign_players now policy ts rs) ≡ ts)
      × (map (λ p. p.role) (assign_players now policy ts rs) ≡ rs)
unfolding assign_players
assign_players_lem now policy [] [] h = (refl, refl)
assign_players_lem now policy [] (r ∷ rs) h = absurd (omega (arith, h))
assign_players_lem now policy (t ∷ ts) [] h = absurd (omega (arith, h))
assign_players_lem now policy (t ∷ ts) (r ∷ rs) h =
    let (tickets, roles) = assign_players_lem now policy ts rs (omega (arith, h)) in
    (ap (λ us. t ∷ us) tickets, ap (λ qs. r ∷ qs) roles)

-- The order of `buildAssignedTeam`.
abbrev pub by_player : List MatchTicket → List MatchTicket
by_player = sort_stable (λ t u. text_lt t.player_id u.player_id)

length-insert_sorted :
    {A : Type 0} (less : A → A → Bool) (x : A) (xs : List A)
    → length (insert_sorted less x xs) ≡ suc (length xs)
unfolding insert_sorted
length-insert_sorted less x [] = refl
length-insert_sorted less x (y ∷ ys) = ground (arith, length-insert_sorted less x ys)

pub length-sort_stable :
    {A : Type 0} (less : A → A → Bool) (xs : List A) → length (sort_stable less xs) ≡ length xs
unfolding sort_stable
length-sort_stable less [] = refl
length-sort_stable less (x ∷ xs) =
    omega (arith, length-insert_sorted less x (sort_stable less xs), length-sort_stable less xs)

-- When `buildAssignedTeam` succeeds, the players of the team are the given tickets in the order of the
-- player IDs, and each role is given as often as it stands in `canonicalRoles`.
pub build_assigned_team-roles :
    (tickets : List MatchTicket) (size : ℕ) (now : Time) (policy : MatchPolicy) (team : Team)
    → build_assigned_team tickets size now policy ≡ ok team
    → (map (λ p. p.ticket) team.players ≡ by_player tickets)
      × ((r : Role) → count r (map (λ p. p.role) team.players) ≡ count r canonical_roles)
unfolding build_assigned_team team_with
build_assigned_team-roles tickets size now policy team h =
    elim (Option-cases (
      best_roles now policy (by_player tickets) (float_neg (float 1)) none
        (permutations 5 canonical_roles))) [
          | inl missing ↦ absurd (ground arith)
          | inr (rs, found) ↦
              let (long, counts) =
                best_roles-All now policy (by_player tickets) (float_neg (float 1)) none
                  (permutations 5 canonical_roles) rs (λ bs e. absurd (ground arith))
                  (permutations-SameRoles 5 canonical_roles) found in
              let five : length tickets ≡ 5 = ground arith in
              let (kept, given) =
                assign_players_lem now policy (by_player tickets) rs
                  (length-sort_stable _ tickets ∙ five ∙ sym long) in
              let e : assign_players now policy (by_player tickets) rs ≡ team.players =
                ground arith in
              (
                ap (map (λ p. p.ticket)) (sym e) ∙ kept,
                λ r.
                    ap (λ ps. count r (map (λ p. p.role) ps)) (sym e)
                    ∙ ap (count r) given
                    ∙ counts r,
              )
        ]

best_roles-some :
    (now : Time) (policy : MatchPolicy) (ts : List MatchTicket) (score : Float64) (bs : List Role)
    (rss : List (List Role))
    → (rs : List Role) × (best_roles now policy ts score (some bs) rss ≡ some rs)
unfolding best_roles
best_roles-some now policy ts score bs [] = (bs, refl)
best_roles-some now policy ts score bs (qs ∷ qss) =
    let next = roles_score now policy (float 0) ts qs in
    elim (Bool-cases (float_lt score next)) [
      | inl higher ↦
          let (rs, found) = best_roles-some now policy ts next qs qss in (rs, rw higher found)
      | inr other ↦
          let (rs, found) = best_roles-some now policy ts score bs qss in (rs, rw other found)
    ]

-- The orders behind the first.
abbrev other_orders : List (List Role) → List (List Role)
other_orders [] = []
other_orders (rs ∷ rss) = rss

canonical_first :
    permutations 5 canonical_roles ≡ canonical_roles ∷ other_orders (permutations 5 canonical_roles)
unfolding permutations choices all_with swap_first put_at
canonical_first = refl

-- Five tickets get a team as soon as the canonical order of the roles scores above -1.
pub build_assigned_team_total :
    (tickets : List MatchTicket) (now : Time) (policy : MatchPolicy)
    → length tickets ≡ 5
    → float_lt
        (float_neg (float 1))
        (roles_score now policy (float 0) (by_player tickets) canonical_roles)
      ≡ true
    → (team : Team) × (build_assigned_team tickets 5 now policy ≡ ok team)
unfolding build_assigned_team best_roles
build_assigned_team_total tickets now policy five above =
    let ordered = by_player tickets in
    let first = roles_score now policy (float 0) ordered canonical_roles in
    let (rs, found) =
      best_roles-some now policy ordered first canonical_roles
        (other_orders (permutations 5 canonical_roles)) in
    let start : best_roles now policy ordered (float_neg (float 1)) none
          (canonical_roles ∷ other_orders (permutations 5 canonical_roles))
        ≡ some rs =
      rw above found in
    let whole : best_roles now policy ordered (float_neg (float 1)) none
          (permutations 5 canonical_roles)
        ≡ some rs =
      ap (best_roles now policy ordered (float_neg (float 1)) none) canonical_first ∙ start in
    (team_with ordered rs 5 now policy, rw (five, whole) refl)
