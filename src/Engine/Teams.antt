-- ===== src/Engine/Teams.antt =====
-- engine/team.go: two teams of five from the candidates, by the greedy algorithm.
pub mod Roles
pub mod Splitting
use match_mind.Base.{
  nat_eq, Bool, List, Map, Option, Result, [], err, if◌then◌else◌, insert, insufficient_players,
  is_some, leb, length, lookup, ltb, map, nat_beq, no_valid_team_split, none, or_fail, reject_if,
  some, sort_stable, suc, zero, ℕ, ◌%◌, ◌&&◌, ◌++◌, ◌+◌, ◌-◌, ◌/◌, ◌==◌, ◌>>=◌, ◌>>◌, ◌^◌, ◌||◌,
  ◌∷◌, nil_dereference, not, ok, ◌*◌,
}
use match_mind.Base.Int.{pos_part}
use match_mind.Clock.{Time, sub_time}
use match_mind.Engine.{TicketGroup, flatten_groups, group_tickets, has_ticket, ticket_before}
use match_mind.Engine.Candidates.{CandidateResult}
use match_mind.Float64.{
  Float64, float, float_abs, float_add, float_eq, float_lt, float_sub, pos_inf, float_neg,
  float_over,
}
use match_mind.MatchStore.{selected}
use match_mind.Policy.{MatchPolicy, validate}
use match_mind.Policy.Limits.{non_preferred_role_score}
use match_mind.Text.{Text, is_empty, text_lt, text_eq}
use match_mind.Ticket.{core, support, role_eq, MatchTicket, Role, ranged, roamer, vanguard}

abbrev pub canonical_roles : List Role
canonical_roles = vanguard ∷ roamer ∷ core ∷ ranged ∷ support ∷ []

pub record AssignedPlayer : Type 0 where
  pub ticket : MatchTicket
  pub role : Role
  pub preference_score : Float64

pub record Team : Type 0 where
  pub players : List AssignedPlayer
  pub average_rating : Float64
  pub role_score : Float64

pub record TeamFormation : Type 0 where
  pub side_a : Team
  pub side_b : Team

-- The position of the last group that has the ticket.
unfoldable pub anchor_index : Text → ℕ → Option ℕ → List TicketGroup → Option ℕ
anchor_index id index found [] = found
anchor_index id index found (g ∷ gs) =
    anchor_index id (suc index) (if has_ticket id g.tickets then some index else found) gs

-- `groups[0], groups[i] = groups[i], groups[0]`
unfoldable pub put_at {ℓ} : {A : Type ℓ} → ℕ → A → List A → Option (A × List A)
put_at n x [] = none
put_at zero x (y ∷ ys) = some (y, x ∷ ys)
put_at (suc n) x (y ∷ ys) = elim (put_at n x ys) [
  | none ↦ none
  | some (found, rest) ↦ some (found, y ∷ rest)
]

unfoldable pub swap_first {ℓ} : {A : Type ℓ} → ℕ → List A → List A
swap_first zero xs = xs
swap_first (suc n) [] = []
swap_first (suc n) (x ∷ xs) = elim (put_at n x xs) [ none ↦ x ∷ xs | some (y, rest) ↦ y ∷ rest ]

-- The combinations by their number of players. A combination holds the groups themselves, where the source
-- holds their indexes.
abbrev pub Combinations : Type 0
Combinations = Map ℕ (List TicketGroup)

unfoldable pub extend_size : TicketGroup → ℕ → Combinations → Combinations
extend_size g size combinations = elim (lookup size combinations) [
  | none ↦ combinations
  | some chosen ↦
      if is_some (lookup (size + length g.tickets) combinations)
      then combinations
      else insert (size + length g.tickets) (chosen ++ (g ∷ [])) combinations
]

-- The loop over the sizes below `bound`, from the largest to 0.
unfoldable pub extend_sizes : TicketGroup → ℕ → Combinations → Combinations
extend_sizes g zero combinations = combinations
extend_sizes g (suc size) combinations = extend_sizes g size (extend_size g size combinations)

unfoldable pub combine : ℕ → List TicketGroup → Combinations → Combinations
combine target [] combinations = combinations
combine target (g ∷ gs) combinations =
    combine target gs (extend_sizes g (suc target - length g.tickets) combinations)

unfoldable pub select_combination : ℕ → List TicketGroup → Result (List TicketGroup)
select_combination target [] = err no_valid_team_split
select_combination target (g ∷ gs) = do
  reject_if (ltb target (length g.tickets)) no_valid_team_split
  or_fail (lookup target (combine target gs ((length g.tickets, g ∷ []) ∷ []))) insufficient_players

unfoldable pub select_ten_players : List MatchTicket → Text → ℕ → Result (List TicketGroup)
select_ten_players candidates anchor_id target = do
  let groups = group_tickets (sort_stable ticket_before candidates)
  index ← or_fail (anchor_index anchor_id 0 none groups) no_valid_team_split
  select_combination target (swap_first index groups)

-- The groups whose bit is set in the mask, and the others.
unfoldable pub split_by : ℕ → List TicketGroup → List TicketGroup × List TicketGroup
split_by mask [] = ([], [])
split_by mask (g ∷ gs) =
    let (a, b) = split_by (mask / 2) gs in if nat_beq (mask % 2) 1 then (g ∷ a, b) else (a, g ∷ b)

unfoldable pub group_player_count : List TicketGroup → ℕ
group_player_count [] = 0
group_player_count (g ∷ gs) = length g.tickets + group_player_count gs

unfoldable pub sum_ratings : Float64 → List MatchTicket → Float64
sum_ratings total [] = total
sum_ratings total (t ∷ ts) = sum_ratings (float_add total t.rating) ts

unfoldable pub group_rating_total : List TicketGroup → Float64
group_rating_total groups = sum_ratings (float 0) (flatten_groups groups)

-- `strings.Join(texts, separator)`
unfoldable pub join : Text → List Text → Text
join separator [] = []
join separator (t ∷ []) = t
join separator (t ∷ u ∷ ts) = t ++ (separator ++ join separator (u ∷ ts))

unfoldable pub team_signature : List TicketGroup → Text
team_signature groups =
    join (0 ∷ []) (sort_stable text_lt (map (λ t. t.player_id) (flatten_groups groups)))

-- The best split so far.
pub record BestSplit : Type 0 where
  pub teams : Option (List TicketGroup × List TicketGroup)
  pub difference : Float64
  pub signature : Text

abbrev pub no_split : BestSplit
no_split = record { teams = none; difference = pos_inf; signature = [] }

unfoldable pub rating_difference : List TicketGroup × List TicketGroup → Float64
rating_difference (a, b) = float_abs (float_sub (group_rating_total a) (group_rating_total b))

-- Does the mask put the first group into the first team, and `size` players into each team?
unfoldable pub fits_mask : ℕ → List TicketGroup → ℕ → Bool
fits_mask size groups mask =
    nat_beq (mask % 2) 1
    && nat_beq (group_player_count (split_by mask groups).0) size
    && nat_beq (group_player_count (split_by mask groups).1) size

unfoldable pub is_better : BestSplit → Float64 → Text → Bool
is_better best difference signature =
    float_lt difference best.difference
    || (float_eq difference best.difference
        && (is_empty best.signature || text_lt signature best.signature))

unfoldable pub try_mask : ℕ → List TicketGroup → BestSplit → ℕ → BestSplit
try_mask size groups best mask =
    let teams = split_by mask groups in
    if fits_mask size groups mask
      && is_better best (rating_difference teams) (team_signature teams.0)
    then record {
      teams = some teams;
      difference = rating_difference teams;
      signature = team_signature teams.0;
    }
    else best

-- The loop over the masks: `count` of them, from `mask` on.
unfoldable pub try_masks : ℕ → List TicketGroup → BestSplit → ℕ → ℕ → BestSplit
try_masks size groups best mask zero = best
try_masks size groups best mask (suc count) =
    try_masks size groups (try_mask size groups best mask) (suc mask) count

unfoldable pub balanced_partition :
    List TicketGroup → ℕ → Result (List TicketGroup × List TicketGroup)
balanced_partition groups size = do
  reject_if (nat_beq (length groups) 0 || leb 63 (length groups)) no_valid_team_split
  or_fail (try_masks size groups no_split 1 (2 ^ length groups - 1)).teams no_valid_team_split

-- The elements in turn, from position `k` on, each with the list that is left behind it by the swap.
unfoldable pub choices {ℓ} : {A : Type ℓ} → ℕ → ℕ → List A → List (A × List A)
choices zero k xs = []
choices (suc count) k xs = elim (swap_first k xs) [
  | [] ↦ []
  | y ∷ ys ↦ (y, ys) ∷ choices count (suc k) xs
]

unfoldable pub all_with {ℓ} :
    {A : Type ℓ} → (List A → List (List A)) → List (A × List A) → List (List A)
all_with rest [] = []
all_with rest ((x, xs) ∷ cs) = map (λ ys. x ∷ ys) (rest xs) ++ all_with rest cs

-- The permutations of `permuteRoles`, in the order of its visits; `n` is the number of elements.
unfoldable pub permutations {ℓ} : {A : Type ℓ} → ℕ → List A → List (List A)
permutations zero xs = xs ∷ []
permutations (suc n) xs = all_with (permutations n) (choices (length xs) 0 xs)

unfoldable pub role_index : Role → ℕ → List Role → Option ℕ
role_index r n [] = none
role_index r n (p ∷ ps) = if p == r then some n else role_index r (suc n) ps

unfoldable pub role_preference_score : MatchTicket → Role → Time → MatchPolicy → Float64
role_preference_score t assigned now policy = elim (role_index assigned 0 t.preferred_roles) [
  | some zero ↦ float 100
  | some (suc zero) ↦ float 70
  | some (suc (suc n)) ↦ float 50
  | none ↦ non_preferred_role_score policy (sub_time now t.created_at)
]

-- The sum of the scores of the tickets for the roles in their order.
unfoldable pub roles_score : Time → MatchPolicy → Float64 → List MatchTicket → List Role → Float64
roles_score now policy score [] rs = score
roles_score now policy score (t ∷ ts) [] = score
roles_score now policy score (t ∷ ts) (r ∷ rs) =
    roles_score now policy (float_add score (role_preference_score t r now policy)) ts rs

-- The loop over the visits: the first roles of the highest score.
unfoldable pub best_roles :
    Time
    → MatchPolicy
    → List MatchTicket
    → Float64
    → Option (List Role)
    → List (List Role)
    → Option (List Role)
best_roles now policy ts best_score best [] = best
best_roles now policy ts best_score best (rs ∷ rss) =
    let score = roles_score now policy (float 0) ts rs in
    if float_lt best_score score
    then best_roles now policy ts score (some rs) rss
    else best_roles now policy ts best_score best rss

unfoldable pub assign_players :
    Time → MatchPolicy → List MatchTicket → List Role → List AssignedPlayer
assign_players now policy [] rs = []
assign_players now policy (t ∷ ts) [] = []
assign_players now policy (t ∷ ts) (r ∷ rs) =
    record { ticket = t; role = r; preference_score = role_preference_score t r now policy }
    ∷ assign_players now policy ts rs

unfoldable pub sum_scores : Float64 → List AssignedPlayer → Float64
sum_scores total [] = total
sum_scores total (p ∷ ps) = sum_scores (float_add total p.preference_score) ps

-- The team of some tickets in their order, with the roles in theirs.
unfoldable pub team_with : List MatchTicket → List Role → ℕ → Time → MatchPolicy → Team
team_with ordered rs size now policy =
    let players = assign_players now policy ordered rs in
    record {
      players = players;
      average_rating = float_over (sum_ratings (float 0) ordered) size;
      role_score = float_over (sum_scores (float 0) players) size;
    }

-- `bestRoles` is nil where no permutation scores above -1; indexing it panics.
unfoldable pub build_assigned_team : List MatchTicket → ℕ → Time → MatchPolicy → Result Team
build_assigned_team tickets size now policy = do
  reject_if (not (nat_beq (length tickets) size) || not (nat_beq size (length canonical_roles)))
      no_valid_team_split
  let ordered = sort_stable (λ t u. text_lt t.player_id u.player_id) tickets
  rs ←
      or_fail
        (best_roles now policy ordered (float_neg (float 1)) none (permutations 5 canonical_roles))
        nil_dereference
  ok (team_with ordered rs size now policy)

-- `2 * policy.TeamSize` and the team size of a valid policy are positive.
abbrev pub team_size_of : MatchPolicy → ℕ
team_size_of policy = pos_part policy.team_size

unfoldable pub form_teams_greedy : CandidateResult → MatchPolicy → Time → Result TeamFormation
form_teams_greedy candidates policy now = do
  validate policy
  let size = team_size_of policy
  reject_if (ltb (length candidates.tickets) (size * 2)) insufficient_players
  anchor ← or_fail candidates.anchor insufficient_players
  groups ← select_ten_players candidates.tickets anchor.id (size * 2)
  (groups_a, groups_b) ← balanced_partition groups size
  side_a ← build_assigned_team (flatten_groups groups_a) size now policy
  side_b ← build_assigned_team (flatten_groups groups_b) size now policy
  ok (record { side_a = side_a; side_b = side_b })
