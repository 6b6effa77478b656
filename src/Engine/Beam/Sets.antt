-- ===== src/Engine/Beam/Sets.antt =====
-- engine/beam.go: the beam search over sets of groups (`beamCandidateSets`).
use match_mind.Base.{
  nat_eq, Bool, List, Result, [], contains, err, if◌then◌else◌, insufficient_players, keep, leb,
  length, ltb, map, nat_beq, no_valid_team_split, ok, or_fail, reject_if, sort_stable, suc, take, ℕ,
  ◌*◌, ◌++◌, ◌+◌, ◌>>=◌, ◌>>◌, ◌∷◌,
}
use match_mind.Base.Int.{pos, pos_part, ℤ, ◌-ℤ◌}
use match_mind.Engine.{
  TicketGroup, flatten_groups, group_tickets, move_anchor_group_first, ticket_before,
}
use match_mind.Engine.Candidates.{CandidateResult}
use match_mind.Engine.Quality.{Quality, Scoring}
use match_mind.Engine.Teams.{TeamFormation, group_player_count, join, sum_ratings, team_size_of}
use match_mind.Float64.{
  Float64, float, float_abs, float_add, float_div, float_lt, float_mul, float_of, float_ratio,
  float_sub, truncate,
}
use match_mind.Policy.{MatchPolicy, TeamAlgorithm}
use match_mind.Text.{Text, text_lt, text_eq}
use match_mind.Ticket.{role_eq, MatchTicket, Role}

pub record TeamSearchDiagnostics : Type 0 where
  pub algorithm : TeamAlgorithm
  pub beam_width : ℤ
  pub candidate_sets : ℕ
  pub formations_evaluated : ℕ

-- What `OptimizeTeams` returns beside the error; the duration is left out.
pub record SearchResult : Type 0 where
  pub formation : TeamFormation
  pub quality : Quality
  pub diagnostics : TeamSearchDiagnostics

-- The code outside the repository that the search calls.
pub record Calls : Type 0 where
  pub scoring : Scoring
  pub sqrt : Float64 → Float64

pub record SubsetState : Type 0 where
  pub groups : List TicketGroup
  pub players : ℕ
  pub age_cost : ℕ
  pub score : Float64
  pub signature : Text

unfoldable pub subset_signature : List TicketGroup → Text
subset_signature groups =
    join (0 ∷ []) (sort_stable text_lt (map (λ t. t.id) (flatten_groups groups)))

unfoldable pub add_roles : List Role → List Role → List Role
add_roles covered [] = covered
add_roles covered (r ∷ rs) = add_roles (if contains r covered then covered else r ∷ covered) rs

unfoldable pub role_coverage : List Role → List MatchTicket → List Role
role_coverage covered [] = covered
role_coverage covered (t ∷ ts) = role_coverage (add_roles covered t.preferred_roles) ts

unfoldable pub sum_squares : Float64 → Float64 → List MatchTicket → Float64
sum_squares average sum [] = sum
sum_squares average sum (t ∷ ts) =
    let difference = float_sub t.rating average in
    sum_squares average (float_add sum (float_mul difference difference)) ts

-- `int(math.Round(x))` for an `x` that is not negative.
abbrev pub round : Float64 → ℕ
round x = pos_part (truncate (float_add x (float_ratio 1 2)))

abbrev pub max_ℕ : ℕ → ℕ → ℕ
max_ℕ a b = if leb a b then b else a

unfoldable pub first_size : List TicketGroup → ℕ
first_size [] = 0
first_size (g ∷ gs) = length g.tickets

unfoldable pub subset_heuristic : Calls → List TicketGroup → ℕ → ℕ → ℕ → ℕ → ℕ → Float64
subset_heuristic calls groups players age_cost processed total_groups target =
    let tickets = flatten_groups groups in
    let number = float (max_ℕ 1 (length tickets)) in
    let average = float_div (sum_ratings (float 0) tickets) number in
    let variance = calls.sqrt (float_div (sum_squares average (float 0) tickets) number) in
    let expected =
      max_ℕ (round (float_mul (float_div (float processed) (float total_groups)) (float target)))
        (first_size groups) in
    let fill_penalty = float_mul (float_abs (float_of (pos players -ℤ pos expected))) (float 30) in
    float_sub
      (float_sub
        (float_sub (float_mul (float (length (role_coverage [] tickets))) (float 150))
          (float_mul variance (float_ratio 35 100)))
        (float_mul (float age_cost) (float_ratio 2 10)))
      fill_penalty

-- The state of some groups after `processed` of them.
unfoldable pub subset_of : Calls → ℕ → ℕ → ℕ → List TicketGroup → ℕ → ℕ → SubsetState
subset_of calls target total_groups processed groups players age_cost = record {
  groups = groups;
  players = players;
  age_cost = age_cost;
  score = subset_heuristic calls groups players age_cost processed total_groups target;
  signature = subset_signature groups;
}

-- The state without the group, if the groups that remain may still fill the teams.
unfoldable pub skip_group : Calls → ℕ → ℕ → ℕ → ℕ → SubsetState → List SubsetState
skip_group calls target total_groups index remaining s =
    if leb target (s.players + remaining)
    then subset_of calls target total_groups (suc index) s.groups s.players s.age_cost ∷ []
    else []

-- The state with the group, if there is room for it.
unfoldable pub take_group : Calls → ℕ → ℕ → ℕ → TicketGroup → SubsetState → List SubsetState
take_group calls target total_groups index g s =
    if leb (s.players + length g.tickets) target
    then subset_of calls target total_groups (suc index) (s.groups ++ (g ∷ []))
        (s.players + length g.tickets) (s.age_cost + index * length g.tickets)
      ∷ []
    else []

unfoldable pub branch : Calls → ℕ → ℕ → ℕ → ℕ → TicketGroup → List SubsetState → List SubsetState
branch calls target total_groups index remaining g [] = []
branch calls target total_groups index remaining g (s ∷ ss) =
    skip_group calls target total_groups index remaining s
    ++ (take_group calls target total_groups index g s
        ++ branch calls target total_groups index remaining g ss)

abbrev pub tiny : Float64
tiny = float_ratio 1 1000000000

unfoldable pub subset_before : SubsetState → SubsetState → Bool
subset_before s t =
    if float_lt tiny (float_abs (float_sub s.score t.score))
    then float_lt t.score s.score
    else text_lt s.signature t.signature

-- The loop over the groups; the width of a valid policy is positive.
unfoldable pub search_beam :
    Calls → ℕ → ℕ → ℕ → ℕ → List TicketGroup → List SubsetState → Result (List SubsetState)
search_beam calls width target total_groups index [] states = ok states
search_beam calls width target total_groups index (g ∷ gs) states =
    let next = branch calls target total_groups index (group_player_count gs) g states in
    let rest =
      search_beam calls width target total_groups (suc index) gs
        (take width (sort_stable subset_before next)) in
    if nat_beq (length next) 0 then err insufficient_players else rest

unfoldable pub beam_from : Calls → ℕ → ℕ → List TicketGroup → Result (List SubsetState)
beam_from calls width size [] = err no_valid_team_split
beam_from calls width size (g ∷ gs) = do
  reject_if (ltb size (length g.tickets)) no_valid_team_split
  found ←
      search_beam calls width (size * 2) (suc (length gs)) 1 gs
        (subset_of calls (size * 2) (suc (length gs)) 1 (g ∷ []) (length g.tickets) 0 ∷ [])
  let full = keep (λ s. nat_beq s.players (size * 2)) found
  reject_if (nat_beq (length full) 0) insufficient_players
  ok full

unfoldable pub beam_candidate_sets :
    Calls → CandidateResult → MatchPolicy → Result (List SubsetState)
beam_candidate_sets calls candidates policy = do
  let size = team_size_of policy
  reject_if (ltb (length candidates.tickets) (size * 2)) insufficient_players
  anchor ← or_fail candidates.anchor insufficient_players
  beam_from calls (pos_part policy.beam_width) size (
      move_anchor_group_first (group_tickets (sort_stable ticket_before candidates.tickets)) anchor)
