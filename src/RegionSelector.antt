-- ===== src/RegionSelector.antt =====
-- internal/matchmaking/application/region_selector.go: the region whose servers suit both teams best, over the
-- local allocator.
pub mod Free
pub mod Selected
use match_mind.Allocator.{LocalAllocator, RegionCapacity, capacities_of}
use match_mind.Base.{
  Bool, Context, List, Map, Option, Result, [], err, if◌then◌else◌, insert, length, lookup,
  lookup_or, map, nat_beq, no_server_capacity, no_suitable_server_region, none, not, ok, or_fail,
  reject_if, some, sort_stable, ◌&&◌, ◌++◌, ◌>>=◌, ◌>>◌, ◌||◌, ◌∷◌,
}
use match_mind.Base.Int.{int_beq, leb_ℤ, ltb_ℤ, pos, ℤ, int_add}
use match_mind.Clock.{Time}
use match_mind.Engine.Beam.{Calls, SearchResult, optimize_teams, tiny}
use match_mind.Engine.Candidates.{CandidateResult}
use match_mind.Engine.Teams.{AssignedPlayer}
use match_mind.Float64.{
  Float64, float, float_abs, float_add, float_div, float_lt, float_mul, float_of, float_ratio,
  float_sub,
}
use match_mind.Policy.{MatchPolicy}
use match_mind.Text.{Text, is_empty, lower_trim, text_lt, text_eq}

pub record RegionSelection : Type 0 where
  pub region : Text
  pub available_servers : ℤ
  pub average_latency_ms : Float64
  pub max_latency_ms : ℤ
  pub team_average_difference_ms : Float64
  pub latency_standard_deviation : Float64
  pub score : Float64
  pub search : SearchResult

-- The loop of `normalizeCapacities`: the free servers of one region add up.
unfoldable pub add_capacities : Map Text ℤ → List RegionCapacity → Map Text ℤ
add_capacities combined [] = combined
add_capacities combined (c ∷ cs) =
    let region = lower_trim c.region in
    add_capacities
      (if not (is_empty region) && ltb_ℤ (pos 0) c.available_servers
        then insert region (int_add (lookup_or (pos 0) region combined) c.available_servers)
            combined
        else combined)
      cs

unfoldable pub as_capacities : Map Text ℤ → List RegionCapacity
as_capacities [] = []
as_capacities ((region, available) ∷ rest) =
    record { region = region; available_servers = available } ∷ as_capacities rest

unfoldable pub normalize_capacities : List RegionCapacity → List RegionCapacity
normalize_capacities capacities =
    sort_stable (λ c d. text_lt c.region d.region) (as_capacities (add_capacities [] capacities))

-- The latencies of the players of a team in the region, unless one is missing or above a limit.
unfoldable pub team_latencies : Text → ℤ → ℤ → List AssignedPlayer → Option (List ℤ)
team_latencies region admissible hard [] = some []
team_latencies region admissible hard (p ∷ ps) = elim (lookup region p.ticket.region_latency) [
  | none ↦ none
  | some latency ↦
      if ltb_ℤ admissible latency || ltb_ℤ hard latency
      then none
      else elim (team_latencies region admissible hard ps) [
        | none ↦ none
        | some rest ↦ some (latency ∷ rest)
      ]
]

unfoldable pub sum_floats : Float64 → List Float64 → Float64
sum_floats total [] = total
sum_floats total (x ∷ xs) = sum_floats (float_add total x) xs

unfoldable pub mean : List Float64 → Float64
mean [] = float 0
mean (x ∷ xs) = float_div (sum_floats (float 0) (x ∷ xs)) (float (length (x ∷ xs)))

unfoldable pub bounded_score : Float64 → Float64
bounded_score v =
    if float_lt v (float 0) then float 0 else if float_lt (float 100) v then float 100 else v

unfoldable pub highest_latency : ℤ → List ℤ → ℤ
highest_latency maximum [] = maximum
highest_latency maximum (x ∷ xs) = highest_latency (if ltb_ℤ maximum x then x else maximum) xs

unfoldable pub sum_deviations : Float64 → Float64 → List Float64 → Float64
sum_deviations average variance [] = variance
sum_deviations average variance (x ∷ xs) =
    let difference = float_sub x average in
    sum_deviations average (float_add variance (float_mul difference difference)) xs

abbrev pub max_ℤ : ℤ → ℤ → ℤ
max_ℤ a b = if ltb_ℤ a b then b else a

-- `boundedScore(100 - value/denominator*100)`
unfoldable pub share_score : Float64 → Float64 → Float64
share_score value denominator =
    bounded_score (float_sub (float 100) (float_mul (float_div value denominator) (float 100)))

-- The score of a region from the latencies of the two teams.
unfoldable pub region_score : ℤ → ℤ → ℤ → Float64 → Float64 → Float64 → Float64 → Float64
region_score available max_available hard average maximum team_difference deviation =
    let denominator = float_of (max_ℤ (pos 1) hard) in
    let capacity_score =
      float_div (float_mul (float 100) (float_of available))
        (float_of (max_ℤ (pos 1) max_available)) in
    float_add
      (float_add
        (float_add
          (float_add (float_mul (share_score average denominator) (float_ratio 35 100))
            (float_mul (share_score maximum denominator) (float_ratio 25 100)))
          (float_mul (share_score team_difference denominator) (float_ratio 15 100)))
        (float_mul (share_score deviation denominator) (float_ratio 15 100)))
      (float_mul (bounded_score capacity_score) (float_ratio 10 100))

unfoldable pub selection_of :
    Calls → SearchResult → RegionCapacity → ℤ → ℤ → List ℤ → List ℤ → RegionSelection
selection_of calls search capacity max_available hard latencies_a latencies_b =
    let floats_a = map float_of latencies_a in
    let floats_b = map float_of latencies_b in
    let all = floats_a ++ floats_b in
    let average = mean all in
    let maximum = highest_latency (pos 0) (latencies_a ++ latencies_b) in
    let deviation =
      calls.sqrt (float_div (sum_deviations average (float 0) all) (float (length all))) in
    let team_difference = float_abs (float_sub (mean floats_a) (mean floats_b)) in
    record {
      region = capacity.region;
      available_servers = capacity.available_servers;
      average_latency_ms = average;
      max_latency_ms = maximum;
      team_average_difference_ms = team_difference;
      latency_standard_deviation = deviation;
      score =
          region_score capacity.available_servers max_available hard average (float_of maximum)
            team_difference deviation;
      search = search;
    }

unfoldable pub score_server_region :
    Calls → SearchResult → RegionCapacity → ℤ → ℤ → ℤ → Option RegionSelection
score_server_region calls search capacity max_available admissible hard =
    elim (team_latencies capacity.region admissible hard search.formation.side_a.players) [
      | none ↦ none
      | some a ↦
          elim (team_latencies capacity.region admissible hard search.formation.side_b.players) [
            | none ↦ none
            | some b ↦ some (selection_of calls search capacity max_available hard a b)
          ]
    ]

unfoldable pub better_region_selection : RegionSelection → RegionSelection → Bool
better_region_selection candidate current =
    if float_lt tiny (float_abs (float_sub candidate.score current.score))
    then float_lt current.score candidate.score
    else if float_lt tiny (
        float_abs
          (float_sub candidate.search.quality.total_score current.search.quality.total_score))
    then float_lt current.search.quality.total_score candidate.search.quality.total_score
    else if not (int_beq candidate.available_servers current.available_servers)
    then ltb_ℤ current.available_servers candidate.available_servers
    else text_lt candidate.region current.region

unfoldable pub max_available_of : ℤ → List RegionCapacity → ℤ
max_available_of most [] = most
max_available_of most (c ∷ cs) =
    max_available_of (if ltb_ℤ most c.available_servers then c.available_servers else most) cs

-- A turn of the loop over the regions: what the region offers.
unfoldable pub region_offer :
    Calls → CandidateResult → Time → MatchPolicy → ℤ → RegionCapacity → Option RegionSelection
region_offer calls candidates now policy max_available capacity =
    if leb_ℤ capacity.available_servers (pos 0)
    then none
    else elim (optimize_teams calls candidates capacity.region now policy) [
      | err e ↦ none
      | ok search ↦
          score_server_region calls search capacity max_available candidates.admissible_latency_ms
            policy.max_latency_ms
    ]

unfoldable pub better_of : Option RegionSelection → RegionSelection → RegionSelection
better_of none candidate = candidate
better_of (some best) candidate = if better_region_selection candidate best then candidate else best

unfoldable pub best_region_offer :
    Calls
    → CandidateResult
    → Time
    → MatchPolicy
    → ℤ
    → Option RegionSelection
    → List RegionCapacity
    → Option RegionSelection
best_region_offer calls candidates now policy max_available best [] = best
best_region_offer calls candidates now policy max_available best (c ∷ cs) =
    best_region_offer calls candidates now policy max_available
      (elim (region_offer calls candidates now policy max_available c) [
        | none ↦ best
        | some offer ↦ some (better_of best offer)
      ])
      cs

unfoldable pub select_server_region :
    Context → Calls → LocalAllocator → CandidateResult → Time → MatchPolicy → Result RegionSelection
select_server_region ctx calls servers candidates now policy = do
  capacities ← capacities_of ctx servers
  let normalized = normalize_capacities capacities
  reject_if (nat_beq (length normalized) 0) no_server_capacity
  or_fail
      (best_region_offer calls candidates now policy (max_available_of (pos 0) normalized) none
        normalized)
      no_suitable_server_region
