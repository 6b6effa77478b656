-- ===== src/Engine/Beam.antt =====
-- engine/beam.go: the best teams by a beam search over sets of groups, or by the greedy algorithm. The square
-- root is an argument, and so is what the search takes of time; the cache of teams only saves work, since a team
-- depends on its groups alone.
mod Sets
unfoldable pub use Sets.*
use match_mind.Base.{
  nat_eq, Bool, List, Option, Result, [], err, false, if◌then◌else◌, leb, length, map, nat_beq,
  no_valid_team_split, none, ok, reject_if, some, sort_stable, suc, true, zero, ℕ, ◌&&◌, ◌*◌, ◌++◌,
  ◌+◌, ◌-◌, ◌>>=◌, ◌>>◌, ◌^◌, ◌||◌, ◌∷◌,
}
use match_mind.Base.Int.{◌-ℤ◌}
use match_mind.Clock.{Time, after, zero_time}
use match_mind.Engine.{TicketGroup, flatten_groups}
use match_mind.Engine.Candidates.{CandidateResult}
use match_mind.Engine.Quality.{Quality, evaluate_quality}
use match_mind.Engine.Teams.{
  Team, TeamFormation, build_assigned_team, fits_mask, form_teams_greedy, join, split_by,
  team_size_of,
}
use match_mind.Float64.{Float64, float, float_abs, float_lt, float_sub, neg_inf}
use match_mind.Match.{role_text}
use match_mind.Policy.{greedy, beam, MatchPolicy, TeamAlgorithm, validate}
use match_mind.Text.{Text, codes, is_empty, text_lt, text_eq}
use match_mind.Ticket.{role_eq, MatchTicket}
use Sets.{Calls, SearchResult, SubsetState, TeamSearchDiagnostics, beam_candidate_sets, tiny}

unfoldable pub team_ids : Team → Text
team_ids team =
    join (codes ",")
      (sort_stable text_lt (map (λ p. p.ticket.id ++ (codes ":" ++ role_text p.role)) team.players))

unfoldable pub formation_signature : TeamFormation → Text
formation_signature f = team_ids f.side_a ++ (codes "|" ++ team_ids f.side_b)

-- The best formation so far, and how many there were.
pub record BestFormation : Type 0 where
  pub best : Option (TeamFormation × Quality)
  pub best_score : Float64
  pub best_signature : Text
  pub evaluated : ℕ

abbrev pub no_formation : BestFormation
no_formation = record { best = none; best_score = neg_inf; best_signature = []; evaluated = 0 }

unfoldable pub beats : BestFormation → Quality → Text → Bool
beats b q signature =
    float_lt b.best_score q.total_score
    || (float_lt (float_abs (float_sub q.total_score b.best_score)) tiny
        && (is_empty b.best_signature || text_lt signature b.best_signature))

unfoldable pub note_formation : BestFormation → TeamFormation → Quality → BestFormation
note_formation b f q =
    if beats b q (formation_signature f)
    then record {
      best = some (f, q);
      best_score = q.total_score;
      best_signature = formation_signature f;
      evaluated = suc b.evaluated;
    }
    else record b { evaluated = suc b.evaluated }

-- The teams of a split; a team that cannot be built leaves the split out.
unfoldable pub teams_of :
    MatchPolicy → Time → List TicketGroup × List TicketGroup → Option TeamFormation
teams_of policy now (a, b) =
    elim (build_assigned_team (flatten_groups a) (team_size_of policy) now policy) [
      | err e ↦ none
      | ok side_a ↦ elim (build_assigned_team (flatten_groups b) (team_size_of policy) now policy) [
        | err e ↦ none
        | ok side_b ↦ some (record { side_a = side_a; side_b = side_b })
      ]
    ]

-- The visit of a split.
unfoldable pub visit_split :
    Calls
    → Text
    → Time
    → MatchPolicy
    → List TicketGroup × List TicketGroup
    → BestFormation
    → Result BestFormation
visit_split calls region now policy teams b = elim (teams_of policy now teams) [
  | none ↦ ok b
  | some f ↦ evaluate_quality calls.scoring f region now policy >>= λ q. ok (note_formation b f q)
]

-- The loop over the masks in `visitPartitions`: `count` of them, from `mask` on.
unfoldable pub visit_masks :
    (List TicketGroup × List TicketGroup → BestFormation → Result BestFormation)
    → ℕ
    → List TicketGroup
    → BestFormation
    → ℕ
    → ℕ
    → Result BestFormation
visit_masks visit size groups b mask zero = ok b
visit_masks visit size groups b mask (suc count) =
    (if fits_mask size groups mask then visit (split_by mask groups) b else ok b) >>= λ next.
    visit_masks visit size groups next (suc mask) count

unfoldable pub visit_partitions :
    (List TicketGroup × List TicketGroup → BestFormation → Result BestFormation)
    → ℕ
    → List TicketGroup
    → BestFormation
    → Result BestFormation
visit_partitions visit size groups b = do
  reject_if (nat_beq (length groups) 0 || leb 63 (length groups)) no_valid_team_split
  visit_masks visit size groups b 1 (2 ^ length groups - 1)

unfoldable pub visit_states :
    Calls → Text → Time → MatchPolicy → List SubsetState → BestFormation → Result BestFormation
visit_states calls region now policy [] b = ok b
visit_states calls region now policy (s ∷ ss) b =
    visit_partitions (visit_split calls region now policy) (team_size_of policy) s.groups b
    >>= λ next. visit_states calls region now policy ss next

abbrev pub is_greedy : TeamAlgorithm → Bool
is_greedy greedy = true
is_greedy _ = false

unfoldable pub diagnosed : MatchPolicy → ℕ → ℕ → TeamSearchDiagnostics
diagnosed policy sets evaluated = record {
  algorithm = policy.team_algorithm;
  beam_width = policy.beam_width;
  candidate_sets = sets;
  formations_evaluated = evaluated;
}

abbrev pub empty_team : Team
empty_team = record { players = []; average_rating = float 0; role_score = float 0 }

abbrev pub empty_quality : Quality
empty_quality = record {
  total_score = float 0;
  skill_score = float 0;
  role_score = float 0;
  latency_score = float 0;
  party_score = float 0;
  wait_score = float 0;
  predicted_win_rate_a = float 0;
  predicted_win_rate_b = float 0;
  reasons = [];
}

-- Where no score is above minus infinity, which only NaN is not, the zero values are left.
unfoldable pub search_result :
    TeamSearchDiagnostics → Option (TeamFormation × Quality) → SearchResult
search_result d none = record {
  formation = record { side_a = empty_team; side_b = empty_team };
  quality = empty_quality;
  diagnostics = d;
}
search_result d (some (f, q)) = record { formation = f; quality = q; diagnostics = d }

unfoldable pub optimize_greedy :
    Calls → CandidateResult → Text → Time → MatchPolicy → Result SearchResult
optimize_greedy calls candidates region now policy = do
  formation ← form_teams_greedy candidates policy now
  quality ← evaluate_quality calls.scoring formation region now policy
  ok (record { formation = formation; quality = quality; diagnostics = diagnosed policy 1 1 })

unfoldable pub optimize_beam :
    Calls → CandidateResult → Text → Time → MatchPolicy → Result SearchResult
optimize_beam calls candidates region now policy = do
  states ← beam_candidate_sets calls candidates policy
  b ← visit_states calls region now policy states no_formation
  reject_if (nat_beq b.evaluated 0) no_valid_team_split
  ok (search_result (diagnosed policy (length states) b.evaluated) b.best)

unfoldable pub optimize_teams :
    Calls → CandidateResult → Text → Time → MatchPolicy → Result SearchResult
optimize_teams calls candidates region now policy = do
  validate policy
  (if is_greedy policy.team_algorithm
      then optimize_greedy calls candidates region now policy
      else optimize_beam calls candidates region now policy)

unfoldable pub compare_team_algorithms :
    Calls → CandidateResult → Text → Time → MatchPolicy → Result (SearchResult × SearchResult)
compare_team_algorithms calls candidates region now policy = do
  by_greedy ←
      optimize_teams calls candidates region now
        (record policy { version = codes "comparison-greedy"; team_algorithm = greedy })
  by_beam ←
      optimize_teams calls candidates region now
        (record policy { version = codes "comparison-beam"; team_algorithm = beam })
  ok (by_greedy, by_beam)

unfoldable pub candidate_region : CandidateResult → Text
candidate_region candidates = elim candidates.anchor [ none ↦ [] | some anchor ↦ anchor.region ]

-- The loop of `candidateReferenceTime`.
unfoldable pub latest_creation : Time → List MatchTicket → Time
latest_creation latest [] = latest
latest_creation latest (t ∷ ts) =
    latest_creation (if after t.created_at latest then t.created_at else latest) ts

unfoldable pub candidate_reference_time : CandidateResult → Time
candidate_reference_time candidates = latest_creation zero_time candidates.tickets

-- `FormTeams` of team.go.
unfoldable pub form_teams : Calls → CandidateResult → MatchPolicy → Result TeamFormation
form_teams calls candidates policy =
    let now = candidate_reference_time candidates in
    elim policy.team_algorithm [
      | beam ↦ do
        found ← optimize_teams calls candidates (candidate_region candidates) now policy
        ok found.formation
      | _ ↦ form_teams_greedy candidates policy now
    ]
