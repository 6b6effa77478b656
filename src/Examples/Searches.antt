-- ===== src/Examples/Searches.antt =====
-- Candidates and teams of two parties of five.
use match_mind.Base.{
  ap, sym, suc, ◌∙◌, List, Option, [], count, false, length, map, none, ok, refl, some, true, ℕ,
  ◌++◌, ◌<◌, ◌^◌, ◌∷◌, ◌≡◌, ◌⊎◌,
}
use match_mind.Base.Int.{pos}
use match_mind.Engine.{TicketGroup, clone_and_sort_tickets}
use match_mind.Engine.Beam.{Calls, SearchResult, diagnosed, optimize_greedy, optimize_teams}
use match_mind.Engine.Candidates.{
  CandidateResult, candidates_from, generate_candidates, oldest_queued, window_of,
}
use match_mind.Engine.Candidates.Unique.{
  AreCandidates, IsFirstQueued, generate_candidates-AreCandidates,
}
use match_mind.Engine.Quality.{
  Quality, Scores, Scoring, evaluate_quality, evaluate_quality-Scores, partial_quality, with_total,
}
use match_mind.Engine.Searching.{Rated, optimize_teams-Rated}
use match_mind.Engine.Teams.{
  build_assigned_team, Team, TeamFormation, balanced_partition, canonical_roles, fits_mask,
  form_teams_greedy, rating_difference, roles_score, select_ten_players, split_by,
}
use match_mind.Engine.Teams.Roles.{build_assigned_team-roles, build_assigned_team_total, by_player}
use match_mind.Engine.Teams.Splitting.{balanced_partition-optimal}
use match_mind.Examples.Data.{waiting_ticket}
use match_mind.Examples.Policies.{default_policy_valid}
use match_mind.Float64.{float, float_lt, float_neg, float_ratio}
use match_mind.Policy.{default_policy}
use match_mind.Policy.Limits.{rating_range}
use match_mind.Text.{Text, codes, text_eq}
use match_mind.Ticket.{MatchTicket, Role, role_eq}

abbrev pub member : Text → Text → MatchTicket
member party id = record (waiting_ticket id id) {
  params = record (waiting_ticket id id).params { party_id = party };
}

abbrev pub reds : List MatchTicket
reds =
    member (codes "red") (codes "r1")
    ∷ member (codes "red") (codes "r2")
    ∷ member (codes "red") (codes "r3")
    ∷ member (codes "red") (codes "r4")
    ∷ member (codes "red") (codes "r5")
    ∷ []

abbrev pub blues : List MatchTicket
blues =
    member (codes "blue") (codes "u1")
    ∷ member (codes "blue") (codes "u2")
    ∷ member (codes "blue") (codes "u3")
    ∷ member (codes "blue") (codes "u4")
    ∷ member (codes "blue") (codes "u5")
    ∷ []

abbrev first_red : MatchTicket
first_red = member (codes "red") (codes "r1")

abbrev pointers : List (Option MatchTicket)
pointers = none ∷ map some (reds ++ blues)

abbrev found_candidates : CandidateResult
found_candidates = candidates_from (clone_and_sort_tickets pointers) first_red 9 default_policy

oldest_lem : oldest_queued (clone_and_sort_tickets pointers) ≡ some first_red
unfolding oldest_queued clone_and_sort_tickets match_mind.Base.sort_stable match_mind.Engine.non_nil
    match_mind.Engine.ticket_before match_mind.Text.text_lt
oldest_lem = refl

found_lem : generate_candidates pointers 9 default_policy ≡ ok found_candidates
unfolding generate_candidates
found_lem = rw (default_policy_valid, oldest_lem, generate_candidates) refl

generate_candidates-AreCandidates_example :
    (anchor : MatchTicket) × (found_candidates.anchor ≡ some anchor)
    × IsFirstQueued (clone_and_sort_tickets pointers) anchor
    × AreCandidates
        (window_of default_policy 9 anchor)
        default_policy.candidate_limit
        (clone_and_sort_tickets pointers)
        found_candidates.tickets
generate_candidates-AreCandidates_example =
    generate_candidates-AreCandidates pointers 9 default_policy found_candidates found_lem

pub red_score :
    float_lt
      (float_neg (float 1))
      (roles_score 9 default_policy (float 0) (by_player reds) canonical_roles)
    ≡ true
unfolding float_lt roles_score match_mind.Base.sort_stable match_mind.Text.text_lt
    match_mind.Float64.float_add match_mind.Engine.Teams.role_preference_score
    match_mind.Engine.Teams.role_index match_mind.Policy.Limits.non_preferred_role_score
    default_policy match_mind.Base.Int.◌+ℤ◌ match_mind.Float64.unit match_mind.Base.Int.◌-ℤ◌
red_score = refl

pub blue_score :
    float_lt
      (float_neg (float 1))
      (roles_score 9 default_policy (float 0) (by_player blues) canonical_roles)
    ≡ true
unfolding float_lt roles_score match_mind.Base.sort_stable match_mind.Text.text_lt
    match_mind.Float64.float_add match_mind.Engine.Teams.role_preference_score
    match_mind.Engine.Teams.role_index match_mind.Policy.Limits.non_preferred_role_score
    default_policy match_mind.Base.Int.◌+ℤ◌ match_mind.Float64.unit match_mind.Base.Int.◌-ℤ◌
blue_score = refl

abbrev pub red_team : Team
red_team = (build_assigned_team_total reds 9 default_policy refl red_score).0

abbrev pub blue_team : Team
blue_team = (build_assigned_team_total blues 9 default_policy refl blue_score).0

build_assigned_team-roles_example :
    (map (λ p. p.ticket) red_team.players ≡ by_player reds)
    × ((r : Role) → count r (map (λ p. p.role) red_team.players) ≡ count r canonical_roles)
build_assigned_team-roles_example =
    build_assigned_team-roles reds 5 9 default_policy red_team
      (build_assigned_team_total reds 9 default_policy refl red_score).1

length-map : {A B : Type 0} (f : A → B) (xs : List A) → length (map f xs) ≡ length xs
length-map f [] = refl
length-map f (x ∷ xs) = ap suc (length-map f xs)

team_size_lem :
    (tickets : List MatchTicket) (t : Team)
    → build_assigned_team tickets 5 9 default_policy ≡ ok t
    → length t.players ≡ length (by_player tickets)
team_size_lem tickets t built =
    sym (length-map (λ p. p.ticket) t.players)
    ∙ ap length (build_assigned_team-roles tickets 5 9 default_policy t built).0

red_size : length red_team.players ≡ 5
unfolding match_mind.Base.sort_stable match_mind.Text.text_lt
red_size =
    team_size_lem reds red_team (build_assigned_team_total reds 9 default_policy refl red_score).1

blue_size : length blue_team.players ≡ 5
unfolding match_mind.Base.sort_stable match_mind.Text.text_lt
blue_size =
    team_size_lem blues blue_team
      (build_assigned_team_total blues 9 default_policy refl blue_score).1

abbrev red_group : TicketGroup
red_group = record { key = codes "party:red"; tickets = reds }

abbrev blue_group : TicketGroup
blue_group = record { key = codes "party:blue"; tickets = blues }

split_lem :
    balanced_partition (red_group ∷ blue_group ∷ []) 5 ≡ ok (red_group ∷ [], blue_group ∷ [])
unfolding balanced_partition match_mind.Engine.Teams.try_masks match_mind.Engine.Teams.try_mask
    fits_mask match_mind.Engine.Teams.group_player_count split_by match_mind.Engine.Teams.is_better
    float_lt rating_difference match_mind.Float64.float_add
    match_mind.Engine.Teams.group_rating_total match_mind.Engine.Teams.sum_ratings
    match_mind.Engine.flatten_groups match_mind.Base.Int.◌+ℤ◌ match_mind.Float64.unit
    match_mind.Base.Int.◌-ℤ◌
split_lem = refl

balanced_partition-optimal_example :
    ((m : ℕ) × (fits_mask 5 (red_group ∷ blue_group ∷ []) m ≡ true)
      × ((red_group ∷ [], blue_group ∷ []) ≡ split_by m (red_group ∷ blue_group ∷ [])))
    × ((m : ℕ)
        → m < 2 ^ length (red_group ∷ blue_group ∷ [])
        → fits_mask 5 (red_group ∷ blue_group ∷ []) m ≡ true
        → float_lt
            (rating_difference (split_by m (red_group ∷ blue_group ∷ [])))
            (rating_difference (red_group ∷ [], blue_group ∷ []))
          ≡ false)
balanced_partition-optimal_example =
    balanced_partition-optimal (red_group ∷ blue_group ∷ []) 5 (red_group ∷ [], blue_group ∷ [])
      split_lem

abbrev pub even_chances : Scoring
even_chances = record { expected_score = λ a b. ok (float_ratio 1 2); format = λ x. codes "x" }

abbrev pub red_against_blue : TeamFormation
red_against_blue = record { side_a = red_team; side_b = blue_team }

abbrev pub their_quality : Quality
their_quality =
    with_total even_chances default_policy
      (partial_quality red_against_blue (codes "tokyo") 9 default_policy (float_ratio 1 2))

pub quality_lem :
    evaluate_quality even_chances red_against_blue (codes "tokyo") 9 default_policy
    ≡ ok their_quality
unfolding evaluate_quality default_policy
quality_lem = rw (default_policy_valid, red_size, blue_size, evaluate_quality) refl

evaluate_quality-Scores_example : Scores their_quality
evaluate_quality-Scores_example =
    evaluate_quality-Scores even_chances red_against_blue (codes "tokyo") 9 default_policy
      their_quality quality_lem

abbrev pub ten : CandidateResult
ten = record {
  anchor = some first_red;
  tickets = reds ++ blues;
  decisions = [];
  rating_range = float 100;
  admissible_latency_ms = pos 100;
}

selected_lem : select_ten_players ten.tickets first_red.id 10 ≡ ok (red_group ∷ blue_group ∷ [])
unfolding select_ten_players match_mind.Engine.Teams.anchor_index match_mind.Engine.group_tickets
    match_mind.Engine.group_into match_mind.Base.sort_stable match_mind.Engine.ticket_before
    match_mind.Text.text_lt match_mind.Engine.add_to_group match_mind.Text.text_beq
    match_mind.Engine.group_key match_mind.Engine.has_ticket
    match_mind.Engine.Teams.select_combination match_mind.Engine.Teams.swap_first
    match_mind.Base.lookup match_mind.Engine.Teams.combine match_mind.Engine.Teams.extend_sizes
    match_mind.Engine.Teams.extend_size match_mind.Base.insert match_mind.Base.insert_sorted
    match_mind.Engine.Teams.put_at
selected_lem = refl

pub formed_lem : form_teams_greedy ten default_policy 9 ≡ ok red_against_blue
unfolding form_teams_greedy default_policy match_mind.Float64.unit red_score blue_score
    match_mind.Engine.Teams.build_assigned_team match_mind.Engine.flatten_groups
formed_lem =
    rw
      (
        default_policy_valid,
        selected_lem,
        split_lem,
        (build_assigned_team_total reds 9 default_policy refl red_score).1,
        (build_assigned_team_total blues 9 default_policy refl blue_score).1,
        form_teams_greedy,
      )
      refl

abbrev pub greedy_calls : Calls
greedy_calls = record { scoring = even_chances; sqrt = λ x. x }

abbrev pub their_search : SearchResult
their_search = record {
  formation = red_against_blue;
  quality = their_quality;
  diagnostics = diagnosed default_policy 1 1;
}

pub optimized_lem :
    optimize_teams greedy_calls ten (codes "tokyo") 9 default_policy ≡ ok their_search
unfolding optimize_teams optimize_greedy default_policy
optimized_lem =
    rw (default_policy_valid, formed_lem, quality_lem, optimize_teams, optimize_greedy) refl

optimize_teams-Rated_example :
    Rated greedy_calls (codes "tokyo") 9 default_policy red_against_blue their_quality
    ⊎ ((red_team.players ≡ []) × (blue_team.players ≡ []))
optimize_teams-Rated_example =
    optimize_teams-Rated greedy_calls ten (codes "tokyo") 9 default_policy their_search
      optimized_lem
