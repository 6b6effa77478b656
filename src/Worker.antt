-- ===== src/Worker.antt =====
-- internal/matchmaking/application/worker.go over the stores in memory and the local allocator, which implement
-- neither MatchAssignmentCoordinator nor AssignmentFinalizer. Metrics and log lines are left out. A round that
-- fails keeps what it has written, so the world comes back beside the result. Generated IDs and tokens are
-- arguments, and so is what the context of the round says at each call, since it may be cancelled in between.
pub mod Releasing
pub mod Opening
pub mod Parameters
pub mod Filtering
pub mod Matching
mod Settling
unfoldable pub use Settling.*
use match_mind.Base.{
  ticket_not_found, illegal_state_transition, reservation_conflict, no_match_available,
  no_server_capacity, no_suitable_server_region, insufficient_players, no_valid_team_split, Bool,
  List, Map, Result, [], err, ok, ℕ, Context, Error, false, if◌then◌else◌, lookup_or, map, true,
  ◌++◌, ◌>>=◌, ◌∷◌, Option, length, ltb, nat_beq, none, not, reject_if, some, ◌*◌, ◌>>◌,
}
use match_mind.Base.Int.{ltb_ℤ, ℤ}
use match_mind.Clock.{Time, add_time}
use match_mind.Engine.Beam.{Calls}
use match_mind.Engine.Candidates.{generate_candidates}
use match_mind.Engine.Quality.{Quality, latency_score, wait_score}
use match_mind.Engine.Teams.{AssignedPlayer, Team, TeamFormation, team_size_of}
use match_mind.Float64.{float, float_lt}
use match_mind.Game.Hero.{best_for_role}
use match_mind.Match.{role_text, MatchPlayer, Match, MatchQuality, MatchTeam, NewMatchParams}
use match_mind.MatchService.{World}
use match_mind.Policy.{for_mode, MatchPolicy, validate}
use match_mind.PolicyManager.{PolicyManager}
use match_mind.PolicyManager.Selection.{max_candidate_limit, select_policy}
use match_mind.RatingService.{average_rating}
use match_mind.RegionSelector.{RegionSelection, select_server_region}
use match_mind.Text.{Text, codes, text_eq}
use match_mind.Ticket.{MatchTicket, PoolKey}
use match_mind.TicketStore.{
  TicketStore, cancel_ticket, pool_keys, queue_snapshot, recover_expired_reservations,
}
use Settling.{RoundContexts, settle}

-- What the worker asks of the outside: the bans of players, and IDs and a token for a match.
pub record Outside : Type 0 where
  pub eligibility : List Text → Result (Map Text Bool)
  -- The answer to the second check, of the players of the formation.
  pub eligibility_later : List Text → Result (Map Text Bool)
  pub reservation_id : Result Text
  pub match_id : Result Text
  pub token : Result Text
  pub calls : Calls
  pub digest : Text → ℕ
  -- What Err() of the context of the round returns when each call begins.
  pub snapshot_context : Context
  pub cancel_context : MatchTicket → Context
  pub cancel_later_context : MatchTicket → Context
  pub capacities_context : Context
  pub contexts : RoundContexts

unfoldable pub match_player_from_engine : AssignedPlayer → MatchPlayer
match_player_from_engine p =
    let hero = best_for_role p.ticket.hero_proficiency (role_text p.role) in
    record {
      player_id = p.ticket.player_id;
      ticket_id = p.ticket.id;
      party_id = p.ticket.party_id;
      role = p.role;
      rating = p.ticket.rating;
      hero_id = elim hero [ ok found ↦ found.0.id | err e ↦ [] ];
      hero_proficiency = elim hero [ ok found ↦ found.1 | err e ↦ float 0 ];
      behavior_score = p.ticket.behavior_score;
    }

unfoldable pub match_team_from_engine : Text → Team → MatchTeam
match_team_from_engine id team = record {
  id = id;
  players = map match_player_from_engine team.players;
  average_rating = team.average_rating;
}

unfoldable pub match_quality_from_engine : Quality → MatchQuality
match_quality_from_engine q = record {
  total_score = q.total_score;
  skill_score = q.skill_score;
  role_score = q.role_score;
  latency_score = q.latency_score;
  party_score = q.party_score;
  wait_score = q.wait_score;
  predicted_win_rate_a = q.predicted_win_rate_a;
  predicted_win_rate_b = q.predicted_win_rate_b;
  reasons = q.reasons;
}

unfoldable pub formation_tickets : TeamFormation → List MatchTicket
formation_tickets f = map (λ p. p.ticket) f.side_a.players ++ map (λ p. p.ticket) f.side_b.players

unfoldable pub formation_ticket_ids : TeamFormation → List Text
formation_ticket_ids f = map (λ t. t.id) (formation_tickets f)

-- The errors of a cancellation that the filter passes over.
unfoldable pub may_stay : Error → Bool
may_stay ticket_not_found = true
may_stay illegal_state_transition = true
may_stay reservation_conflict = true
may_stay _ = false

unfoldable pub with_ticket :
    MatchTicket → TicketStore × Result (List MatchTicket) → TicketStore × Result (List MatchTicket)
with_ticket t (s, rest) = (s, rest >>= λ others. ok (t ∷ others))

-- The loop of `filterEligibleTickets`: tickets of players who may not play are cancelled.
unfoldable pub filter_each :
    (MatchTicket → Context)
    → TicketStore
    → Map Text Bool
    → Time
    → List MatchTicket
    → TicketStore × Result (List MatchTicket)
filter_each ctx s eligible now [] = (s, ok [])
filter_each ctx s eligible now (t ∷ ts) =
    if lookup_or false t.player_id eligible
    then with_ticket t (filter_each ctx s eligible now ts)
    else elim (cancel_ticket (ctx t) s t.id t.player_id (codes "system-ineligible-" ++ t.id) now) [
      | ok cancelled_in ↦ filter_each ctx cancelled_in.0 eligible now ts
      | err e ↦
          let rest = filter_each ctx s eligible now ts in if may_stay e then rest else (s, err e)
    ]

unfoldable pub filter_eligible_tickets :
    (MatchTicket → Context)
    → (List Text → Result (Map Text Bool))
    → TicketStore
    → List MatchTicket
    → Time
    → TicketStore × Result (List MatchTicket)
filter_eligible_tickets ctx eligibility s tickets now =
    elim (eligibility (map (λ t. t.player_id) tickets)) [
      | err e ↦ (s, err e)
      | ok eligible ↦ filter_each ctx s eligible now tickets
    ]

-- The state and the settings of a worker.
pub record WorkerConfig : Type 0 where
  pub policy : MatchPolicy
  pub policies : Option PolicyManager

unfoldable pub candidate_limit_of : WorkerConfig → ℤ
candidate_limit_of c = elim c.policies [
  | none ↦ c.policy.candidate_limit
  | some m ↦
      if ltb_ℤ c.policy.candidate_limit (max_candidate_limit m)
      then max_candidate_limit m
      else c.policy.candidate_limit
]

-- The policy of the player of the first ticket.
unfoldable pub policy_for : Outside → WorkerConfig → List MatchTicket → MatchPolicy
policy_for outside c [] = c.policy
policy_for outside c (t ∷ ts) = elim c.policies [
  | none ↦ c.policy
  | some m ↦ (select_policy outside.digest m t.player_id).policy
]

-- What `tryPool` decides before it writes: the region with its teams, and the policy.
unfoldable pub plan_match :
    Outside
    → WorkerConfig
    → World
    → PoolKey
    → List MatchTicket
    → Time
    → Result (RegionSelection × MatchPolicy)
plan_match outside c w key tickets now = do
  reject_if (nat_beq (length tickets) 0) no_match_available
  policy ← for_mode (policy_for outside c tickets) key.mode
  validate policy
  reject_if (ltb (length tickets) (team_size_of policy * 2)) no_match_available
  candidates ← generate_candidates (map some tickets) now policy
  selection ←
      select_server_region outside.capacities_context outside.calls w.servers candidates now policy
  reject_if (float_lt selection.search.quality.total_score policy.min_quality_score)
      no_match_available
  ok (selection, policy)

unfoldable pub match_params_of :
    PoolKey → Text → RegionSelection → MatchPolicy → Time → NewMatchParams
match_params_of key match_id selection policy now = record {
  id = match_id;
  mode = key.mode;
  side_a = match_team_from_engine (match_id ++ codes "-a") selection.search.formation.side_a;
  side_b = match_team_from_engine (match_id ++ codes "-b") selection.search.formation.side_b;
  server_region = selection.region;
  policy_version = policy.version;
  quality = match_quality_from_engine selection.search.quality;
  created_at = now;
}

-- From the second check of the players on, with the generated IDs.
unfoldable pub claim_match :
    Outside
    → World
    → PoolKey
    → RegionSelection
    → MatchPolicy
    → Text
    → Text
    → Time
    → World × Result Match
claim_match outside w key selection policy reservation_id match_id now =
    let (tickets, checked) =
      filter_eligible_tickets outside.cancel_later_context outside.eligibility_later w.tickets
        (formation_tickets selection.search.formation) now in
    let w' = record w { tickets = tickets } in
    elim checked [
      | err e ↦ (w', err e)
      | ok chosen ↦
          if not (nat_beq (length chosen) (team_size_of policy * 2))
          then (w', err no_match_available)
          else settle outside.contexts w' reservation_id
              (formation_ticket_ids selection.search.formation)
              (add_time now policy.reservation_ttl)
              (match_params_of key match_id selection policy now) outside.token now
    ]

-- From the plan on: the IDs are generated first.
unfoldable pub name_match :
    Outside → World → PoolKey → RegionSelection × MatchPolicy → Time → World × Result Match
name_match outside w key (selection, policy) now = elim outside.reservation_id [
  | err e ↦ (w, err e)
  | ok reservation_id ↦ elim outside.match_id [
    | err e ↦ (w, err e)
    | ok match_id ↦ claim_match outside w key selection policy reservation_id match_id now
  ]
]

unfoldable pub try_pool : Outside → WorkerConfig → World → PoolKey → Time → World × Result Match
try_pool outside c w key now =
    elim (queue_snapshot outside.snapshot_context w.tickets key (candidate_limit_of c)) [
      | err e ↦ (w, err e)
      | ok [] ↦ (w, err no_match_available)
      | ok (t ∷ ts) ↦
          let (tickets, checked) =
            filter_eligible_tickets outside.cancel_context outside.eligibility w.tickets (t ∷ ts)
              now in
          let w' = record w { tickets = tickets } in
          elim checked [
            | err e ↦ (w', err e)
            | ok eligible ↦ elim (plan_match outside c w' key eligible now) [
              | err e ↦ (w', err e)
              | ok planned ↦ name_match outside w' key planned now
            ]
          ]
    ]

-- The errors of a pool after which the next pool is tried.
unfoldable pub goes_on : Error → Bool
goes_on no_match_available = true
goes_on no_server_capacity = true
goes_on no_suitable_server_region = true
goes_on insufficient_players = true
goes_on no_valid_team_split = true
goes_on _ = false

unfoldable pub try_pools :
    (PoolKey → Outside) → WorkerConfig → World → List PoolKey → Time → World × Result Match
try_pools outside c w [] now = (w, err no_match_available)
try_pools outside c w (key ∷ keys) now =
    let (w', result) = try_pool (outside key) c w key now in
    let rest = try_pools outside c w' keys now in
    elim result [ ok m ↦ (w', ok m) | err e ↦ if goes_on e then rest else (w', err e) ]

unfoldable pub run_once :
    Context → Context → (PoolKey → Outside) → WorkerConfig → World → Time → World × Result Match
run_once recover_ctx keys_ctx outside c w now =
    let (tickets, count, failure) = recover_expired_reservations recover_ctx w.tickets now in
    let w' = record w { tickets = tickets } in
    elim failure [
      | some e ↦ (w', err e)
      | none ↦ elim (pool_keys keys_ctx tickets) [
        | err e ↦ (w', err e)
        | ok keys ↦ try_pools outside c w' keys now
      ]
    ]
