-- ===== src/Examples/Turns.antt =====
-- A whole turn of the worker over a queue of ten.
use match_mind.Base.{
  Result, List, map, [], ◌∷◌, ◌++◌, ok, err, true, false, none, lookup, refl, ◌≡◌,
}
use match_mind.Examples.Data.{ana}
use match_mind.Examples.Searches.{reds, blues, greedy_calls}
use match_mind.Examples.Rounds.{alive, one_region, opened_m1}
use match_mind.Match.{Match}
use match_mind.MatchService.{World}
use match_mind.Policy.{default_policy}
use match_mind.Text.{codes, text_eq, trim_space}
use match_mind.Ticket.{MatchTicket}
use match_mind.TicketStore.{pool_key, new_ticket_store}
use match_mind.TicketStore.Runs.{Call, creates, run, run-Inv}
use match_mind.Worker.{Outside, WorkerConfig, try_pool}
use match_mind.Worker.Matching.{Matched, try_pool-Matched}

abbrev ten_requests : List Call
ten_requests = map (λ t. creates none t (codes "k")) (reds ++ blues)

abbrev full_queue : World
full_queue = record {
  matches = [];
  tickets = run new_ticket_store ten_requests;
  servers = one_region;
}

abbrev everything_allowed : Outside
everything_allowed = record {
  eligibility = λ ids. ok (map (λ id. (id, true)) ids);
  eligibility_later = λ ids. ok (map (λ id. (id, true)) ids);
  reservation_id = ok (codes "r1");
  match_id = ok (codes "m1");
  token = ok (codes "token");
  calls = greedy_calls;
  digest = λ x. 0;
  snapshot_context = none;
  cancel_context = λ t. none;
  cancel_later_context = λ t. none;
  capacities_context = none;
  contexts = alive;
}

abbrev worker : WorkerConfig
worker = record { policy = default_policy; policies = none }

abbrev tried : World × Result Match
tried = try_pool everything_allowed worker full_queue (pool_key ana) 9

abbrev matched : Match
matched = elim tried.1 [ ok m ↦ m | err e ↦ opened_m1 ]

no_record : lookup (codes "r1") full_queue.tickets.reservations ≡ none
unfolding lookup match_mind.Base.insert trim_space match_mind.Text.text_beq
    match_mind.TicketStore.scoped_key match_mind.TicketStore.create_queued
    match_mind.TicketStore.Runs.step run
no_record = refl

tried_lem : tried ≡ (tried.0, ok matched)
unfolding match_mind.Base.keep match_mind.Base.contains match_mind.Base.distinct
    match_mind.Base.count match_mind.Base.erase lookup match_mind.Base.insert match_mind.Base.delete
    match_mind.Base.Int.◌+ℤ◌ match_mind.Base.Int.◌-ℤ◌ match_mind.Base.Int.◌*ℤ◌
    match_mind.Base.Int.wrap_int match_mind.Base.Int.int_add match_mind.Base.insert_sorted
    match_mind.Base.sort_stable trim_space match_mind.Text.to_lower match_mind.Text.text_beq
    match_mind.Text.text_lt match_mind.Float64.unit match_mind.Float64.float_lt
    match_mind.Float64.float_le match_mind.Float64.excess match_mind.Float64.nearest
    match_mind.Float64.rounded match_mind.Float64.float_add match_mind.Float64.float_mul
    match_mind.Float64.float_over match_mind.Float64.float_div match_mind.Game.Mode.parse
    match_mind.Game.Mode.get match_mind.Game.Hero.catalog match_mind.Game.Hero.index
    match_mind.Game.Hero.get match_mind.Game.Hero.candidates match_mind.Game.Hero.best_of
    match_mind.Game.Hero.best_for_role match_mind.Ticket.scan_roles match_mind.Ticket.reserve
    match_mind.Ticket.assign match_mind.Ticket.release_reservation
    match_mind.Ticket.release_expired_reservation match_mind.TicketStore.pool_key_beq
    match_mind.TicketStore.scoped_key match_mind.TicketStore.remove_from_pool
    match_mind.TicketStore.clone_tickets match_mind.TicketStore.take_all
    match_mind.TicketStore.same_ticket_ids match_mind.TicketStore.put_all
    match_mind.TicketStore.store_queued match_mind.TicketStore.create_queued
    match_mind.TicketStore.store_cancelled match_mind.TicketStore.cancel_ticket
    match_mind.TicketStore.complete_each match_mind.TicketStore.complete_assigned_tickets
    match_mind.TicketStore.reserve_each match_mind.TicketStore.reserve_all
    match_mind.TicketStore.change_each match_mind.TicketStore.release_all
    match_mind.TicketStore.remove_all match_mind.TicketStore.assign_all match_mind.TicketStore.get
    match_mind.TicketStore.get_active_by_player match_mind.TicketStore.collect
    match_mind.TicketStore.queue_snapshot match_mind.TicketStore.any_candidate
    match_mind.TicketStore.live_keys match_mind.TicketStore.pool_keys
    match_mind.TicketStore.queue_size match_mind.TicketStore.active_tickets
    match_mind.TicketStore.Runs.step run match_mind.Match.hero_fits match_mind.Match.valid_player
    match_mind.Match.scan_players match_mind.Match.validate_match_teams match_mind.Match.trim_params
    match_mind.Match.incomplete match_mind.Match.bad_quality match_mind.Match.validated
    match_mind.Match.new_match match_mind.Match.valid_result match_mind.Match.validate_match_result
    match_mind.Match.state_fits match_mind.Match.validate_restored_match_state
    match_mind.Match.restore_match match_mind.Match.next_revision match_mind.Match.move
    match_mind.Match.transition match_mind.Match.start_allocation match_mind.Match.mark_ready
    match_mind.Match.start match_mind.Match.complete match_mind.Match.fail
    match_mind.MatchStore.create match_mind.MatchStore.get match_mind.MatchStore.update
    match_mind.MatchStore.selected match_mind.MatchStore.list_finished
    match_mind.Allocator.normalize_into match_mind.Allocator.new_local_allocator_with_capacities
    match_mind.Allocator.new_local_allocator match_mind.Allocator.used
    match_mind.Allocator.available match_mind.Allocator.capacities_of match_mind.Allocator.allocate
    match_mind.Allocator.release default_policy match_mind.Policy.beam_policy
    match_mind.Policy.add_weights match_mind.Policy.validate match_mind.Policy.for_mode
    match_mind.Policy.Limits.seconds match_mind.Policy.Limits.rating_range
    match_mind.Policy.Limits.latency_limit match_mind.Policy.Limits.non_preferred_role_score
    match_mind.Engine.non_nil match_mind.Engine.ticket_before
    match_mind.Engine.clone_and_sort_tickets match_mind.Engine.group_key
    match_mind.Engine.add_to_group match_mind.Engine.group_into match_mind.Engine.group_tickets
    match_mind.Engine.has_ticket match_mind.Engine.put_for match_mind.Engine.move_anchor_group_first
    match_mind.Engine.flatten_groups match_mind.Engine.Candidates.oldest_queued
    match_mind.Engine.Candidates.scan_players_once match_mind.Engine.Candidates.latency_reason
    match_mind.Engine.Candidates.ticket_reason match_mind.Engine.Candidates.earlier_reason
    match_mind.Engine.Candidates.group_rejection_reason match_mind.Engine.Candidates.reject_each
    match_mind.Engine.Candidates.accept_each match_mind.Engine.Candidates.reason_for
    match_mind.Engine.Candidates.take_groups match_mind.Engine.Candidates.decision_of
    match_mind.Engine.Candidates.window_of match_mind.Engine.Candidates.candidates_from
    match_mind.Engine.Candidates.generate_candidates match_mind.Engine.Teams.anchor_index
    match_mind.Engine.Teams.put_at match_mind.Engine.Teams.swap_first
    match_mind.Engine.Teams.extend_size match_mind.Engine.Teams.extend_sizes
    match_mind.Engine.Teams.combine match_mind.Engine.Teams.select_combination
    match_mind.Engine.Teams.select_ten_players match_mind.Engine.Teams.split_by
    match_mind.Engine.Teams.group_player_count match_mind.Engine.Teams.sum_ratings
    match_mind.Engine.Teams.group_rating_total match_mind.Engine.Teams.join
    match_mind.Engine.Teams.team_signature match_mind.Engine.Teams.rating_difference
    match_mind.Engine.Teams.fits_mask match_mind.Engine.Teams.is_better
    match_mind.Engine.Teams.try_mask match_mind.Engine.Teams.try_masks
    match_mind.Engine.Teams.balanced_partition match_mind.Engine.Teams.choices
    match_mind.Engine.Teams.all_with match_mind.Engine.Teams.permutations
    match_mind.Engine.Teams.role_index match_mind.Engine.Teams.role_preference_score
    match_mind.Engine.Teams.roles_score match_mind.Engine.Teams.best_roles
    match_mind.Engine.Teams.assign_players match_mind.Engine.Teams.sum_scores
    match_mind.Engine.Teams.team_with match_mind.Engine.Teams.build_assigned_team
    match_mind.Engine.Teams.form_teams_greedy match_mind.Engine.Quality.clamp_score
    match_mind.Engine.Quality.sum_latencies match_mind.Engine.Quality.score_latencies
    match_mind.Engine.Quality.latency_score match_mind.Engine.Quality.party_key
    match_mind.Engine.Quality.party_sizes match_mind.Engine.Quality.party_distribution
    match_mind.Engine.Quality.absolute_int match_mind.Engine.Quality.party_difference
    match_mind.Engine.Quality.party_symmetry_score match_mind.Engine.Quality.sum_waits
    match_mind.Engine.Quality.wait_score match_mind.Engine.Quality.reason_below
    match_mind.Engine.Quality.quality_reasons match_mind.Engine.Quality.weighted
    match_mind.Engine.Quality.partial_quality match_mind.Engine.Quality.with_total
    match_mind.Engine.Quality.evaluate_quality match_mind.Engine.Beam.subset_signature
    match_mind.Engine.Beam.optimize_greedy match_mind.Engine.Beam.optimize_beam
    match_mind.Engine.Beam.optimize_teams match_mind.Engine.Beam.compare_team_algorithms
    match_mind.Engine.Beam.candidate_region match_mind.Engine.Beam.latest_creation
    match_mind.Engine.Beam.candidate_reference_time match_mind.Engine.Beam.form_teams
    match_mind.RegionSelector.add_capacities match_mind.RegionSelector.as_capacities
    match_mind.RegionSelector.normalize_capacities match_mind.RegionSelector.team_latencies
    match_mind.RegionSelector.region_score match_mind.RegionSelector.selection_of
    match_mind.RegionSelector.score_server_region match_mind.RegionSelector.better_region_selection
    match_mind.RegionSelector.max_available_of match_mind.RegionSelector.region_offer
    match_mind.RegionSelector.better_of match_mind.RegionSelector.best_region_offer
    match_mind.RegionSelector.select_server_region match_mind.RatingService.scan_unique
    match_mind.RatingService.validate_unique_players match_mind.RatingService.load_players
    match_mind.Worker.assign_match match_mind.Worker.allocate_match match_mind.Worker.open_match
    match_mind.Worker.settle match_mind.Worker.match_player_from_engine
    match_mind.Worker.match_team_from_engine match_mind.Worker.match_quality_from_engine
    match_mind.Worker.formation_tickets match_mind.Worker.formation_ticket_ids
    match_mind.Worker.may_stay match_mind.Worker.with_ticket match_mind.Worker.filter_each
    match_mind.Worker.filter_eligible_tickets match_mind.Worker.candidate_limit_of
    match_mind.Worker.policy_for match_mind.Worker.plan_match match_mind.Worker.match_params_of
    match_mind.Worker.claim_match match_mind.Worker.name_match try_pool match_mind.Worker.goes_on
tried_lem = refl

try_pool-Matched_example :
    Matched everything_allowed worker full_queue tried.0 (pool_key ana) 9 matched
unfolding trim_space
try_pool-Matched_example =
    try_pool-Matched everything_allowed worker full_queue tried.0 (pool_key ana) 9 (codes "r1")
      matched (run-Inv ten_requests) refl refl no_record tried_lem
