-- ===== src/Examples/Rounds.antt =====
-- A region for two parties of five, and a round that settles a match.
use match_mind.Allocator.{LocalAllocator, capacities_of, available}
use match_mind.Base.{
  is_some, external, All, List, Result, [], insert, lookup, map, none, ok, refl, some, subst, sym,
  true, ◌∷◌, ◌≡◌, ◌≢◌,
}
use match_mind.Base.Int.{pos}
use match_mind.Engine.Teams.{AssignedPlayer, Team, build_assigned_team}
use match_mind.Engine.Teams.Roles.{build_assigned_team-roles, build_assigned_team_total, by_player}
use match_mind.Examples.Data.{both, stocked}
use match_mind.Examples.Matches.{m1_params, new_m1}
use match_mind.Examples.Searches.{
  blue_score, blue_team, blues, greedy_calls, optimized_lem, red_score, red_team, reds, ten,
  their_search,
}
use match_mind.Examples.Stores.{reserve_lem, stocked-Inv}
use match_mind.Match.{Match, ready}
use match_mind.MatchService.{World}
use match_mind.Policy.{default_policy}
use match_mind.RegionSelector.{
  add_capacities, as_capacities, best_region_offer, better_of, max_available_of,
  normalize_capacities, RegionSelection, region_offer, select_server_region, selection_of,
  team_latencies, score_server_region,
}
use match_mind.RegionSelector.Selected.{Suits, select_server_region-Suits}
use match_mind.Text.{trim_space, Text, codes, text_eq}
use match_mind.Ticket.{MatchTicket, is_reserved}
use match_mind.TicketStore.Invariant.{Inv}
use match_mind.Worker.{RoundContexts, settle}
use match_mind.Worker.Opening.{Opened, settle-Opened}
use match_mind.Worker.Releasing.{settle-unreserved}

abbrev tokyo : Text
tokyo = codes "tokyo"

abbrev In20 : List MatchTicket → Type 0
In20 = All (λ t. lookup tokyo t.region_latency ≡ some (pos 20))

near_lem :
    (ps : List AssignedPlayer)
    → In20 (map (λ p. p.ticket) ps)
    → team_latencies tokyo (pos 100) default_policy.max_latency_ms ps ≡ some (map (λ p. pos 20) ps)
unfolding team_latencies default_policy
near_lem [] v = refl
near_lem (p ∷ ps) (v, vs) = rw (v, near_lem ps vs, team_latencies) refl

team_lem :
    (tickets : List MatchTicket) (t : Team)
    → build_assigned_team tickets 5 9 default_policy ≡ ok t
    → In20 (by_player tickets)
    → In20 (map (λ p. p.ticket) t.players)
team_lem tickets t built v =
    subst In20 (sym (build_assigned_team-roles tickets 5 9 default_policy t built).0) v

red_near : In20 (map (λ p. p.ticket) red_team.players)
unfolding match_mind.Base.sort_stable match_mind.Text.text_lt lookup match_mind.Text.text_beq
red_near =
    team_lem reds red_team (build_assigned_team_total reds 9 default_policy refl red_score).1
      (refl, (refl, (refl, (refl, (refl, tt)))))

blue_near : In20 (map (λ p. p.ticket) blue_team.players)
unfolding match_mind.Base.sort_stable match_mind.Text.text_lt lookup match_mind.Text.text_beq
blue_near =
    team_lem blues blue_team (build_assigned_team_total blues 9 default_policy refl blue_score).1
      (refl, (refl, (refl, (refl, (refl, tt)))))

abbrev pub one_region : LocalAllocator
one_region = record { capacities = (tokyo, pos 2) ∷ []; allocations = [] }

abbrev their_region : RegionSelection
their_region =
    selection_of greedy_calls their_search (record { region = tokyo; available_servers = pos 2 })
      (pos 2) default_policy.max_latency_ms (map (λ p. pos 20) red_team.players)
      (map (λ p. pos 20) blue_team.players)

offer_lem :
    region_offer greedy_calls ten 9 default_policy
      (pos 2)
      (record { region = tokyo; available_servers = pos 2 })
    ≡ some their_region
unfolding region_offer score_server_region
offer_lem =
    rw
      (
        optimized_lem,
        near_lem red_team.players red_near,
        near_lem blue_team.players blue_near,
        region_offer,
        score_server_region,
      )
      refl

capacities_lem :
    capacities_of none one_region ≡ ok (record { region = tokyo; available_servers = pos 2 } ∷ [])
unfolding capacities_of available match_mind.Allocator.used match_mind.Base.Int.◌-ℤ◌
capacities_lem = refl

normalized_lem :
    normalize_capacities (record { region = tokyo; available_servers = pos 2 } ∷ [])
    ≡ record { region = tokyo; available_servers = pos 2 } ∷ []
unfolding normalize_capacities add_capacities as_capacities lookup insert
    match_mind.Base.sort_stable match_mind.Text.trim_space match_mind.Text.to_lower
    match_mind.Base.Int.◌+ℤ◌ match_mind.Base.Int.int_add match_mind.Base.Int.wrap_int
normalized_lem = refl

best_lem :
    best_region_offer greedy_calls ten 9 default_policy
      (pos 2)
      none
      (record { region = tokyo; available_servers = pos 2 } ∷ [])
    ≡ some their_region
unfolding best_region_offer better_of
best_lem = rw (best_region_offer, offer_lem) refl

region_lem :
    select_server_region none greedy_calls one_region ten 9 default_policy ≡ ok their_region
unfolding select_server_region max_available_of
region_lem = rw (select_server_region, capacities_lem, normalized_lem, best_lem) refl

select_server_region-Suits_example : Suits one_region greedy_calls ten 9 default_policy their_region
select_server_region-Suits_example =
    select_server_region-Suits none greedy_calls one_region ten 9 default_policy their_region
      region_lem

abbrev two_waiting : World
two_waiting = record { matches = []; tickets = stocked; servers = one_region }

abbrev pub opened_m1 : Match
opened_m1 = record {
  params = record m1_params { id = codes "m1" };
  progress = record {
    state = ready;
    server_address = codes "tokyo.game.matchmind.local:7000";
    connection_token = codes "token";
    result = none;
    revision = pos 3;
    updated_at = 8;
  };
}

abbrev pub alive : RoundContexts
alive = record {
  reserving = none;
  creating = none;
  updating = none;
  allocating = none;
  assigning = none;
  finishing = none;
  returning = none;
  reading = none;
  failing = none;
  releasing = none;
}

-- The context is cancelled once the tickets are reserved.
abbrev cut_short : RoundContexts
cut_short = record alive { creating = some (external 1); releasing = some (external 1) }

abbrev cut_off : World × Result Match
cut_off = settle cut_short two_waiting (codes "r1") both 40 m1_params (ok (codes "token")) 8

settle-unreserved_example :
    Inv cut_off.0.tickets
    × ((j : Text) (t : MatchTicket)
        → lookup j cut_off.0.tickets.tickets ≡ some t
        → is_reserved t.state ≡ true
        → t.reservation_id ≡ codes "r1"
        → (is_some cut_short.releasing ≡ true) × (t.reservation_expires_at ≡ 40))
unfolding lookup trim_space
settle-unreserved_example =
    settle-unreserved cut_short two_waiting (codes "r1") both 40 m1_params (ok (codes "token")) 8
      stocked-Inv refl refl

abbrev settled : World × Result Match
settled = settle alive two_waiting (codes "r1") both 40 m1_params (ok (codes "token")) 8

settled_lem : settled ≡ (settled.0, ok opened_m1)
unfolding settle match_mind.Worker.open_match match_mind.Worker.allocate_match
    match_mind.Worker.assign_match match_mind.MatchStore.create match_mind.MatchStore.update
    match_mind.Match.start_allocation match_mind.Match.mark_ready match_mind.Match.next_revision
    match_mind.Allocator.allocate match_mind.Allocator.used match_mind.Base.lookup
    match_mind.Base.insert match_mind.Base.Int.◌+ℤ◌ match_mind.Base.Int.◌-ℤ◌
    match_mind.Text.trim_space match_mind.Text.to_lower match_mind.Text.text_beq
    match_mind.TicketStore.assign_all match_mind.TicketStore.change_each
    match_mind.TicketStore.put_all match_mind.TicketStore.remove_all
    match_mind.TicketStore.clone_tickets match_mind.Ticket.assign
settled_lem = rw (reserve_lem, new_m1, settle) refl

settle-Opened_example : Opened two_waiting settled.0 both opened_m1
unfolding lookup trim_space
settle-Opened_example =
    settle-Opened alive two_waiting settled.0 (codes "r1") both 40 m1_params (ok (codes "token")) 8
      opened_m1 stocked-Inv refl refl settled_lem
