-- ===== src/Examples/Completions.antt =====
-- The end of a match.
use match_mind.Base.{[], arith, delete, false, lookup, none, ok, refl, some, ◌∷◌, ◌≡◌}
use match_mind.Base.Int.{pos}
use match_mind.Examples.Data.{ana, stocked}
use match_mind.Examples.Matches.{ready_m1}
use match_mind.Float64.{float}
use match_mind.Match.{running, finished, team_a, Match, MatchResult}
use match_mind.MatchService.{World, complete_match}
use match_mind.MatchService.Completing.{Closed, Named, complete_match-Closed, complete_match_retry}
use match_mind.Text.{codes, text_beq_iff, text_eq}
use match_mind.Ticket.{assigned, MatchTicket}

abbrev running_m1 : Match
running_m1 = record ready_m1 { progress = record ready_m1.progress { state = running } }

abbrev outcome : MatchResult
outcome = record {
  winning_team = team_a;
  random_seed = pos 7;
  duration_seconds = pos 1800;
  score_a = pos 20;
  score_b = pos 10;
  max_advantage = float 5000;
  has_afk = false;
  surrendered = false;
  one_sided = false;
  actual_quality_score = float 80;
}

abbrev finished_m1 : Match
finished_m1 = record running_m1 {
  progress = record running_m1.progress {
    state = finished;
    result = some outcome;
    revision = pos 4;
    updated_at = 20;
  };
}

abbrev playing_ana : MatchTicket
playing_ana = record ana {
  progress = record ana.progress { state = assigned; match_id = codes "m1" };
}

abbrev playing : World
playing = record {
  matches = (codes "m1", running_m1) ∷ [];
  tickets = record stocked { tickets = (codes "t1", playing_ana) ∷ [] };
  servers = record {
    capacities = (codes "tokyo", pos 2) ∷ [];
    allocations =
        (
          codes "m1",
          record {
            region = codes "tokyo";
            allocation = record { address = codes "host:7000"; token = codes "token" };
          },
        )
        ∷ [];
  };
}

abbrev played_out : World
played_out = record playing {
  matches = (codes "m1", finished_m1) ∷ [];
  tickets = record playing.tickets {
    active_by_player = delete (codes "ana") playing.tickets.active_by_player;
  };
  servers = record playing.servers { allocations = [] };
}

playing-Named : Named playing
unfolding lookup
playing-Named id m h = ground (arith, text_beq_iff (codes "m1") id)

completed_lem :
    complete_match none playing (λ w. w) (codes " m1") outcome 20 ≡ (played_out, ok finished_m1)
unfolding complete_match match_mind.MatchService.get_match match_mind.MatchStore.get lookup
    match_mind.Text.text_beq match_mind.Text.trim_space match_mind.Match.complete
    match_mind.Match.validate_match_result match_mind.Match.valid_result match_mind.Float64.float_lt
    match_mind.Float64.unit match_mind.Float64.float_le match_mind.MatchService.write_completed
    match_mind.MatchStore.update match_mind.Match.next_revision match_mind.Base.Int.◌+ℤ◌
    match_mind.MatchService.conclude match_mind.Allocator.release delete match_mind.Base.insert
    match_mind.Match.move match_mind.MatchService.met_goal match_mind.MatchService.release_server
    match_mind.MatchService.resolve_completion_conflict
    match_mind.TicketStore.complete_assigned_tickets match_mind.TicketStore.complete_each
completed_lem = refl

complete_match-Closed_example : Closed played_out finished_m1
complete_match-Closed_example =
    complete_match-Closed none playing played_out (λ w. w) (codes " m1") outcome 20 finished_m1
      playing-Named playing-Named completed_lem

complete_match_retry_example :
    (w : World) × (complete_match none played_out (λ w. w) (codes "m1") outcome 30
      ≡ (w, ok finished_m1))
    × (w.matches ≡ played_out.matches)
    × Closed w finished_m1
unfolding match_mind.Text.trim_space
complete_match_retry_example =
    complete_match_retry played_out (λ w. w) (codes "m1") outcome 30 finished_m1
      complete_match-Closed_example refl refl
