-- ===== src/MatchService.antt =====
-- internal/matchmaking/application/match_service.go over the stores in memory and the local allocator. The
-- match store in memory is no MatchCompletionCoordinator, so a completion writes the match and then releases
-- the tickets; the completer and the releaser are set. A call that fails after its first write keeps what it
-- has written, so the world comes back beside the result.
pub mod Completing
use match_mind.Allocator.{release, LocalAllocator}
use match_mind.Base.{
  match_revision_conflict, Context, Error, Option, Result, err, if◌then◌else◌, none, ok, some,
}
use match_mind.Clock.{Time}
use match_mind.Match.{start, complete, running, finished, Match, MatchResult, MatchState, state_beq}
use match_mind.MatchStore.{get, update, MatchStore}
use match_mind.Text.{Text, trim_space}
use match_mind.TicketStore.{TicketStore, complete_assigned_tickets}

pub record World : Type 0 where
  pub matches : MatchStore
  pub tickets : TicketStore
  pub servers : LocalAllocator

-- What other clients do between a read and the write that follows it.
abbrev pub Interference : Type 0
Interference = World → World

unfoldable pub get_match : Context → World → Text → Result Match
get_match ctx w match_id = get ctx w.matches (trim_space match_id)

-- A revision conflict is no error where another client has brought the match to the state.
unfoldable pub met_goal : Context → World → Text → MatchState → Error → Option Match
met_goal ctx w match_id goal cause = elim cause [
  | match_revision_conflict ↦ elim (get_match ctx w match_id) [
    | err e ↦ none
    | ok current ↦ if state_beq current.state goal then some current else none
  ]
  | _ ↦ none
]

-- The write of `StartMatch`.
unfoldable pub write_started : Context → World → Text → Match → World × Result Match
write_started ctx w match_id n = elim (update ctx w.matches n) [
  | ok matches ↦ (record w { matches = matches }, ok n)
  | err e ↦ elim (met_goal ctx w match_id running e) [
    | some current ↦ (w, ok current)
    | none ↦ (w, err e)
  ]
]

unfoldable pub start_match : Context → World → Interference → Text → Time → World × Result Match
start_match ctx w other match_id now = elim (get_match ctx w match_id) [
  | err e ↦ (w, err e)
  | ok m ↦
      if state_beq m.state running
      then (w, ok m)
      else elim (start m now) [ err e ↦ (w, err e) | ok n ↦ write_started ctx (other w) match_id n ]
]

unfoldable pub release_server : Context → World → Match → World × Result (Unit {0})
release_server ctx w m = elim (release ctx w.servers m.id) [
  | ok servers ↦ (record w { servers = servers }, ok tt)
  | err e ↦ (w, err e)
]

-- The end of `CompleteMatch` on every path that succeeds: release the tickets and then the server.
unfoldable pub conclude : Context → World → Match → World × Result Match
conclude ctx w m = elim (complete_assigned_tickets ctx w.tickets m.id) [
  | err e ↦ (w, err e)
  | ok tickets ↦
      let (w', released) = release_server ctx (record w { tickets = tickets }) m in
      (w', elim released [ ok u ↦ ok m | err e ↦ err e ])
]

unfoldable pub resolve_completion_conflict : Context → World → Text → Error → World × Result Match
resolve_completion_conflict ctx w match_id cause = elim (met_goal ctx w match_id finished cause) [
  | none ↦ (w, err cause)
  | some current ↦ conclude ctx w current
]

unfoldable pub write_completed : Context → World → Text → Match → World × Result Match
write_completed ctx w match_id n = elim (update ctx w.matches n) [
  | ok matches ↦ conclude ctx (record w { matches = matches }) n
  | err e ↦ resolve_completion_conflict ctx w match_id e
]

unfoldable pub complete_match :
    Context → World → Interference → Text → MatchResult → Time → World × Result Match
complete_match ctx w other match_id result now = elim (get_match ctx w match_id) [
  | err e ↦ (w, err e)
  | ok m ↦ if state_beq m.state finished then conclude ctx w m else elim (complete m result now) [
    | err e ↦ (w, err e)
    | ok n ↦ write_completed ctx (other w) match_id n
  ]
]
