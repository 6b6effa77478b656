-- ===== src/Match/Transitions.antt =====
-- match.go: the methods that move a match through its states. Each checks before it writes.
use match_mind.Base.{
  Bool, Result, false, if◌then◌else◌, illegal_match_transition, invalid_match, not, ok, reject_if,
  some, true, ◌-◌, ◌>>◌, ◌^◌, ◌||◌,
}
use match_mind.Base.Int.{negsuc, pos, ℤ, ◌+ℤ◌, int_beq}
use match_mind.Clock.{Time, utc}
use match_mind.Match.Creation.{validate_match_result}
use match_mind.Match.Types.{
  MatchState, MatchResult, Match, created, allocating, ready, running, finished, failed,
  unknown_state,
}
use match_mind.Text.{Text, is_empty, text_beq, trim_space}

abbrev pub state_beq : MatchState → MatchState → Bool
state_beq created created = true
state_beq allocating allocating = true
state_beq ready ready = true
state_beq running running = true
state_beq finished finished = true
state_beq failed failed = true
state_beq (unknown_state s) (unknown_state t) = text_beq s t
state_beq _ _ = false

-- `m.revision++` on an int64, which wraps round.
unfoldable pub next_revision : ℤ → ℤ
next_revision r = if int_beq r (pos (2 ^ 63 - 1)) then negsuc (2 ^ 63 - 1) else r +ℤ pos 1

-- The writes that the transitions share.
unfoldable pub move : Match → MatchState → Time → Match
move m state now = record m {
  progress = record m.progress {
    state = state;
    revision = next_revision m.revision;
    updated_at = utc now;
  };
}

unfoldable pub transition : Match → MatchState → MatchState → Time → Result Match
unfolding move
transition m from to now = do
  reject_if (not (state_beq m.state from)) illegal_match_transition
  ok (move m to now)

unfoldable pub start_allocation : Match → Time → Result Match
unfolding transition
start_allocation m now = transition m created allocating now

unfoldable pub mark_ready : Match → Text → Text → Time → Result Match
unfolding move
mark_ready m address token now = do
  reject_if (not (state_beq m.state allocating)) illegal_match_transition
  let server_address = trim_space address
  let connection_token = trim_space token
  reject_if (is_empty server_address || is_empty connection_token) invalid_match
  ok (
      move
        (record m {
          progress = record m.progress {
            server_address = server_address;
            connection_token = connection_token;
          };
        })
        ready now)

unfoldable pub start : Match → Time → Result Match
unfolding transition
start m now = transition m ready running now

unfoldable pub complete : Match → MatchResult → Time → Result Match
unfolding move
complete m result now = if state_beq m.state finished then ok m else do
  reject_if (not (state_beq m.state running)) illegal_match_transition
  validate_match_result result
  ok (move (record m { progress = record m.progress { result = some result } }) finished now)

abbrev pub can_fail : MatchState → Bool
can_fail created = true
can_fail allocating = true
can_fail ready = true
can_fail running = true
can_fail _ = false

unfoldable pub fail : Match → Time → Result Match
unfolding move
fail m now = do reject_if (not (can_fail m.state)) illegal_match_transition; ok (move m failed now)
