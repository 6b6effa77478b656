-- ===== src/Ticket/Transitions.antt =====
-- ticket.go: the methods that move a ticket through its states. Each checks before it writes, so a method
-- that fails leaves its receiver as it was; here it returns the new ticket.
use match_mind.Base.{
  Bool, Result, false, if◌then◌else◌, illegal_state_transition, invalid_ticket, not, ok, reject_if,
  reservation_mismatch, reservation_not_expired, true, ◌&&◌, ◌==◌, ◌>>◌, ◌||◌, [],
}
use match_mind.Clock.{Time, after, before, is_zero, utc, zero_time}
use match_mind.Text.{Text, is_empty, trim_space, text_eq}
use match_mind.Ticket.Types.{
  TicketState, created, queued, reserved, assigned, cancelled, expired, failed, MatchTicket,
}

unfoldable pub transition : MatchTicket → TicketState → Time → MatchTicket
transition t state now = record t {
  progress = record t.progress { state = state; updated_at = utc now };
}

unfoldable pub clear_reservation : MatchTicket → MatchTicket
clear_reservation t = record t {
  progress = record t.progress { reservation_id = []; reservation_expires_at = zero_time };
}

abbrev pub is_queue_candidate_state : TicketState → Bool
is_queue_candidate_state queued = true
is_queue_candidate_state _ = false

abbrev pub is_created : TicketState → Bool
is_created created = true
is_created _ = false

abbrev pub is_reserved : TicketState → Bool
is_reserved reserved = true
is_reserved _ = false

abbrev pub is_assigned : TicketState → Bool
is_assigned assigned = true
is_assigned _ = false

abbrev pub is_cancelled : TicketState → Bool
is_cancelled cancelled = true
is_cancelled _ = false

abbrev pub is_queue_candidate : MatchTicket → Bool
is_queue_candidate t = is_queue_candidate_state t.state

abbrev pub is_active : MatchTicket → Bool
is_active t = elim t.state [
  | created ↦ true
  | queued ↦ true
  | reserved ↦ true
  | assigned ↦ true
  | _ ↦ false
]

unfoldable pub queue : MatchTicket → Time → Result MatchTicket
unfolding transition
queue t now = do
  reject_if (not (is_created t.state)) illegal_state_transition
  ok (transition t queued now)

unfoldable pub cancel : MatchTicket → Time → Result MatchTicket
unfolding transition clear_reservation
cancel t now = if is_cancelled t.state then ok t else do
  reject_if (not (is_created t.state) && not (is_queue_candidate t)) illegal_state_transition
  ok (transition (clear_reservation t) cancelled now)

unfoldable pub expire : MatchTicket → Time → Result MatchTicket
unfolding transition
expire t now = do
  reject_if (not (is_queue_candidate t)) illegal_state_transition
  ok (transition t expired now)

unfoldable pub fail : MatchTicket → Time → Result MatchTicket
unfolding transition clear_reservation
fail t now = do
  reject_if (not (is_created t.state) && not (is_queue_candidate t) && not (is_reserved t.state))
      illegal_state_transition
  ok (transition (clear_reservation t) failed now)

unfoldable pub reserve : MatchTicket → Text → Time → Time → Result MatchTicket
unfolding transition
reserve t reservation_id expires_at now = do
  let id = trim_space reservation_id
  reject_if (not (is_queue_candidate t)) illegal_state_transition
  reject_if (is_empty id || is_zero expires_at || not (after expires_at now)) invalid_ticket
  ok (
      transition
        (record t {
          progress = record t.progress {
            reservation_id = id;
            reservation_expires_at = utc expires_at;
          };
        })
        reserved now)

unfoldable pub assign : MatchTicket → Text → Text → Time → Result MatchTicket
unfolding transition
assign t reservation_id match_id now = do
  reject_if (not (is_reserved t.state)) illegal_state_transition
  reject_if (is_empty reservation_id || not (reservation_id == t.reservation_id))
      reservation_mismatch
  let id = trim_space match_id
  reject_if (is_empty id) invalid_ticket
  ok (transition (record t { progress = record t.progress { match_id = id } }) assigned now)

unfoldable pub release_reservation : MatchTicket → Text → Time → Result MatchTicket
unfolding transition clear_reservation
release_reservation t reservation_id now = do
  reject_if (not (is_reserved t.state)) illegal_state_transition
  reject_if (is_empty reservation_id || not (reservation_id == t.reservation_id))
      reservation_mismatch
  ok (transition (clear_reservation t) queued now)

unfoldable pub release_expired_reservation : MatchTicket → Time → Result MatchTicket
unfolding transition clear_reservation
release_expired_reservation t now = do
  reject_if (not (is_reserved t.state)) illegal_state_transition
  reject_if (before now t.reservation_expires_at) reservation_not_expired
  ok (transition (clear_reservation t) queued now)
