-- ===== src/Ticket/Lifecycle.antt =====
-- The state diagram of a ticket.
use match_mind.Base.{Bool, arith, false, refl, true, ◌∙◌, ◌≡◌}
use match_mind.Ticket.{
  MatchTicket, TicketState, created, queued, reserved, queue, cancel, expire, fail, reserve, assign,
  release_reservation, release_expired_reservation,
}
use match_mind.Ticket.History.{
  Step, History, queues, cancels, expires, fails, reserves, assigns, releases, releases_expired,
  here, followed_by,
}

abbrev is_terminal : TicketState → Bool
is_terminal created = false
is_terminal queued = false
is_terminal reserved = false
is_terminal _ = true

terminal-Step : {t u : MatchTicket} → is_terminal t.state ≡ true → Step t u → u ≡ t
unfolding queue cancel expire fail reserve assign release_reservation release_expired_reservation
terminal-Step z (queues now h e) = ground arith
terminal-Step z (cancels now h e) = ground arith
terminal-Step z (expires now h e) = ground arith
terminal-Step z (fails now h e) = ground arith
terminal-Step z (reserves id expires_at now h e) = ground arith
terminal-Step z (assigns id match_id now h e) = ground arith
terminal-Step z (releases id now h e) = ground arith
terminal-Step z (releases_expired now h e) = ground arith

-- A ticket in a state other than CREATED, QUEUED and RESERVED is unchanged after any sequence of
-- successful calls, each at a time not before its creation.
pub terminal-History : {t u : MatchTicket} → is_terminal t.state ≡ true → History t u → u ≡ t
terminal-History z here = refl
terminal-History z (followed_by r s) = let e = terminal-History z r in terminal-Step (rw e z) s ∙ e
