-- ===== src/Ticket/History.antt =====
-- The calls that a ticket sees in its life, as a step relation: each constructor is a method that
-- succeeds at a time not before the ticket's creation.
use match_mind.Base.{arith, ok, refl, true, ◌∙◌, ◌≡◌, ◌≤◌}
use match_mind.Clock.{Time}
use match_mind.Text.{Text, trim_space, trim_space_idem}
use match_mind.Ticket.{
  MatchTicket, queue, cancel, expire, fail, reserve, assign, release_reservation,
  release_expired_reservation, reservation_fits,
}

pub data Step (t : MatchTicket) : MatchTicket → Type 0 where
  queues : {u : MatchTicket} (now : Time) → t.created_at ≤ now → queue t now ≡ ok u → Step t u
  cancels : {u : MatchTicket} (now : Time) → t.created_at ≤ now → cancel t now ≡ ok u → Step t u
  expires : {u : MatchTicket} (now : Time) → t.created_at ≤ now → expire t now ≡ ok u → Step t u
  fails : {u : MatchTicket} (now : Time) → t.created_at ≤ now → fail t now ≡ ok u → Step t u
  reserves :
      {u : MatchTicket} (id : Text) (expires_at now : Time)
      → t.created_at ≤ now
      → reserve t id expires_at now ≡ ok u
      → Step t u
  assigns :
      {u : MatchTicket} (id match_id : Text) (now : Time)
      → t.created_at ≤ now
      → assign t id match_id now ≡ ok u
      → Step t u
  releases :
      {u : MatchTicket} (id : Text) (now : Time)
      → t.created_at ≤ now
      → release_reservation t id now ≡ ok u
      → Step t u
  releases_expired :
      {u : MatchTicket} (now : Time)
      → t.created_at ≤ now
      → release_expired_reservation t now ≡ ok u
      → Step t u

pub data History (t : MatchTicket) : MatchTicket → Type 0 where
  here : History t t
  followed_by : {u v : MatchTicket} → History t u → Step u v → History t v

-- What holds of a ticket between two calls: its reservation data is that of its state, and its texts have
-- no spaces round them.
pub record IsConsistent (t : MatchTicket) : Type 0 where
  pub fits : reservation_fits t.state t.reservation_id t.reservation_expires_at t.match_id ≡ true
  pub reservation_trimmed : trim_space t.reservation_id ≡ t.reservation_id
  pub match_trimmed : trim_space t.match_id ≡ t.match_id
  pub updated : t.created_at ≤ t.updated_at

-- A successful call at a time not before the creation keeps the ticket consistent: its reservation data is
-- that of its state, its reservation and match IDs have no spaces round them, and it was not updated
-- before it was created.
pub Step-IsConsistent : {t u : MatchTicket} → Step t u → IsConsistent t → IsConsistent u
unfolding reservation_fits queue cancel expire fail reserve assign release_reservation
    release_expired_reservation trim_space
Step-IsConsistent (queues now h e) c = ground arith
Step-IsConsistent (cancels now h e) c = ground arith
Step-IsConsistent (expires now h e) c = ground arith
Step-IsConsistent (fails now h e) c = ground arith
Step-IsConsistent (reserves id expires_at now h e) c = ground (arith, trim_space_idem id)
Step-IsConsistent (assigns id match_id now h e) c = ground (arith, trim_space_idem match_id)
Step-IsConsistent (releases id now h e) c = ground arith
Step-IsConsistent (releases_expired now h e) c = ground arith

-- No call changes what the ticket was created with.
pub Step-params : {t u : MatchTicket} → Step t u → u.params ≡ t.params
unfolding queue cancel expire fail reserve assign release_reservation release_expired_reservation
Step-params (queues now h e) = ground arith
Step-params (cancels now h e) = ground arith
Step-params (expires now h e) = ground arith
Step-params (fails now h e) = ground arith
Step-params (reserves id expires_at now h e) = ground arith
Step-params (assigns id match_id now h e) = ground arith
Step-params (releases id now h e) = ground arith
Step-params (releases_expired now h e) = ground arith

pub History-IsConsistent : {t u : MatchTicket} → IsConsistent t → History t u → IsConsistent u
History-IsConsistent c here = c
History-IsConsistent c (followed_by r s) = Step-IsConsistent s (History-IsConsistent c r)

pub History-params : {t u : MatchTicket} → History t u → u.params ≡ t.params
History-params here = refl
History-params (followed_by r s) = Step-params s ∙ History-params r
