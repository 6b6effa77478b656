-- ===== src/TicketStore/Effects.antt =====
-- What the loops over a reservation's tickets do to the map of tickets.
use mathlib.Core.Option
use match_mind.Base.{
  List, Option, Result, [], arith, contains, if◌then◌else◌, insert, lookup, lookup-insert, none, ok,
  refl, some, true, ◌∷◌, ◌≡◌, Bool-cases, Error, Option-cases, Result-cases, err, inl, inr,
  reservation_conflict, ◌==◌,
}
use match_mind.Clock.{Time, zero_time}
use match_mind.Text.{Text, text_beq_iff, text_eq, trim_space}
use match_mind.Ticket.{
  MatchTicket, queued, reserved, assigned, reserve, release_reservation, assign, is_queue_candidate,
}
use match_mind.TicketStore.{Tickets, put_all, reserve_each, change_each}

-- A ticket with the reservation that `ReserveAll` gives it.
abbrev pub with_reservation : Text → Time → Time → MatchTicket → MatchTicket
with_reservation id expires_at now t = record t {
  progress = record {
    state = reserved;
    updated_at = now;
    reservation_id = id;
    reservation_expires_at = expires_at;
    match_id = t.match_id;
  };
}

-- A ticket back in the queue.
abbrev pub requeued : Time → MatchTicket → MatchTicket
requeued now t = record t {
  progress = record {
    state = queued;
    updated_at = now;
    reservation_id = [];
    reservation_expires_at = zero_time;
    match_id = t.match_id;
  };
}

abbrev pub with_match : Text → Time → MatchTicket → MatchTicket
with_match match_id now t = record t {
  progress = record t.progress { state = assigned; updated_at = now; match_id = match_id };
}

pub lookup-put_all :
    (j : Text) (updated tickets : Tickets)
    → lookup j (put_all updated tickets)
      ≡ (elim (lookup j updated) [ none ↦ lookup j tickets | some t ↦ some t ])
unfolding put_all lookup
lookup-put_all j [] tickets = refl
lookup-put_all j ((id, t) ∷ updated) tickets =
    ground (arith, lookup-insert id j t (put_all updated tickets), lookup-put_all j updated tickets)

-- The tickets of `ids` as `change` leaves them, and the others as they were.
abbrev pub changed :
    (MatchTicket → MatchTicket) → List Text → Tickets → Tickets → Text → Option MatchTicket
changed g ids tickets others j =
    if contains j ids then Option.map g (lookup j tickets) else lookup j others

module _ (change : MatchTicket → Result MatchTicket) (g : MatchTicket → MatchTicket)
    (tickets : Tickets) where
  pub change_each-changed :
      ((t u : MatchTicket) → change t ≡ ok u → u ≡ g t)
      → (updated : Tickets) (ids : List Text) (result : Tickets) (j : Text)
      → change_each change tickets updated ids ≡ ok result
      → lookup j result ≡ changed g ids tickets updated j
  unfolding change_each contains
  change_each-changed k updated [] result j h = ground arith
  change_each-changed k updated (id ∷ ids) result j h = elim (Option-cases (lookup id tickets)) [
    | inl missing ↦ ground arith
    | inr (t, found) ↦ elim (Result-cases (change t)) [
      | inr (e, refused) ↦ ground arith
      | inl (u, done) ↦ ground (
        arith,
        k t u,
        change_each-changed k (insert id u updated) ids result j,
        lookup-insert id j u updated,
        text_beq_iff id j,
      )
    ]
  ]

  pub change_each_total :
      (updated : Tickets) (ids : List Text)
      → ((j : Text)
          → contains j ids ≡ true
          → (t : MatchTicket) × (lookup j tickets ≡ some t) × (change t ≡ ok (g t)))
      → (result : Tickets) × (change_each change tickets updated ids ≡ ok result)
  unfolding change_each contains
  change_each_total updated [] h = (updated, refl)
  change_each_total updated (id ∷ ids) h =
      let (t, found, done) = h id (ground (arith, text_beq_iff id id)) in
      let (result, rest) =
        change_each_total (insert id (g t) updated) ids (λ j c. h j (ground arith)) in
      (result, rw (found, done) rest)

-- Every method but `reserve` that the loops call does the same at each ticket that it accepts.
pub release-requeued :
    (id : Text) (now : Time) (t u : MatchTicket)
    → release_reservation t id now ≡ ok u
    → u ≡ requeued now t
unfolding release_reservation
release-requeued id now t u h = ground arith

pub assign-with_match :
    (id match_id : Text) (now : Time) (t u : MatchTicket)
    → assign t id match_id now ≡ ok u
    → u ≡ with_match (trim_space match_id) now t
unfolding assign
assign-with_match id match_id now t u h = ground arith

pub reserve-with_reservation :
    (id : Text) (expires_at now : Time) (t u : MatchTicket)
    → trim_space id ≡ id
    → reserve t id expires_at now ≡ ok u
    → u ≡ with_reservation id expires_at now t
unfolding reserve
reserve-with_reservation id expires_at now t u h k = ground arith

-- `ReserveAll`'s loop: it accepts queued tickets only, and only tickets of `ids` get the reservation.
module _ (tickets : Tickets) (id : Text) (expires_at now : Time)
    (trimmed : trim_space id ≡ id) where
  pub reserve_each-changed :
      (updated : Tickets) (seen ids : List Text) (result : Tickets) (j : Text)
      → reserve_each tickets id expires_at now updated seen ids ≡ ok result
      → lookup j result ≡ changed (with_reservation id expires_at now) ids tickets updated j
  unfolding reserve_each contains
  reserve_each-changed updated seen [] result j h = ground arith
  reserve_each-changed updated seen (i ∷ ids) result j h = elim (Option-cases (lookup i tickets)) [
    | inl missing ↦ ground arith
    | inr (t, found) ↦ elim (Result-cases (reserve t id expires_at now)) [
      | inr (e, refused) ↦ ground arith
      | inl (u, done) ↦ ground (
        arith,
        reserve-with_reservation id expires_at now t u trimmed done,
        reserve_each-changed (insert i u updated) (t.player_id ∷ seen) ids result j,
        lookup-insert i j u updated,
        text_beq_iff i j,
      )
    ]
  ]

  pub reserve_each-candidates :
      (updated : Tickets) (seen ids : List Text) (result : Tickets) (j : Text)
      → reserve_each tickets id expires_at now updated seen ids ≡ ok result
      → contains j ids ≡ true
      → (t : MatchTicket) × (lookup j tickets ≡ some t) × (is_queue_candidate t ≡ true)
  unfolding reserve_each contains
  reserve_each-candidates updated seen [] result j h c = ground arith
  reserve_each-candidates updated seen (i ∷ ids) result j h c =
      elim (Option-cases (lookup i tickets)) [
        | inl missing ↦ ground arith
        | inr (t, found) ↦ elim (Result-cases (reserve t id expires_at now)) [
          | inr (e, refused) ↦ ground arith
          | inl (u, done) ↦ elim (Bool-cases (i == j)) [
            | inl same ↦ (t, ground (arith, text_beq_iff i j), ground arith)
            | inr other ↦
                reserve_each-candidates (insert i u updated) (t.player_id ∷ seen) ids result j
                  (ground arith) (ground arith)
          ]
        ]
      ]

  -- The only error of the loop is a conflict.
  pub reserve_each_error :
      (updated : Tickets) (seen ids : List Text) (e : Error)
      → reserve_each tickets id expires_at now updated seen ids ≡ err e
      → e ≡ reservation_conflict
  unfolding reserve_each
  reserve_each_error updated seen [] e h = ground arith
  reserve_each_error updated seen (i ∷ ids) e h = elim (Option-cases (lookup i tickets)) [
    | inl missing ↦ ground arith
    | inr (t, found) ↦ elim (Result-cases (reserve t id expires_at now)) [
      | inr (x, refused) ↦ ground arith
      | inl (u, done) ↦
          ground (arith, reserve_each_error (insert i u updated) (t.player_id ∷ seen) ids e)
    ]
  ]
