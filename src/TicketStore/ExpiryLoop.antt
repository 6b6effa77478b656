-- ===== src/TicketStore/ExpiryLoop.antt =====
-- The loop of `RecoverExpiredReservations` over all reservations.
use match_mind.Base.{
  Bool-cases, List, Map, [], arith, contains, contains-lookup, distinct, false, inl, inr, keys,
  lookup, lookup-tail, none, refl, some, true, ◌==◌, ◌∷◌, ◌≡◌,
}
use match_mind.Clock.{Time, after}
use match_mind.Text.{Text, text_beq_iff, text_eq}
use match_mind.Ticket.{MatchTicket}
use match_mind.TicketStore.{
  TicketStore, Recovery, recover_reservation, recover_loop, recover_expired_reservations,
}
use match_mind.TicketStore.Expiry.{Turn, recover_reservation-Turn}
use match_mind.TicketStore.Invariant.{Inv, Reserved, Indexed}

record Done (now : Time) (active : Map Text Text) (r : Recovery) (rest : Map Text (List Text))
    (r' : Recovery) : Type 0 where
  no_failure : r'.failure ≡ none
  reserved_part : Reserved r'.tickets r'.reservations
  indexed_part : Indexed r'.tickets active
  others :
      (q : Text)
      → contains q (keys rest) ≡ false
      → lookup q r'.reservations ≡ lookup q r.reservations
  frame :
      (q : Text) (ids : List Text) (j : Text)
      → contains q (keys rest) ≡ false
      → lookup q r.reservations ≡ some ids
      → contains j ids ≡ true
      → lookup j r'.tickets ≡ lookup j r.tickets
  pending :
      (q : Text) (ids : List Text) (j : Text) (t : MatchTicket)
      → contains q (keys rest) ≡ true
      → lookup q r'.reservations ≡ some ids
      → contains j ids ≡ true
      → lookup j r'.tickets ≡ some t
      → after t.reservation_expires_at now ≡ true

Turn-Done :
    (now : Time) (active : Map Text Text) (r r1 r' : Recovery) (k : Text) (ids : List Text)
    (rest : Map Text (List Text))
    → contains k (keys rest) ≡ false
    → Turn now active r k r1
    → Done now active r1 rest r'
    → Done now active r ((k, ids) ∷ rest) r'
unfolding contains
Turn-Done now active r r1 r' k ids rest new turn done = record {
  no_failure = done.no_failure;
  reserved_part = done.reserved_part;
  indexed_part = done.indexed_part;
  others = λ q ne. ground (arith, done.others q, turn.others q);
  frame = λ q l j ne h m. ground (arith, done.frame q l j, turn.others q, turn.frame q l j);
  pending = λ q l j t m h m' found. elim (Bool-cases (k == q)) [
    | inr ne ↦ done.pending q l j t (ground arith) h m' found
    | inl same ↦
        let e : k ≡ q = (text_beq_iff k q).0 same in
        let h' : lookup k r1.reservations ≡ some l = ground (arith, done.others k) in
        turn.pending l j t h' m' (ground (arith, done.frame k l j))
  ];
}

recover_loop-Done :
    (now : Time) (active : Map Text Text) (r : Recovery) (rest : Map Text (List Text))
    → r.failure ≡ none
    → Reserved r.tickets r.reservations
    → Indexed r.tickets active
    → distinct (keys rest) ≡ true
    → ((q : Text) (l : List Text) → lookup q rest ≡ some l → lookup q r.reservations ≡ some l)
    → Done now active r rest (recover_loop now r rest)
unfolding recover_loop contains distinct lookup
recover_loop-Done now active r [] f v w d sub = record {
  no_failure = f;
  reserved_part = v;
  indexed_part = w;
  others = λ q ne. refl;
  frame = λ q l j ne h m. refl;
  pending = λ q l j t m h m' found. absurd (ground arith);
}
recover_loop-Done now active r ((k, ids) ∷ rest) f v w d sub =
    let turn =
      recover_reservation-Turn now active r k ids f v w
        (sub k ids (ground (arith, text_beq_iff k k))) in
    let r1 = recover_reservation now r k ids in
    let done =
      recover_loop-Done now active r1 rest turn.no_failure turn.reserved_part turn.indexed_part
        (ground arith)
        (λ q l h. ground (
          arith,
          turn.others q,
          sub q l,
          lookup-tail k ids q l rest,
          contains-lookup q l rest,
          text_beq_iff k q,
        )) in
    rw (turn.no_failure, recover_loop)
      (Turn-Done now active r r1 _ k ids rest (ground arith) turn done)

-- The recovery's loop before its first turn.
abbrev start_of : TicketStore → Recovery
start_of s = record {
  tickets = s.tickets;
  reservations = s.reservations;
  recovered = 0;
  failure = none;
}

module _ (s : TicketStore) (now : Time) (v : Inv s) where
  recovery-Done :
      Done now s.active_by_player
        (start_of s)
        s.reservations
        (recover_loop now (start_of s) s.reservations)
  recovery-Done =
      recover_loop-Done now s.active_by_player (start_of s) s.reservations refl v.reserved_part
        v.indexed_part v.reserved_part.unique (λ q l h. h)

-- On a store that satisfies the invariant, the recovery of expired reservations reports no error and
-- leaves a store that satisfies the invariant.
pub recover_total :
    (s : TicketStore) (now : Time)
    → Inv s
    → ((recover_expired_reservations none s now).2 ≡ none)
      × Inv (recover_expired_reservations none s now).0
unfolding recover_expired_reservations
recover_total s now v =
    let done = recovery-Done s now v in
    (
      done.no_failure,
      record { reserved_part = done.reserved_part; indexed_part = done.indexed_part },
    )

-- On a store that satisfies the invariant, every ticket of a reservation that is still recorded after the
-- recovery at `now` has a reservation that expires after `now`.
pub recover_pending :
    (s : TicketStore) (now : Time) (q : Text) (ids : List Text) (j : Text) (t : MatchTicket)
    → Inv s
    → lookup q (recover_expired_reservations none s now).0.reservations ≡ some ids
    → contains j ids ≡ true
    → lookup j (recover_expired_reservations none s now).0.tickets ≡ some t
    → after t.reservation_expires_at now ≡ true
unfolding recover_expired_reservations
recover_pending s now q ids j t v h m found =
    let done = recovery-Done s now v in
    elim (Bool-cases (contains q (keys s.reservations))) [
      | inl old ↦ done.pending q ids j t old h m found
      | inr new ↦ absurd (ground (arith, done.others q new, contains-lookup q ids s.reservations))
    ]
