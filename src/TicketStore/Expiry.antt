-- ===== src/TicketStore/Expiry.antt =====
-- `RecoverExpiredReservations` in a store that satisfies the invariant: it does not fail, and what it leaves
-- recorded has not expired.
use match_mind.Base.{
  List, [], arith, contains, distinct, distinct-insert, false, insert, keys, lookup, lookup-insert,
  none, ok, refl, some, suc, true, ◌>>=◌, ◌∷◌, ◌≡◌, Map, delete, ◌==◌, Bool-cases, inl, inr,
  lookup-delete, subst,
}
use match_mind.Clock.{Time, before, after}
use match_mind.Text.{Text, text_beq_iff, text_eq}
use match_mind.Ticket.{MatchTicket, is_reserved, release_expired_reservation}
use match_mind.TicketStore.{
  Tickets, Recovery, recover_each, recover_reservation, still_held, stored, or_conflict,
}
use match_mind.TicketStore.Effects.{changed, requeued}
use match_mind.TicketStore.Indexing.{change-Indexed}
use match_mind.TicketStore.Invariant.{Reserved, Indexed}
use match_mind.TicketStore.Settling.{settle-Reserved}

-- The tickets of `ids` are reserved, and their reservations have run out.
abbrev Due : Time → Tickets → List Text → Type 0
Due now tickets ids =
    (j : Text)
    → contains j ids ≡ true
    → (t : MatchTicket) × (lookup j tickets ≡ some t)
      × (is_reserved t.state ≡ true)
      × (before now t.reservation_expires_at ≡ false)

release_due :
    (now : Time) (t : MatchTicket)
    → is_reserved t.state ≡ true
    → before now t.reservation_expires_at ≡ false
    → release_expired_reservation t now ≡ ok (requeued now t)
unfolding release_expired_reservation
release_due now t h k = ground arith

Due-tail :
    (now : Time) (tickets : Tickets) (i : Text) (u : MatchTicket) (ids : List Text)
    → distinct (i ∷ ids) ≡ true
    → Due now tickets (i ∷ ids)
    → Due now (insert i u tickets) ids
unfolding distinct contains
Due-tail now tickets i u ids d due j c =
    let (t, found, in_state, expired) = due j (ground arith) in
    (t, ground (arith, lookup-insert i j u tickets, text_beq_iff i j), in_state, expired)

record Recovers (now : Time) (r : Recovery) (ids : List Text) (r' : Recovery) : Type 0 where
  no_failure : r'.failure ≡ none
  same_reservations : r'.reservations ≡ r.reservations
  effect : (j : Text) → lookup j r'.tickets ≡ changed (requeued now) ids r.tickets r.tickets j
  unique : distinct (keys r'.tickets) ≡ true

recover_each-Recovers :
    (now : Time) (r : Recovery) (ids : List Text)
    → r.failure ≡ none
    → distinct (keys r.tickets) ≡ true
    → distinct ids ≡ true
    → Due now r.tickets ids
    → Recovers now r ids (recover_each now r ids)
unfolding recover_each distinct contains
recover_each-Recovers now r [] f u d due = record {
  no_failure = f;
  same_reservations = refl;
  effect = λ j. refl;
  unique = u;
}
recover_each-Recovers now r (i ∷ ids) f u d due =
    let (t, found, in_state, expired) = due i (ground (arith, text_beq_iff i i)) in
    let one : (stored r.tickets i >>= λ t. or_conflict (release_expired_reservation t now))
        ≡ ok (requeued now t) =
      rw (found, release_due now t in_state expired) refl in
    let r1 : Recovery = record r {
      tickets = insert i (requeued now t) r.tickets;
      recovered = suc r.recovered;
    } in
    let rest =
      recover_each-Recovers now r1 ids f (distinct-insert i (requeued now t) r.tickets u)
        (ground arith) (Due-tail now r.tickets i (requeued now t) ids d due) in
    let step : recover_each now r (i ∷ ids) ≡ recover_each now r1 ids =
      rw (one, recover_each) refl in
    rw step (record {
      no_failure = rest.no_failure;
      same_reservations = rest.same_reservations;
      effect = λ j.
          ground
            (arith, rest.effect j, lookup-insert i j (requeued now t) r.tickets, text_beq_iff i j);
      unique = rest.unique;
    })

-- What a turn of the outer loop keeps, and what it does to the reservation `k`.
pub record Turn (now : Time) (active : Map Text Text) (r : Recovery) (k : Text) (r' : Recovery)
    : Type 0 where
  pub no_failure : r'.failure ≡ none
  pub reserved_part : Reserved r'.tickets r'.reservations
  pub indexed_part : Indexed r'.tickets active
  pub others : (q : Text) → (k == q) ≡ false → lookup q r'.reservations ≡ lookup q r.reservations
  pub frame :
      (q : Text) (ids : List Text) (j : Text)
      → (k == q) ≡ false
      → lookup q r.reservations ≡ some ids
      → contains j ids ≡ true
      → lookup j r'.tickets ≡ lookup j r.tickets
  pub pending :
      (ids : List Text) (j : Text) (t : MatchTicket)
      → lookup k r'.reservations ≡ some ids
      → contains j ids ≡ true
      → lookup j r'.tickets ≡ some t
      → after t.reservation_expires_at now ≡ true

module _ (now : Time) (active : Map Text Text) (r : Recovery) (k : Text) (ids : List Text)
    (f : r.failure ≡ none) (v : Reserved r.tickets r.reservations) (w : Indexed r.tickets active)
    (here : lookup k r.reservations ≡ some ids) where
  held_apart :
      (q : Text) (ids' : List Text) (j : Text)
      → (k == q) ≡ false
      → lookup q r.reservations ≡ some ids'
      → contains j ids' ≡ true
      → contains j ids ≡ false
  held_apart q ids' j ne h m = elim (Bool-cases (contains j ids)) [
    | inr outside ↦ outside
    | inl inside ↦
        let (t, found, _, named, _) = (v.held q ids' h).3 j m in
        let (u, found', _, named', _) = (v.held k ids here).3 j inside in
        absurd (ground (arith, text_beq_iff k q))
  ]

  -- The reservation is released and deleted.
  released-Turn :
      (r' : Recovery)
      → Recovers now r ids r'
      → Turn now active r k (record r' { reservations = delete k r'.reservations })
  released-Turn r' c = rw (c.same_reservations) (record {
    no_failure = c.no_failure;
    reserved_part =
        settle-Reserved r.tickets r'.tickets r.reservations k ids (requeued now) v here (λ t. refl)
          c.effect;
    indexed_part =
        change-Indexed r.tickets r'.tickets active ids (requeued now) w c.unique (λ t. refl)
          (λ t. refl)
          (λ j t m h _. let (u, found, in_state, _, _) = (v.held k ids here).3 j m in ground arith)
          c.effect;
    others = λ q ne. ground (arith, lookup-delete k q r.reservations);
    frame = λ q ids' j ne h m. ground (arith, c.effect j, held_apart q ids' j ne h m);
    pending = λ ids' j t h m found.
        absurd (ground (arith, lookup-delete k k r.reservations, text_beq_iff k k));
  })

  -- The reservation has not expired, and nothing changes.
  held-Turn :
      (i : Text) → contains i ids ≡ true → still_held now r.tickets i ≡ true → Turn now active r k r
  held-Turn i m s = record {
    no_failure = f;
    reserved_part = v;
    indexed_part = w;
    others = λ q ne. refl;
    frame = λ q ids' j ne h m'. refl;
    pending = λ ids' j t h m' found.
        let (e, _, _, holds) = v.held k ids' h in
        let same : ids ≡ ids' = ground arith in
        let (t1, found1, _, _, until1) = holds i (subst (λ l. contains i l ≡ true) same m) in
        let (t2, found2, _, _, until2) = holds j m' in ground arith;
  }

  -- A reservation whose first ticket is due is due as a whole.
  all-Due :
      (i : Text)
      → contains i ids ≡ true
      → still_held now r.tickets i ≡ false
      → Due now r.tickets ids
  all-Due i m s j m' =
      let (e, _, _, holds) = v.held k ids here in
      let (t1, found1, _, _, until1) = holds i m in
      let (t2, found2, in_state, _, until2) = holds j m' in (t2, found2, in_state, ground arith)

pub recover_reservation-Turn :
    (now : Time) (active : Map Text Text) (r : Recovery) (k : Text) (ids : List Text)
    → r.failure ≡ none
    → Reserved r.tickets r.reservations
    → Indexed r.tickets active
    → lookup k r.reservations ≡ some ids
    → Turn now active r k (recover_reservation now r k ids)
unfolding recover_reservation contains lookup
recover_reservation-Turn now active r k [] f v w here =
    released-Turn now active r k [] f v w here r
      (record { no_failure = f; same_reservations = refl; effect = λ j. refl; unique = w.unique })
recover_reservation-Turn now active r k (i ∷ ids) f v w here =
    let member : contains i (i ∷ ids) ≡ true =
      unfold contains in ground (arith, text_beq_iff i i) in
    elim (Bool-cases (still_held now r.tickets i)) [
      | inl held ↦ rw held (held-Turn now active r k (i ∷ ids) f v w here i member held)
      | inr due ↦
          let c =
            recover_each-Recovers now r (i ∷ ids) f w.unique (v.held k (i ∷ ids) here).2
              (all-Due now active r k (i ∷ ids) f v w here i member due) in
          rw (due, c.no_failure) (released-Turn now active r k (i ∷ ids) f v w here _ c)
    ]
