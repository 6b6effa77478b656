-- ===== src/TicketStore/Conclusion.antt =====
-- How a reservation ends: `ReleaseAll` and `AssignAll` succeed in a store that satisfies the invariant.
use match_mind.Base.{
  Context, List, Option-cases, [], arith, contains, delete, distinct, false, inl, inr, keys, lookup,
  none, ok, refl, some, true, ◌≡◌, Result-cases,
}
use match_mind.Clock.{Time}
use match_mind.Text.{Text, is_empty, text_beq_iff, trim_space, text_eq}
use match_mind.Ticket.{MatchTicket, is_reserved, release_reservation, assign}
use match_mind.TicketStore.{
  Tickets, TicketStore, release_all, assign_all, change_each, put_all, clone_tickets, remove_all,
}
use match_mind.TicketStore.Effects.{
  changed, requeued, with_match, change_each-changed, change_each_total, release-requeued,
  assign-with_match,
}
use match_mind.TicketStore.Indexing.{put_all-distinct, change-Indexed}
use match_mind.TicketStore.Invariant.{Inv}
use match_mind.TicketStore.Reservation.{put_all-changed}
use match_mind.TicketStore.Settling.{settle-Reserved}

-- The reservation `id` of the tickets `ids` is over, and `g` is what became of each.
pub record Ends (s : TicketStore) (id : Text) (ids : List Text) (g : MatchTicket → MatchTicket)
    (s' : TicketStore) : Type 0 where
  pub effect : (j : Text) → lookup j s'.tickets ≡ changed g ids s.tickets s.tickets j
  pub dropped : s'.reservations ≡ delete id s.reservations
  pub same_active : s'.active_by_player ≡ s.active_by_player
  pub unique : distinct (keys s.tickets) ≡ true → distinct (keys s'.tickets) ≡ true

Ends-Inv :
    (s s' : TicketStore) (id : Text) (ids : List Text) (g : MatchTicket → MatchTicket)
    → lookup id s.reservations ≡ some ids
    → ((t : MatchTicket) → is_reserved (g t).state ≡ false)
    → ((t : MatchTicket) → (g t).id ≡ t.id)
    → ((t : MatchTicket) → (g t).player_id ≡ t.player_id)
    → Ends s id ids g s'
    → Inv s
    → Inv s'
Ends-Inv s s' id ids g here freed same_id same_player b v = record {
  reserved_part = rw b.dropped (
      settle-Reserved s.tickets s'.tickets s.reservations id ids g v.reserved_part here freed
        b.effect);
  indexed_part = rw b.same_active (
      change-Indexed s.tickets s'.tickets s.active_by_player ids g v.indexed_part
        (b.unique v.indexed_part.unique) same_id same_player
        (λ j t c found _.
          let (u, found', in_state, _, _) = (v.reserved_part.held id ids here).3 j c in
          ground arith)
        b.effect);
}

module _ (s : TicketStore) (id : Text) (ids : List Text) (v : Inv s)
    (here : lookup id s.reservations ≡ some ids) where
  there : (j : Text) → contains j ids ≡ true → (t : MatchTicket) × (lookup j s.tickets ≡ some t)
  there j c = let (t, found, _, _, _) = (v.reserved_part.held id ids here).3 j c in (t, found)

  can_release :
      (now : Time) (j : Text)
      → contains j ids ≡ true
      → (t : MatchTicket) × (lookup j s.tickets ≡ some t)
        × (release_reservation t id now ≡ ok (requeued now t))
  unfolding release_reservation
  can_release now j c =
      let (_, named, _, holds) = v.reserved_part.held id ids here in
      let (t, found, in_state, mine, _) = holds j c in
      (t, found, ground (arith, text_beq_iff id t.reservation_id))

  can_assign :
      (match_id : Text) (now : Time) (j : Text)
      → is_empty (trim_space match_id) ≡ false
      → contains j ids ≡ true
      → (t : MatchTicket) × (lookup j s.tickets ≡ some t)
        × (assign t id match_id now ≡ ok (with_match (trim_space match_id) now t))
  unfolding assign
  can_assign match_id now j m c =
      let (_, named, _, holds) = v.reserved_part.held id ids here in
      let (t, found, in_state, mine, _) = holds j c in
      (t, found, ground (arith, text_beq_iff id t.reservation_id))

  released-Ends :
      (now : Time) (updated : Tickets)
      → change_each (λ t. release_reservation t id now) s.tickets [] ids ≡ ok updated
      → Ends s id ids (requeued now) (record s {
        tickets = put_all updated s.tickets;
        reservations = delete id s.reservations;
      })
  released-Ends now updated done = record {
    effect = λ j.
        put_all-changed (requeued now) ids s.tickets updated j
          (change_each-changed (λ t. release_reservation t id now) (requeued now) s.tickets
            (release-requeued id now) [] ids updated j done)
          (there j);
    dropped = refl;
    same_active = refl;
    unique = put_all-distinct updated s.tickets;
  }

  assigned-Ends :
      (match_id : Text) (now : Time) (updated : Tickets)
      → change_each (λ t. assign t id match_id now) s.tickets [] ids ≡ ok updated
      → Ends s id ids (with_match (trim_space match_id) now) (record s {
        tickets = put_all updated s.tickets;
        pools = remove_all updated s.pools;
        reservations = delete id s.reservations;
      })
  assigned-Ends match_id now updated done = record {
    effect = λ j.
        put_all-changed (with_match (trim_space match_id) now) ids s.tickets updated j
          (change_each-changed (λ t. assign t id match_id now)
            (with_match (trim_space match_id) now) s.tickets (assign-with_match id match_id now) []
            ids updated j done)
          (there j);
    dropped = refl;
    same_active = refl;
    unique = put_all-distinct updated s.tickets;
  }

  -- On a store that satisfies the invariant, a recorded reservation can be released: the call succeeds,
  -- its tickets go back to the queue without reservation data, no other ticket and no entry of the index
  -- changes, and the record is deleted.
  pub release_all_total :
      (now : Time)
      → (s' : TicketStore) × (release_all none s id now ≡ ok s') × Ends s id ids (requeued now) s'
  unfolding release_all
  release_all_total now =
      let (updated, done) =
        change_each_total (λ t. release_reservation t id now) (requeued now) s.tickets [] ids
          (can_release now) in
      (
        record s { tickets = put_all updated s.tickets; reservations = delete id s.reservations },
        rw (here, done) refl,
        released-Ends now updated done,
      )

  -- On a store that satisfies the invariant, a recorded reservation can be turned into a match with a
  -- nonblank ID: the call succeeds, its tickets become ASSIGNED to the match, no other ticket and no entry
  -- of the index changes, and the record is deleted.
  pub assign_all_total :
      (match_id : Text) (now : Time)
      → is_empty (trim_space match_id) ≡ false
      → (s' : TicketStore) × (ts : List MatchTicket) × (assign_all none s id match_id now
          ≡ ok (s', ts))
        × Ends s id ids (with_match (trim_space match_id) now) s'
  unfolding assign_all
  assign_all_total match_id now m =
      let (updated, done) =
        change_each_total (λ t. assign t id match_id now) (with_match (trim_space match_id) now)
          s.tickets [] ids (λ j. can_assign match_id now j m) in
      (
        record s {
          tickets = put_all updated s.tickets;
          pools = remove_all updated s.pools;
          reservations = delete id s.reservations;
        },
        clone_tickets (put_all updated s.tickets) ids,
        rw (here, done) refl,
        assigned-Ends match_id now updated done,
      )

-- Every successful call of `ReleaseAll` keeps the invariant.
pub release_all-Inv :
    (ctx : Context) (s : TicketStore) (id : Text) (now : Time)
    → Inv s
    → (s' : TicketStore) → release_all ctx s id now ≡ ok s'
    → Inv s'
unfolding release_all
release_all-Inv ctx s id now v s' h = elim (Option-cases (lookup id s.reservations)) [
  | inl missing ↦ ground arith
  | inr (ids, here) ↦
      elim (Result-cases (change_each (λ t. release_reservation t id now) s.tickets [] ids)) [
        | inr (e, refused) ↦ ground arith
        | inl (updated, done) ↦
            let e : s' ≡ record s {
              tickets = put_all updated s.tickets;
              reservations = delete id s.reservations;
            } =
              ground arith in
            rw e (
              Ends-Inv s _ id ids (requeued now) here (λ t. refl) (λ t. refl) (λ t. refl)
                (released-Ends s id ids v here now updated done) v)
      ]
]

-- Every successful call of `AssignAll` keeps the invariant.
pub assign_all-Inv :
    (ctx : Context) (s : TicketStore) (id match_id : Text) (now : Time)
    → Inv s
    → (s' : TicketStore) (ts : List MatchTicket) → assign_all ctx s id match_id now ≡ ok (s', ts)
    → Inv s'
unfolding assign_all
assign_all-Inv ctx s id match_id now v s' ts h = elim (Option-cases (lookup id s.reservations)) [
  | inl missing ↦ ground arith
  | inr (ids, here) ↦
      elim (Result-cases (change_each (λ t. assign t id match_id now) s.tickets [] ids)) [
        | inr (e, refused) ↦ ground arith
        | inl (updated, done) ↦
            let e : s' ≡ record s {
              tickets = put_all updated s.tickets;
              pools = remove_all updated s.pools;
              reservations = delete id s.reservations;
            } =
              ground arith in
            rw e (
              Ends-Inv s _ id ids (with_match (trim_space match_id) now) here (λ t. refl)
                (λ t. refl) (λ t. refl) (assigned-Ends s id ids v here match_id now updated done) v)
      ]
]
