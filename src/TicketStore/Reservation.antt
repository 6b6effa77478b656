-- ===== src/TicketStore/Reservation.antt =====
-- `ReserveAll`, `ReleaseAll` and `AssignAll`: what a success means, and that the invariant is kept.
use match_mind.Base.{
  List, Option-cases, Result-cases, [], arith, contains, distinct, false, inl, inr, insert, keys,
  lookup, lookup-insert, none, ok, refl, some, true, ◌∷◌, ◌≡◌, Bool-cases, Context, state_or,
}
use match_mind.Clock.{Time}
use match_mind.Text.{Text, is_empty, text_beq_iff, trim_space, text_eq, trim_space_idem}
use match_mind.Ticket.{MatchTicket, is_queue_candidate, reserve}
use match_mind.TicketStore.{Tickets, TicketStore, reserve_each, reserve_all, put_all}
use match_mind.TicketStore.Effects.{
  changed, with_reservation, lookup-put_all, reserve_each-changed, reserve_each-candidates,
}
use match_mind.TicketStore.Indexing.{put_all-distinct, change-Indexed}
use match_mind.TicketStore.Invariant.{Inv}
use match_mind.TicketStore.Settling.{begin-Reserved}

module _ (tickets : Tickets) (id : Text) (expires_at now : Time) where
  reserve_each-new :
      (updated : Tickets) (seen ids : List Text) (result : Tickets) (j : Text)
      → reserve_each tickets id expires_at now updated seen ids ≡ ok result
      → contains j ids ≡ true
      → lookup j updated ≡ none
  unfolding reserve_each contains
  reserve_each-new updated seen [] result j h c = ground arith
  reserve_each-new updated seen (i ∷ ids) result j h c = elim (Option-cases (lookup i tickets)) [
    | inl missing ↦ ground arith
    | inr (t, found) ↦ elim (Result-cases (reserve t id expires_at now)) [
      | inr (e, refused) ↦ ground arith
      | inl (u, done) ↦ ground (
        arith,
        reserve_each-new (insert i u updated) (t.player_id ∷ seen) ids result j,
        lookup-insert i j u updated,
        text_beq_iff i j,
      )
    ]
  ]

  reserve_each-distinct :
      (updated : Tickets) (seen ids : List Text) (result : Tickets)
      → reserve_each tickets id expires_at now updated seen ids ≡ ok result
      → distinct ids ≡ true
  unfolding reserve_each distinct
  reserve_each-distinct updated seen [] result h = refl
  reserve_each-distinct updated seen (i ∷ ids) result h = elim (Option-cases (lookup i tickets)) [
    | inl missing ↦ ground arith
    | inr (t, found) ↦ elim (Result-cases (reserve t id expires_at now)) [
      | inr (e, refused) ↦ ground arith
      | inl (u, done) ↦ ground (
        arith,
        reserve_each-distinct (insert i u updated) (t.player_id ∷ seen) ids result,
        reserve_each-new (insert i u updated) (t.player_id ∷ seen) ids result i,
        lookup-insert i i u updated,
        text_beq_iff i i,
      )
    ]
  ]

-- What `ReserveAll` does for a reservation that is new to the store.
pub record Begins (s : TicketStore) (ids : List Text) (id : Text) (expires_at now : Time)
    (s' : TicketStore) : Type 0 where
  pub named : is_empty id ≡ false
  pub nodup : distinct ids ≡ true
  pub free :
      (j : Text)
      → contains j ids ≡ true
      → (t : MatchTicket) × (lookup j s.tickets ≡ some t) × (is_queue_candidate t ≡ true)
  pub effect :
      (j : Text)
      → lookup j s'.tickets ≡ changed (with_reservation id expires_at now) ids s.tickets s.tickets j
  pub recorded : s'.reservations ≡ insert id ids s.reservations
  pub same_pools : s'.pools ≡ s.pools
  pub same_active : s'.active_by_player ≡ s.active_by_player
  pub unique : distinct (keys s.tickets) ≡ true → distinct (keys s'.tickets) ≡ true

-- The changed tickets, written over the others.
pub put_all-changed :
    (g : MatchTicket → MatchTicket) (ids : List Text) (tickets updated : Tickets) (j : Text)
    → lookup j updated ≡ changed g ids tickets [] j
    → (contains j ids ≡ true → (t : MatchTicket) × (lookup j tickets ≡ some t))
    → lookup j (put_all updated tickets) ≡ changed g ids tickets tickets j
unfolding lookup
put_all-changed g ids tickets updated j h there = elim (Bool-cases (contains j ids)) [
  | inl inside ↦ let (t, found) = there inside in ground (arith, lookup-put_all j updated tickets)
  | inr outside ↦ ground (arith, lookup-put_all j updated tickets)
]

reserve_each-Begins :
    (s : TicketStore) (ids : List Text) (id : Text) (expires_at now : Time) (updated : Tickets)
    → trim_space id ≡ id
    → is_empty id ≡ false
    → reserve_each s.tickets id expires_at now [] [] ids ≡ ok updated
    → Begins s ids id expires_at now (record s {
      tickets = put_all updated s.tickets;
      reservations = insert id ids s.reservations;
    })
reserve_each-Begins s ids id expires_at now updated trimmed named h =
    let free = λ (j : Text) (c : contains j ids ≡ true).
      reserve_each-candidates s.tickets id expires_at now trimmed [] [] ids updated j h c in
    record {
      named = named;
      nodup = reserve_each-distinct s.tickets id expires_at now [] [] ids updated h;
      free = free;
      effect = λ j.
          put_all-changed (with_reservation id expires_at now) ids s.tickets updated j
            (reserve_each-changed s.tickets id expires_at now trimmed [] [] ids updated j h)
            (λ c. let (t, found, _) = free j c in (t, found));
      recorded = refl;
      same_pools = refl;
      same_active = refl;
      unique = put_all-distinct updated s.tickets;
    }

-- When `ReserveAll` succeeds under an ID that held no reservation, the ID is nonempty, no ticket ID occurs
-- twice, every ticket was waiting in the queue, exactly those tickets become RESERVED with the reservation
-- and its expiry, every other ticket stays, the reservation is recorded, and pools and the index are
-- untouched.
pub reserve_all-Begins :
    (ctx : Context) (s s' : TicketStore) (ids : List Text) (id : Text) (expires_at now : Time)
    (ts : List MatchTicket)
    → lookup (trim_space id) s.reservations ≡ none
    → reserve_all ctx s ids id expires_at now ≡ ok (s', ts)
    → Begins s ids (trim_space id) expires_at now s'
unfolding reserve_all
reserve_all-Begins ctx s s' ids id expires_at now ts new h =
    elim (Result-cases (reserve_each s.tickets (trim_space id) expires_at now [] [] ids)) [
      | inr (e, refused) ↦ ground arith
      | inl (updated, done) ↦
          let e : s' ≡ record s {
            tickets = put_all updated s.tickets;
            reservations = insert (trim_space id) ids s.reservations;
          } =
            ground arith in
          rw e (
            reserve_each-Begins s ids (trim_space id) expires_at now updated (trim_space_idem id)
              (ground arith) done)
    ]

pub Begins-Inv :
    (s s' : TicketStore) (ids : List Text) (id : Text) (expires_at now : Time)
    → lookup id s.reservations ≡ none
    → Begins s ids id expires_at now s'
    → Inv s
    → Inv s'
Begins-Inv s s' ids id expires_at now new b v = record {
  reserved_part = rw b.recorded (
      begin-Reserved s.tickets s'.tickets s.reservations id ids expires_at now v.reserved_part new
        b.named b.nodup b.free b.effect);
  indexed_part = rw b.same_active (
      change-Indexed s.tickets s'.tickets s.active_by_player ids
        (with_reservation id expires_at now) v.indexed_part (b.unique v.indexed_part.unique)
        (λ t. refl) (λ t. refl)
        (λ j t c found _. let (u, found', waits) = b.free j c in ground arith) b.effect);
}

-- Every call of `ReserveAll` keeps the invariant, also one that fails or is repeated.
pub reserve_all-Inv :
    (ctx : Context) (s : TicketStore) (ids : List Text) (id : Text) (expires_at now : Time)
    → Inv s
    → Inv (state_or s (reserve_all ctx s ids id expires_at now))
reserve_all-Inv ctx s ids id expires_at now v =
    elim (Result-cases (reserve_all ctx s ids id expires_at now)) [
      | inr (e, refused) ↦ rw refused v
      | inl ((s', ts), done) ↦
          rw done (elim (Option-cases (lookup (trim_space id) s.reservations)) [
            | inl new ↦
                Begins-Inv s s' ids (trim_space id) expires_at now new
                  (reserve_all-Begins ctx s s' ids id expires_at now ts new done) v
            | inr (old, recorded) ↦ let e : s' ≡ s = unfold reserve_all in ground arith in rw e v
          ])
    ]
