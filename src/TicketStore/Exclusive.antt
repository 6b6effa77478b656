-- ===== src/TicketStore/Exclusive.antt =====
-- What a reservation guarantees to the worker that made it.
use match_mind.Base.{
  Bool-cases, Context, List, Result-cases, [], arith, contains, err, inl, inr, lookup,
  lookup-delete, lookup-insert, none, ok, reservation_conflict, some, true, ◌∙◌, ◌≡◌,
}
use match_mind.Clock.{Time}
use match_mind.Text.{Text, text_beq_iff, trim_space, trim_space_idem, text_eq}
use match_mind.Ticket.{MatchTicket}
use match_mind.TicketStore.{TicketStore, reserve_all, release_all, reserve_each}
use match_mind.TicketStore.Conclusion.{release_all_total}
use match_mind.TicketStore.Effects.{
  changed, requeued, with_reservation, reserve_each-candidates, reserve_each_error,
}
use match_mind.TicketStore.Invariant.{Inv, changed_inside}
use match_mind.TicketStore.Reservation.{reserve_all-Begins, Begins-Inv}

-- When `ReserveAll` has succeeded under an ID that held no reservation, a call of it on the store that it
-- left that asks for one of those tickets under an ID without a reservation is refused as a reservation
-- conflict.
pub reserve_all_exclusive :
    (ctx : Context) (s s' : TicketStore) (ids ids' : List Text) (id id' : Text)
    (expires_at expires_at' now now' : Time) (ts : List MatchTicket) (j : Text)
    → lookup (trim_space id) s.reservations ≡ none
    → reserve_all ctx s ids id expires_at now ≡ ok (s', ts)
    → contains j ids ≡ true
    → contains j ids' ≡ true
    → lookup (trim_space id') s'.reservations ≡ none
    → reserve_all none s' ids' id' expires_at' now' ≡ err reservation_conflict
unfolding reserve_all
reserve_all_exclusive ctx s s' ids ids' id id' expires_at expires_at' now now' ts j new h m m'
      new' =
    let b = reserve_all-Begins ctx s s' ids id expires_at now ts new h in
    let (t, found, _) = b.free j m in
    let taken =
      b.effect j
      ∙ changed_inside (with_reservation (trim_space id) expires_at now) ids s.tickets j m found in
    elim (Result-cases (reserve_each s'.tickets (trim_space id') expires_at' now' [] [] ids')) [
      | inr (e, refused) ↦ ground (
        arith,
        reserve_each_error s'.tickets (trim_space id') expires_at' now' (trim_space_idem id') [] []
            ids' e,
      )
      | inl (updated, done) ↦
          let (u, found', waits) =
            reserve_each-candidates s'.tickets (trim_space id') expires_at' now'
              (trim_space_idem id') [] [] ids' updated j done m' in
          absurd (ground arith)
    ]

-- On a store that satisfies the invariant, releasing a reservation that `ReserveAll` has just made under
-- an ID without one succeeds, and leaves each ticket that was reserved as it was in the queue but for the
-- time of the update and the cleared reservation data, and every other ticket and every other reservation
-- as it was.
pub release_all-reserve_all :
    (ctx : Context) (s s' : TicketStore) (ids : List Text) (id : Text) (expires_at now later : Time)
    (ts : List MatchTicket)
    → Inv s
    → lookup (trim_space id) s.reservations ≡ none
    → reserve_all ctx s ids id expires_at now ≡ ok (s', ts)
    → (s'' : TicketStore) × (release_all none s' (trim_space id) later ≡ ok s'')
      × ((j : Text) → lookup j s''.tickets ≡ changed (requeued later) ids s.tickets s.tickets j)
      × ((q : Text) → lookup q s''.reservations ≡ lookup q s.reservations)
release_all-reserve_all ctx s s' ids id expires_at now later ts v new h =
    let b = reserve_all-Begins ctx s s' ids id expires_at now ts new h in
    let v' = Begins-Inv s s' ids (trim_space id) expires_at now new b v in
    let here : lookup (trim_space id) s'.reservations ≡ some ids = ground (
      arith,
      b.recorded,
      lookup-insert (trim_space id) (trim_space id) ids s.reservations,
      text_beq_iff (trim_space id) (trim_space id),
    ) in
    let (s'', done, e) = release_all_total s' (trim_space id) ids v' here later in
    (
      s'',
      done,
      λ j. elim (Bool-cases (contains j ids)) [
        | inl inside ↦ let (t, found, _) = b.free j inside in ground (arith, e.effect j, b.effect j)
        | inr outside ↦ ground (arith, e.effect j, b.effect j)
      ],
      λ q. ground (
        arith,
        e.dropped,
        b.recorded,
        lookup-delete (trim_space id) q s'.reservations,
        lookup-insert (trim_space id) q ids s.reservations,
        text_beq_iff (trim_space id) q,
      ),
    )
