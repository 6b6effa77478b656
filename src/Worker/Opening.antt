-- ===== src/Worker/Opening.antt =====
-- A round that succeeds: the match is stored and ready on a server, and its tickets are assigned to it.
use match_mind.Allocator.{LocalServerAllocation, LocalAllocator, Allocation, allocate}
use match_mind.Base.{
  Context, List, Option-cases, Result, Result-cases, ap, arith, contains, eq_self, false, inl, inr,
  insert, is_some, lookup, lookup-insert, none, ok, refl, some, state_or, subst, sym, true, ◌∙◌,
  ◌≡◌,
}
use match_mind.Clock.{Time}
use match_mind.Match.{
  start_allocation, mark_ready, Match, NewMatchParams, new_match, ready, state_beq,
}
use match_mind.MatchService.{World}
use match_mind.MatchStore.{create, update}
use match_mind.Text.{lower_trim, Text, is_empty, trim_space, text_eq}
use match_mind.Ticket.{MatchTicket, is_assigned}
use match_mind.TicketStore.{assign_all, reserve_all, TicketStore}
use match_mind.TicketStore.Conclusion.{Ends, assign_all_total}
use match_mind.TicketStore.Effects.{with_match, with_reservation}
use match_mind.TicketStore.Invariant.{Inv}
use match_mind.TicketStore.Reservation.{Begins, reserve_all-Begins, reserve_all-Inv}
use match_mind.Worker.{RoundContexts, allocate_match, assign_match, open_match, settle}

-- What a round that succeeds leaves.
pub record Opened (w w' : World) (ids : List Text) (m : Match) : Type 0 where
  pub is_ready : state_beq m.state ready ≡ true
  pub stored : lookup m.id w'.matches ≡ some m
  pub served : is_some (lookup (trim_space m.id) w'.servers.allocations) ≡ true
  pub assigned :
      (j : Text)
      → contains j ids ≡ true
      → (t : MatchTicket) × (lookup j w'.tickets.tickets ≡ some t)
        × (is_assigned t.state ≡ true)
        × (t.match_id ≡ trim_space m.id)
  pub others :
      (j : Text) → contains j ids ≡ false → lookup j w'.tickets.tickets ≡ lookup j w.tickets.tickets

-- The last writes have succeeded: the tickets of the reservation are assigned to the stored match.
pub record Written (tickets : TicketStore) (w' : World) (id : Text) (now : Time) (m : Match)
    : Type 0 where
  pub after : TicketStore
  pub given : List MatchTicket
  pub assigns : assign_all none tickets id m.id now ≡ ok (after, given)
  pub kept : w'.tickets ≡ after
  pub found : lookup m.id w'.matches ≡ some m

-- The match is ready on a server too.
record Readied (tickets : TicketStore) (w' : World) (id : Text) (now : Time) (m : Match)
    : Type 0 where
  written : Written tickets w' id now m
  named : is_empty (trim_space m.id) ≡ false
  in_state : state_beq m.state ready ≡ true
  on_server : is_some (lookup (trim_space m.id) w'.servers.allocations) ≡ true

-- A call that succeeds has found its context alive.
assign_all-none :
    (ctx : Context) (s : TicketStore) (id match_id : Text) (now : Time)
    (r : TicketStore × List MatchTicket)
    → assign_all ctx s id match_id now ≡ ok r
    → assign_all none s id match_id now ≡ ok r
unfolding assign_all
assign_all-none none s id match_id now r h = h
assign_all-none (some e) s id match_id now r h = absurd (ground arith)

pub assign_match-Written :
    (ctx : RoundContexts) (w w' : World) (id : Text) (n m : Match) (now : Time)
    → assign_match ctx w id n now ≡ (w', ok m)
    → (n ≡ m) × (w'.servers ≡ w.servers) × Written w.tickets w' id now n
unfolding assign_match update
assign_match-Written ctx w w' id n m now h =
    elim (Result-cases (assign_all ctx.assigning w.tickets id n.id now)) [
      | inr (e, refused) ↦ absurd (ground arith)
      | inl ((s, ts), done) ↦ elim (Result-cases (update ctx.finishing w.matches n)) [
        | inr (e, refused) ↦ absurd (ground arith)
        | inl (matches, stored) ↦ (
          ground arith,
          ground arith,
          record {
            after = s;
            given = ts;
            assigns = assign_all-none ctx.assigning w.tickets id n.id now (s, ts) done;
            kept = ground arith;
            found = ground (arith, lookup-insert n.id n.id n w.matches, eq_self n.id);
          },
        )
      ]
    ]

-- A server that is granted is recorded under the trimmed ID, which is not empty.
allocate-served :
    (ctx : Context) (servers servers' : LocalAllocator) (id region : Text) (token : Result Text)
    (a : Allocation)
    → allocate ctx servers id region token ≡ ok (servers', a)
    → (is_empty (trim_space id) ≡ false)
      × (is_some (lookup (trim_space id) servers'.allocations) ≡ true)
unfolding allocate
allocate-served ctx servers servers' id region token a h = (
  ground arith,
  elim (Option-cases (lookup (trim_space id) servers.allocations)) [
    | inr (existing, found) ↦ ground arith
    | inl missing ↦
        let name = lower_trim region in
        let granted : LocalServerAllocation = record { region = name; allocation = a } in
        let e : insert (trim_space id) granted servers.allocations ≡ servers'.allocations =
          ground arith in
        ap (λ m. is_some (lookup (trim_space id) m)) (sym e)
        ∙ rw
            (
              lookup-insert (trim_space id) (trim_space id) granted servers.allocations,
              eq_self (trim_space id),
            )
            refl
  ],
)

mark_ready_lem :
    (m n : Match) (address token : Text) (now : Time)
    → mark_ready m address token now ≡ ok n
    → (n.id ≡ m.id) × (state_beq n.state ready ≡ true)
unfolding mark_ready
mark_ready_lem m n address token now h = (ground arith, ground arith)

allocate_match-Readied :
    (ctx : RoundContexts) (w w' : World) (id : Text) (k m : Match) (token : Result Text)
    (now : Time)
    → allocate_match ctx w id k token now ≡ (w', ok m)
    → Readied w.tickets w' id now m
unfolding allocate_match
allocate_match-Readied ctx w w' id k m token now h =
    elim (Result-cases (allocate ctx.allocating w.servers k.id k.server_region token)) [
      | inr (e, refused) ↦ absurd (ground arith)
      | inl ((servers, a), granted) ↦ elim (Result-cases (mark_ready k a.address a.token now)) [
        | inr (e, refused) ↦ absurd (ground arith)
        | inl (n, is_ready) ↦
            let (same, servers_kept, written) =
              assign_match-Written ctx (record w { servers = servers }) w' id n m now
                (ground arith) in
            let (named, served) =
              allocate-served ctx.allocating w.servers servers k.id k.server_region token a
                granted in
            let (same_id, in_state) = mark_ready_lem k n a.address a.token now is_ready in
            subst (Readied w.tickets w' id now) same (record {
              written = written;
              named = rw same_id named;
              in_state = in_state;
              on_server = rw (same_id, servers_kept) served;
            })
      ]
    ]

open_match-Readied :
    (ctx : RoundContexts) (w w' : World) (id : Text) (k m : Match) (token : Result Text)
    (now : Time)
    → open_match ctx w id k token now ≡ (w', ok m)
    → Readied w.tickets w' id now m
unfolding open_match
open_match-Readied ctx w w' id k m token now h =
    elim (Result-cases (create ctx.creating w.matches k)) [
      | inr (e, refused) ↦ absurd (ground arith)
      | inl (matches, made) ↦ elim (Result-cases (start_allocation k now)) [
        | inr (e, refused) ↦ absurd (ground arith)
        | inl (n, began) ↦ elim (Result-cases (update ctx.updating matches n)) [
          | inr (e, refused) ↦ absurd (ground arith)
          | inl (matches', stored) ↦
              allocate_match-Readied ctx (record w { matches = matches' }) w' id n m token now
                (ground arith)
        ]
      ]
    ]

-- The tickets after the reservation and the assignment of the same IDs.
assigned_tickets :
    (s s' s'' : TicketStore) (ids : List Text) (id match_id : Text) (expires_at now : Time)
    → Begins s ids id expires_at now s'
    → Ends s' id ids (with_match match_id now) s''
    → ((j : Text)
        → contains j ids ≡ true
        → (t : MatchTicket) × (lookup j s''.tickets ≡ some t)
          × (is_assigned t.state ≡ true)
          × (t.match_id ≡ match_id))
      × ((j : Text) → contains j ids ≡ false → lookup j s''.tickets ≡ lookup j s.tickets)
assigned_tickets s s' s'' ids id match_id expires_at now begins ends = (
  λ j inside.
      let (t, found, waits) = begins.free j inside in
      let reserved = begins.effect j in
      let given = ends.effect j in
      (with_match match_id now (with_reservation id expires_at now t), ground arith, refl, refl),
  λ j outside. let reserved = begins.effect j in let given = ends.effect j in ground arith,
)

-- When the worker succeeds from the reservation of the tickets on, under any contexts, on a store of
-- tickets that satisfies the invariant and under a trimmed reservation ID without a record, the match is
-- ready, is stored as it is returned and has a server, each requested ticket is assigned to it, and every
-- other ticket is as it was.
pub settle-Opened :
    (ctx : RoundContexts) (w w' : World) (id : Text) (ids : List Text) (expires_at : Time)
    (params : NewMatchParams) (token : Result Text) (now : Time) (m : Match)
    → Inv w.tickets
    → trim_space id ≡ id
    → lookup id w.tickets.reservations ≡ none
    → settle ctx w id ids expires_at params token now ≡ (w', ok m)
    → Opened w w' ids m
unfolding settle
settle-Opened ctx w w' id ids expires_at params token now m v trimmed fresh h =
    elim (Result-cases (reserve_all ctx.reserving w.tickets ids id expires_at now)) [
      | inr (e, refused) ↦ absurd (ground arith)
      | inl ((s, ts), taken) ↦ elim (Result-cases (new_match params)) [
        | inr (e, refused) ↦ absurd (ground arith)
        | inl (k, made) ↦
            let r =
              open_match-Readied ctx (record w { tickets = s }) w' id k m token now
                (ground arith) in
            let begins =
              subst (λ i. Begins w.tickets ids i expires_at now s) trimmed
                (reserve_all-Begins ctx.reserving w.tickets s ids id expires_at now ts
                  (rw trimmed fresh) taken) in
            let kept : Inv s =
              subst (λ x. Inv (state_or w.tickets x)) taken
                (reserve_all-Inv ctx.reserving w.tickets ids id expires_at now v) in
            let held : lookup id s.reservations ≡ some ids =
              ap (lookup id) begins.recorded
              ∙ lookup-insert id id ids w.tickets.reservations
              ∙ rw (eq_self id) refl in
            let (s2, us, done, ends) = assign_all_total s id ids kept held m.id now r.named in
            let same : s2 ≡ w'.tickets = ground (arith, r.written.assigns, r.written.kept) in
            let (given, others) =
              assigned_tickets w.tickets s w'.tickets ids id (trim_space m.id) expires_at now begins
                (subst (Ends s id ids (with_match (trim_space m.id) now)) same ends) in
            record {
              is_ready = r.in_state;
              stored = r.written.found;
              served = r.on_server;
              assigned = given;
              others = others;
            }
      ]
    ]
