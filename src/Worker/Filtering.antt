-- ===== src/Worker/Filtering.antt =====
-- The eligibility filter: which tickets it keeps, and what it leaves of the store.
use match_mind.Base.{
  Bool, Bool-cases, Context, List, Map, Option-cases, Result, Result-cases, [], arith, false, inl,
  inr, keep, lookup, lookup_or, map, none, ok, refl, some, state_or, subst, sym, ap, ◌++◌, ◌∙◌, ◌∷◌,
  ◌≡◌,
}
use match_mind.Clock.{Time}
use match_mind.Text.{Text, codes, text_eq, trim_space}
use match_mind.Ticket.{MatchTicket}
use match_mind.TicketStore.{TicketStore, cancel_ticket, scoped_key}
use match_mind.TicketStore.Invariant.{Inv}
use match_mind.TicketStore.Runs.{cancels, step, step-Inv}
use match_mind.Worker.{filter_each, filter_eligible_tickets, may_stay, with_ticket}

cancel_ticket-reservations :
    (ctx : Context) (s : TicketStore) (id player key : Text) (now : Time)
    → (state_or s (cancel_ticket ctx s id player key now)).reservations ≡ s.reservations
unfolding cancel_ticket
cancel_ticket-reservations (some e) s id player key now = refl
cancel_ticket-reservations none s id player key now =
    elim (Option-cases (lookup (scoped_key (trim_space player) key) s.cancel_idempotency)) [
      | inr (previous, found) ↦ rw (found, cancel_ticket) (ground arith)
      | inl missing ↦ ground arith
    ]

-- What the filter leaves of the store, and which tickets it keeps.
record Filtered (s : TicketStore) (eligible : Map Text Bool) (ts : List MatchTicket)
    (r : TicketStore × Result (List MatchTicket)) : Type 0 where
  sound : Inv r.0
  reservations : r.0.reservations ≡ s.reservations
  kept :
      (chosen : List MatchTicket)
      → r.1 ≡ ok chosen
      → chosen ≡ keep (λ t. lookup_or false t.player_id eligible) ts

filter_each-Filtered :
    (ctx : MatchTicket → Context) (s : TicketStore) (eligible : Map Text Bool) (now : Time)
    (ts : List MatchTicket)
    → Inv s
    → Filtered s eligible ts (filter_each ctx s eligible now ts)
unfolding filter_each with_ticket step keep
filter_each-Filtered ctx s eligible now [] v = record {
  sound = v;
  reservations = refl;
  kept = λ chosen h. ground arith;
}
filter_each-Filtered ctx s eligible now (t ∷ ts) v =
    elim (Bool-cases (lookup_or false t.player_id eligible)) [
      | inl plays ↦
          let rest = filter_each-Filtered ctx s eligible now ts v in
          let others = filter_each ctx s eligible now ts in
          rw (plays, filter_each)
            (record {
              sound = rest.sound;
              reservations = rest.reservations;
              kept = λ chosen h. elim (Result-cases others.1) [
                | inr (e, failed) ↦ absurd (ground arith)
                | inl (us, passed) ↦
                    let same = rest.kept us passed in
                    let e : t ∷ us ≡ chosen = ground arith in
                    sym e ∙ ap (λ x. t ∷ x) same ∙ rw plays refl
              ];
            })
      | inr barred ↦
          let key = codes "system-ineligible-" ++ t.id in
          let after = state_or s (cancel_ticket (ctx t) s t.id t.player_id key now) in
          let kept_after = step-Inv s (cancels (ctx t) t.id t.player_id key now) v in
          let same_after = cancel_ticket-reservations (ctx t) s t.id t.player_id key now in
          elim (Result-cases (cancel_ticket (ctx t) s t.id t.player_id key now)) [
            | inl ((s', u), done) ↦
                let rest =
                  filter_each-Filtered ctx s' eligible now ts
                    (subst (λ r. Inv (state_or s r)) done kept_after) in
                rw (barred, done, filter_each)
                  (record {
                    sound = rest.sound;
                    reservations =
                        rest.reservations
                        ∙ subst (λ r. (state_or s r).reservations ≡ s.reservations) done same_after;
                    kept = λ chosen h. rest.kept chosen h ∙ rw barred refl;
                  })
            | inr (e, refused) ↦ elim (Bool-cases (may_stay e)) [
              | inl stays ↦
                  let rest = filter_each-Filtered ctx s eligible now ts v in
                  rw (barred, refused, stays, filter_each)
                    (record {
                      sound = rest.sound;
                      reservations = rest.reservations;
                      kept = λ chosen h. rest.kept chosen h ∙ rw barred refl;
                    })
              | inr fails ↦
                  rw (barred, refused, fails, filter_each)
                    (record {
                      sound = v;
                      reservations = refl;
                      kept = λ chosen h. absurd (ground arith);
                    })
            ]
          ]
    ]

-- A filter that succeeds has got an answer on the players.
pub record Answered (ask : List Text → Result (Map Text Bool)) (s : TicketStore)
    (ts : List MatchTicket) (s' : TicketStore) (chosen : List MatchTicket) : Type 0 where
  pub answer : Map Text Bool
  pub asked : ask (map (λ t. t.player_id) ts) ≡ ok answer
  pub sound : Inv s'
  pub reservations : s'.reservations ≡ s.reservations
  pub kept : chosen ≡ keep (λ t. lookup_or false t.player_id answer) ts

pub filter_eligible_tickets-Answered :
    (ctx : MatchTicket → Context) (ask : List Text → Result (Map Text Bool)) (s s' : TicketStore)
    (ts chosen : List MatchTicket) (now : Time)
    → Inv s
    → filter_eligible_tickets ctx ask s ts now ≡ (s', ok chosen)
    → Answered ask s ts s' chosen
unfolding filter_eligible_tickets
filter_eligible_tickets-Answered ctx ask s s' ts chosen now v h =
    elim (Result-cases (ask (map (λ t. t.player_id) ts))) [
      | inr (e, refused) ↦ absurd (ground arith)
      | inl (answer, asked) ↦
          let f = filter_each-Filtered ctx s answer now ts v in
          let e : filter_each ctx s answer now ts ≡ (s', ok chosen) = ground arith in
          let g = subst (Filtered s answer ts) e f in
          record {
            answer = answer;
            asked = asked;
            sound = g.sound;
            reservations = g.reservations;
            kept = g.kept chosen refl;
          }
    ]
