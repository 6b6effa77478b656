-- ===== src/TicketService/Retry.antt =====
-- A request for a ticket that is sent twice.
use match_mind.Base.{
  Context, List, Option, Result, Result-cases, ap, arith, err, inl, inr, lookup, none, ok, some,
  subst, sym, ◌∙◌, ◌≡◌,
}
use match_mind.Clock.{Time}
use match_mind.Text.{Text, trim_space, text_eq}
use match_mind.Ticket.{queue, trim_params, MatchTicket, NewTicketParams, new_ticket}
use match_mind.Ticket.Validation.{validated-Checked}
use match_mind.TicketService.{
  CreateTicketCommand, PlayerSnapshot, best_region, create_ticket, or_latencies, or_roles,
}
use match_mind.TicketStore.{TicketStore, create_queued}
use match_mind.TicketStore.Idempotency.{create_queued_retry}
use match_mind.TicketStore.Invariant.{Inv}
use match_mind.TicketStore.Runs.{Call, run}

new_ticket-player :
    (p : NewTicketParams) (t : MatchTicket)
    → new_ticket p ≡ ok t
    → t.player_id ≡ trim_space p.player_id
unfolding new_ticket trim_params
new_ticket-player p t h = let (c, e) = validated-Checked (trim_params p) t h in ground arith

queue-player : (t u : MatchTicket) (now : Time) → queue t now ≡ ok u → u.player_id ≡ t.player_id
unfolding queue
queue-player t u now h = ground arith

-- A request that gets through has asked the store for a ticket of its player under its key.
create_ticket-asks :
    (ctx : Context) (s : TicketStore) (p : PlayerSnapshot) (generator : Result Text) (now : Time)
    (c : CreateTicketCommand) (r : TicketStore × Option MatchTicket)
    → create_ticket ctx s (ok p) generator now c ≡ ok r
    → (t : MatchTicket) × (t.player_id ≡ trim_space p.id)
      × (create_queued ctx s t (trim_space c.idempotency_key) ≡ ok r)
unfolding create_ticket
create_ticket-asks ctx s p (err x) now c r h = absurd (ground arith)
create_ticket-asks ctx s p (ok id) now c r h =
    elim (Result-cases (best_region (or_latencies c.region_latency p.region_latency))) [
      | inr (x, bad) ↦ absurd (ground arith)
      | inl (region, best) ↦
          let params : NewTicketParams = record {
            id = id;
            player_id = p.id;
            party_id = c.party_id;
            mode = c.mode;
            client_version = c.client_version;
            region = region;
            rating = p.rating;
            behavior_score = p.behavior_score;
            hero_proficiency = p.hero_proficiency;
            preferred_roles = or_roles c.preferred_roles p.preferred_roles;
            region_latency = or_latencies c.region_latency p.region_latency;
            created_at = now;
          } in
          elim (Result-cases (new_ticket params)) [
            | inr (x, bad) ↦ absurd (ground arith)
            | inl (t, made) ↦ elim (Result-cases (queue t now)) [
              | inr (x, bad) ↦ absurd (ground arith)
              | inl (u, queued_at) ↦ (
                u,
                queue-player t u now queued_at ∙ new_ticket-player params t made,
                ground arith,
              )
            ]
          ]
    ]

-- On a store that satisfies the invariant, when `CreateTicket` has returned a ticket, then after any calls
-- of the store a second request of the same player under the same key that succeeds makes no other ticket:
-- it changes nothing and returns the first ticket as it then is.
pub create_ticket_retry :
    (ctx : Context) (s s' s'' : TicketStore) (p q : PlayerSnapshot)
    (generator generator' : Result Text) (now now' : Time) (c d : CreateTicketCommand)
    (u : MatchTicket) (v : Option MatchTicket) (cs : List Call)
    → Inv s
    → create_ticket ctx s (ok p) generator now c ≡ ok (s', some u)
    → create_ticket none (run s' cs) (ok q) generator' now' d ≡ ok (s'', v)
    → q.id ≡ p.id
    → trim_space d.idempotency_key ≡ trim_space c.idempotency_key
    → (s'' ≡ run s' cs) × (lookup u.id (run s' cs).tickets ≡ v)
create_ticket_retry ctx s s' s'' p q generator generator' now now' c d u v cs i first second player
      key =
    let (t, owner, asked) = create_ticket-asks ctx s p generator now c (s', some u) first in
    let (w, owner', asked') =
      create_ticket-asks none (run s' cs) q generator' now' d (s'', v) second in
    let same : w.player_id ≡ t.player_id = owner' ∙ ap trim_space player ∙ sym owner in
    let (x, again, found) =
      create_queued_retry ctx s s' t u w (trim_space c.idempotency_key) cs i asked same in
    let asked'' = subst (λ k. create_queued none (run s' cs) w k ≡ ok (s'', v)) key asked' in
    (ground arith, ground arith)
