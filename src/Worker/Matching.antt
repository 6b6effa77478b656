-- ===== src/Worker/Matching.antt =====
-- `tryPool` when it succeeds: the match is good enough, its players may play, and its tickets are taken.
use match_mind.Base.{
  Bool-cases, List, Result-cases, [], arith, false, inl, inr, length, lookup, map, nat_beq, none,
  ok, some, subst, ap, ◌*◌, ◌∙◌, ◌∷◌, ◌≡◌,
}
use match_mind.Clock.{Time, add_time}
use match_mind.Engine.Candidates.{CandidateResult, generate_candidates}
use match_mind.Engine.Teams.{team_size_of}
use match_mind.Float64.{float_lt}
use match_mind.Match.{Match, new_match}
use match_mind.MatchService.{World}
use match_mind.Policy.{MatchPolicy, for_mode}
use match_mind.RegionSelector.{RegionSelection, select_server_region}
use match_mind.RegionSelector.Selected.{Suits, select_server_region-Suits}
use match_mind.Text.{Text, text_eq, trim_space}
use match_mind.Ticket.{MatchTicket, PoolKey}
use match_mind.TicketStore.{queue_snapshot}
use match_mind.TicketStore.Invariant.{Inv}
use match_mind.Worker.{
  Outside, WorkerConfig, candidate_limit_of, claim_match, filter_eligible_tickets,
  formation_ticket_ids, formation_tickets, match_params_of, name_match, plan_match, policy_for,
  settle, try_pool,
}
use match_mind.Worker.Opening.{Opened, settle-Opened}
use match_mind.Worker.Parameters.{settle-params}
use match_mind.Worker.Filtering.{Answered, filter_eligible_tickets-Answered}

-- A plan that succeeds: the policy of the mode, a region that suits the candidates, and enough quality.
pub record Planned (outside : Outside) (c : WorkerConfig) (w : World) (key : PoolKey) (now : Time)
    (ts : List MatchTicket) (selection : RegionSelection) (policy : MatchPolicy) : Type 0 where
  pub of_mode : for_mode (policy_for outside c ts) key.mode ≡ ok policy
  pub candidates : CandidateResult
  pub generated : generate_candidates (map some ts) now policy ≡ ok candidates
  pub suits : Suits w.servers outside.calls candidates now policy selection
  pub good : float_lt selection.search.quality.total_score policy.min_quality_score ≡ false

plan_match-Planned :
    (outside : Outside) (c : WorkerConfig) (w : World) (key : PoolKey) (now : Time)
    (ts : List MatchTicket) (selection : RegionSelection) (policy : MatchPolicy)
    → plan_match outside c w key ts now ≡ ok (selection, policy)
    → Planned outside c w key now ts selection policy
unfolding plan_match
plan_match-Planned outside c w key now ts selection policy h =
    elim (Result-cases (for_mode (policy_for outside c ts) key.mode)) [
      | inr (e, refused) ↦ absurd (ground arith)
      | inl (p, adapted) ↦ elim (Result-cases (generate_candidates (map some ts) now p)) [
        | inr (e, refused) ↦ absurd (ground arith)
        | inl (found, generated) ↦
            let select = select_server_region outside.capacities_context outside.calls w.servers in
            elim (Result-cases (select found now p)) [
              | inr (e, refused) ↦ absurd (ground arith)
              | inl (s, selected) ↦
                  let same_policy : p ≡ policy = ground arith in
                  let same : s ≡ selection = ground arith in
                  let plan : Planned outside c w key now ts s p = record {
                    of_mode = adapted;
                    candidates = found;
                    generated = generated;
                    suits =
                        select_server_region-Suits outside.capacities_context outside.calls
                          w.servers found now p s selected;
                    good = ground arith;
                  } in
                  subst (λ q. Planned outside c w key now ts selection q) same_policy
                    (subst (λ x. Planned outside c w key now ts x p) same plan)
            ]
      ]
    ]

-- What the worker has done for the selection: a full number of its players may play, the match is made of it,
-- and is stored and ready with its tickets.
pub record Claimed (outside : Outside) (w w' : World) (key : PoolKey) (selection : RegionSelection)
    (policy : MatchPolicy) (match_id : Text) (now : Time) (m : Match) : Type 0 where
  pub before : World
  pub chosen : List MatchTicket
  pub checked :
      Answered outside.eligibility_later w.tickets
        (formation_tickets selection.search.formation)
        before.tickets
        chosen
  pub full : length chosen ≡ team_size_of policy * 2
  pub model : Match
  pub made : new_match (match_params_of key match_id selection policy now) ≡ ok model
  pub same_params : m.params ≡ model.params
  pub opened : Opened before w' (formation_ticket_ids selection.search.formation) m

claim_match-Claimed :
    (outside : Outside) (w w' : World) (key : PoolKey) (selection : RegionSelection)
    (policy : MatchPolicy) (id match_id : Text) (now : Time) (m : Match)
    → Inv w.tickets
    → trim_space id ≡ id
    → lookup id w.tickets.reservations ≡ none
    → claim_match outside w key selection policy id match_id now ≡ (w', ok m)
    → Claimed outside w w' key selection policy match_id now m
unfolding claim_match
claim_match-Claimed outside w w' key selection policy id match_id now m v trimmed fresh h =
    let ts = formation_tickets selection.search.formation in
    let ids = formation_ticket_ids selection.search.formation in
    let filtered =
      filter_eligible_tickets outside.cancel_later_context outside.eligibility_later w.tickets ts
        now in
    elim (Result-cases filtered.1) [
      | inr (e, refused) ↦ absurd (ground arith)
      | inl (chosen, passed) ↦
          let w1 = record w { tickets = filtered.0 } in
          let a =
            filter_eligible_tickets-Answered outside.cancel_later_context outside.eligibility_later
              w.tickets filtered.0 ts chosen now v (ap (λ r. (filtered.0, r)) passed) in
          let expires_at = add_time now policy.reservation_ttl in
          let params = match_params_of key match_id selection policy now in
          elim (Bool-cases (nat_beq (length chosen) (team_size_of policy * 2))) [
            | inr fewer ↦ absurd (ground arith)
            | inl all_there ↦
                let done : settle outside.contexts w1 id ids expires_at params outside.token now
                    ≡ (w', ok m) =
                  ground arith in
                let (k, made, same) =
                  settle-params outside.contexts w1 w' id ids expires_at params outside.token now m
                    done in
                record {
                  before = w1;
                  chosen = chosen;
                  checked = a;
                  full = ground arith;
                  model = k;
                  made = made;
                  same_params = same;
                  opened =
                      settle-Opened outside.contexts w1 w' id ids expires_at params outside.token
                        now m a.sound trimmed (ap (lookup id) a.reservations ∙ fresh) done;
                }
          ]
    ]

-- What a success of `tryPool` rests on.
pub record Matched (outside : Outside) (c : WorkerConfig) (w w' : World) (key : PoolKey)
    (now : Time) (m : Match) : Type 0 where
  pub snapshot : List MatchTicket
  pub eligible : List MatchTicket
  pub middle : World
  pub selection : RegionSelection
  pub policy : MatchPolicy
  pub match_id : Text
  pub read :
      queue_snapshot outside.snapshot_context w.tickets key (candidate_limit_of c) ≡ ok snapshot
  pub checked : Answered outside.eligibility w.tickets snapshot middle.tickets eligible
  pub planned : Planned outside c middle key now eligible selection policy
  pub claimed : Claimed outside middle w' key selection policy match_id now m

-- When `tryPool` succeeds, on a store of tickets that satisfies the invariant and with a generated
-- reservation ID that is trimmed and has no record, the search was run over the tickets of the snapshot
-- whose players may play and under the policy of the mode, the region suits the candidates, the quality is
-- not below the minimum, as many players of the formation as a match has passed the second check, the
-- parameters of the match are those that `NewMatch` makes of the selection, the match is ready, stored and
-- on a server, and the tickets of the formation are assigned to it.
pub try_pool-Matched :
    (outside : Outside) (c : WorkerConfig) (w w' : World) (key : PoolKey) (now : Time) (id : Text)
    (m : Match)
    → Inv w.tickets
    → outside.reservation_id ≡ ok id
    → trim_space id ≡ id
    → lookup id w.tickets.reservations ≡ none
    → try_pool outside c w key now ≡ (w', ok m)
    → Matched outside c w w' key now m
unfolding try_pool name_match
try_pool-Matched outside c w w' key now id m v generated trimmed fresh h =
    elim (Result-cases
      (queue_snapshot outside.snapshot_context w.tickets key (candidate_limit_of c))) [
        | inr (e, refused) ↦ absurd (ground arith)
        | inl ([], read) ↦ absurd (ground arith)
        | inl (t ∷ ts, read) ↦
            let filtered =
              filter_eligible_tickets outside.cancel_context outside.eligibility w.tickets (t ∷ ts)
                now in
            let w1 = record w { tickets = filtered.0 } in
            elim (Result-cases filtered.1) [
              | inr (e, refused) ↦ absurd (ground arith)
              | inl (eligible, passed) ↦
                  let a =
                    filter_eligible_tickets-Answered outside.cancel_context outside.eligibility
                      w.tickets filtered.0 (t ∷ ts) eligible now v
                      (ap (λ r. (filtered.0, r)) passed) in
                  elim (Result-cases (plan_match outside c w1 key eligible now)) [
                    | inr (e, refused) ↦ absurd (ground arith)
                    | inl ((selection, policy), plan) ↦ elim (Result-cases outside.match_id) [
                      | inr (e, refused) ↦ absurd (ground arith)
                      | inl (match_id, named) ↦ record {
                        snapshot = t ∷ ts;
                        eligible = eligible;
                        middle = w1;
                        selection = selection;
                        policy = policy;
                        match_id = match_id;
                        read = read;
                        checked = a;
                        planned =
                            plan_match-Planned outside c w1 key now eligible selection policy plan;
                        claimed =
                            claim_match-Claimed outside w1 w' key selection policy id match_id now m
                              a.sound trimmed (ap (lookup id) a.reservations ∙ fresh)
                              (ground arith);
                      }
                    ]
                  ]
            ]
      ]
