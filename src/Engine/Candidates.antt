-- ===== src/Engine/Candidates.antt =====
-- engine/candidate.go: the tickets of a pool that may be matched with the oldest one.
pub mod Accepting
pub mod Selecting
pub mod Scanning
pub mod Grouping
pub mod Unique
use match_mind.Base.{
  Bool, List, Map, Option, Result, [], false, if◌then◌else◌, insert, is_some, length, lookup, map,
  no_queued_tickets, none, not, ok, or_fail, some, true, ◌++◌, ◌+◌, ◌==◌, ◌>>=◌, ◌>>◌, ◌∷◌,
}
use match_mind.Base.Int.{ltb_ℤ, pos, ℤ}
use match_mind.Clock.{Time, sub_time}
use match_mind.Engine.{TicketGroup, clone_and_sort_tickets, group_tickets, move_anchor_group_first}
use match_mind.Float64.{Float64, float_abs, float_lt, float_sub}
use match_mind.Policy.{MatchPolicy, validate}
use match_mind.Policy.Limits.{rating_range, latency_limit}
use match_mind.Text.{Text, codes, is_empty, text_eq}
use match_mind.Ticket.{MatchTicket, is_queue_candidate}

pub record CandidateDecision : Type 0 where
  pub ticket_id : Text
  pub accepted : Bool
  pub reason : Text

pub record CandidateResult : Type 0 where
  pub anchor : Option MatchTicket
  pub tickets : List MatchTicket
  pub decisions : List CandidateDecision
  pub rating_range : Float64
  pub admissible_latency_ms : ℤ

abbrev pub Decisions : Type 0
Decisions = Map Text CandidateDecision

abbrev pub rejected : Text → Text → CandidateDecision
rejected id reason = record { ticket_id = id; accepted = false; reason = reason }

abbrev pub accepted_decision : Text → CandidateDecision
accepted_decision id = record { ticket_id = id; accepted = true; reason = codes "accepted" }

unfoldable pub oldest_queued : List MatchTicket → Option MatchTicket
oldest_queued [] = none
oldest_queued (t ∷ ts) = if is_queue_candidate t then some t else oldest_queued ts

abbrev pub duplicate : Text
duplicate = codes "duplicate_player"

-- The first loop: tickets that are not queued, and players with two tickets.
unfoldable pub scan_players_once : Map Text Text → Decisions → List MatchTicket → Decisions
scan_players_once seen decisions [] = decisions
scan_players_once seen decisions (t ∷ ts) =
    if not (is_queue_candidate t)
    then scan_players_once seen (insert t.id (rejected t.id (codes "ticket_not_queued")) decisions)
        ts
    else elim (lookup t.player_id seen) [
      | some previous ↦
          scan_players_once seen
            (insert previous (rejected previous duplicate)
              (insert t.id (rejected t.id duplicate) decisions))
            ts
      | none ↦ scan_players_once (insert t.player_id t.id seen) decisions ts
    ]

-- What the filters of a policy compare a ticket with.
pub record Window : Type 0 where
  pub anchor : MatchTicket
  pub rating_range : Float64
  pub latency_limit : ℤ
  pub max_latency_ms : ℤ

-- The `switch` of `groupRejectionReason`; no reason is the empty text.
unfoldable pub latency_reason : Window → Option ℤ → Text
latency_reason w none = codes "latency_missing"
latency_reason w (some latency) =
    if ltb_ℤ w.max_latency_ms latency
    then codes "latency_hard_limit"
    else if ltb_ℤ w.latency_limit latency
    then codes "latency_outside_window"
    else []

unfoldable pub ticket_reason : Window → MatchTicket → Text
ticket_reason w t =
    if not (t.mode == w.anchor.mode)
    then codes "mode_mismatch"
    else if not (t.client_version == w.anchor.client_version)
    then codes "client_version_mismatch"
    else if not (t.region == w.anchor.region)
    then codes "region_mismatch"
    else if not (is_empty (latency_reason w (lookup w.anchor.region t.region_latency)))
    then latency_reason w (lookup w.anchor.region t.region_latency)
    else if float_lt w.rating_range (float_abs (float_sub t.rating w.anchor.rating))
    then codes "rating_outside_window"
    else []

-- The reason of an earlier rejection of the ticket.
unfoldable pub earlier_reason : Decisions → Text → Option Text
earlier_reason decisions id = elim (lookup id decisions) [
  | none ↦ none
  | some d ↦ if d.accepted then none else some d.reason
]

unfoldable pub group_rejection_reason : Window → Decisions → List MatchTicket → Text
group_rejection_reason w decisions [] = []
group_rejection_reason w decisions (t ∷ ts) = elim (earlier_reason decisions t.id) [
  | some reason ↦ reason
  | none ↦
      let rest = group_rejection_reason w decisions ts in
      if is_empty (ticket_reason w t) then rest else ticket_reason w t
]

unfoldable pub reject_each : Text → List MatchTicket → Decisions → Decisions
reject_each reason [] decisions = decisions
reject_each reason (t ∷ ts) decisions = reject_each reason ts (
    if is_some (lookup t.id decisions)
    then decisions
    else insert t.id (rejected t.id reason) decisions)

unfoldable pub accept_each : List MatchTicket → Decisions → Decisions
accept_each [] decisions = decisions
accept_each (t ∷ ts) decisions = accept_each ts (insert t.id (accepted_decision t.id) decisions)

-- The reason to reject the group, with `candidate_limit` last.
unfoldable pub reason_for : Window → ℤ → List MatchTicket → Decisions → TicketGroup → Text
reason_for w limit taken decisions g =
    if not (is_empty (group_rejection_reason w decisions g.tickets))
    then group_rejection_reason w decisions g.tickets
    else if ltb_ℤ limit (pos (length taken + length g.tickets))
    then codes "candidate_limit"
    else []

-- The loop over the groups.
unfoldable pub take_groups :
    Window → ℤ → List MatchTicket → Decisions → List TicketGroup → List MatchTicket × Decisions
take_groups w limit taken decisions [] = (taken, decisions)
take_groups w limit taken decisions (g ∷ gs) =
    if is_empty (reason_for w limit taken decisions g)
    then take_groups w limit (taken ++ g.tickets) (accept_each g.tickets decisions) gs
    else take_groups w limit taken
        (reject_each (reason_for w limit taken decisions g) g.tickets decisions) gs

-- The last loop: one decision for each ticket, in order.
unfoldable pub decision_of : Decisions → MatchTicket → CandidateDecision
decision_of decisions t = elim (lookup t.id decisions) [
  | some d ↦ d
  | none ↦ rejected t.id (codes "not_selected")
]

unfoldable pub window_of : MatchPolicy → Time → MatchTicket → Window
window_of policy now anchor = record {
  anchor = anchor;
  rating_range = rating_range policy (sub_time now anchor.created_at);
  latency_limit = latency_limit policy (sub_time now anchor.created_at);
  max_latency_ms = policy.max_latency_ms;
}

-- `GenerateCandidates` from the ordered tickets and their anchor on.
unfoldable pub candidates_from :
    List MatchTicket → MatchTicket → Time → MatchPolicy → CandidateResult
candidates_from ordered anchor now policy =
    let w = window_of policy now anchor in
    let (taken, decisions) =
      take_groups w policy.candidate_limit [] (scan_players_once [] [] ordered)
        (move_anchor_group_first (group_tickets ordered) anchor) in
    record {
      anchor = some anchor;
      tickets = taken;
      decisions = map (decision_of decisions) ordered;
      rating_range = w.rating_range;
      admissible_latency_ms = w.latency_limit;
    }

unfoldable pub generate_candidates :
    List (Option MatchTicket) → Time → MatchPolicy → Result CandidateResult
generate_candidates tickets now policy = do
  validate policy
  let ordered = clone_and_sort_tickets tickets
  anchor ← or_fail (oldest_queued ordered) no_queued_tickets
  ok (candidates_from ordered anchor now policy)
