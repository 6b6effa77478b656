-- ===== src/Engine/Candidates/Unique.antt =====
-- The candidates of `GenerateCandidates`: queued, within the window, not too many, and one for each player.
use match_mind.Base.{
  All, All-both, All-map, Bool-cases, List, Option, Option-cases, [], arith, false, if◌then◌else◌,
  inl, inr, leb, length, lookup, ok, refl, some, subst, suc, sym, ap, true, ◌++◌, ℕ, ◌==◌, ◌∷◌, ◌≡◌,
  ◌≤◌, ◌⊎◌,
}
use match_mind.Base.Int.{pos, ℤ, ◌≤ℤ◌, ◌*ℤ◌}
use match_mind.Clock.{Time}
use match_mind.Engine.{clone_and_sort_tickets, group_tickets, move_anchor_group_first}
use match_mind.Engine.Candidates.{
  CandidateResult, Decisions, Window, candidates_from, earlier_reason, generate_candidates,
  oldest_queued, scan_players_once, take_groups, window_of,
}
use match_mind.Engine.Candidates.Accepting.{Fits, rejects}
use match_mind.Engine.Candidates.Grouping.{grouped-AllOf, grouped-total, take_groups-total}
use match_mind.Engine.Candidates.Scanning.{
  Refused, queued_of, scan_players_once-Reasoned, scan_twice, scan_unqueued,
}
use match_mind.Engine.Candidates.Selecting.{Chosen, take_groups-Chosen, take_groups-limit}
use match_mind.Policy.{MatchPolicy, validate}
use match_mind.Text.{Text, text_beq_iff, text_eq}
use match_mind.Ticket.{MatchTicket, is_queue_candidate}

-- How many of the tickets are of the player.
unfoldable pub player_count : Text → List MatchTicket → ℕ
player_count p [] = 0
player_count p (t ∷ ts) =
    let rest = player_count p ts in if t.player_id == p then suc rest else rest

-- What the first loop has found out about a ticket.
abbrev Scanned : List MatchTicket → MatchTicket → Type 0
Scanned ordered t =
    (is_queue_candidate t ≡ false → rejects (scan_players_once [] [] ordered) t.id ≡ true)
    × (is_queue_candidate t ≡ true
        → 2 ≤ queued_of t.player_id ordered
        → rejects (scan_players_once [] [] ordered) t.id ≡ true)

duplicates_lem :
    (d : Decisions) (ordered ts : List MatchTicket)
    → ((p : Text) → 2 ≤ queued_of p ordered → Refused d p ts)
    → All
        (λ t.
          is_queue_candidate t ≡ true → 2 ≤ queued_of t.player_id ordered → rejects d t.id ≡ true)
        ts
duplicates_lem d ordered [] h = tt
duplicates_lem d ordered (t ∷ ts) h = (
  (λ waits many. (h t.player_id many).0 waits refl),
  duplicates_lem d ordered ts (λ p many. (h p many).1),
)

ordered-Scanned : (ordered : List MatchTicket) → All (Scanned ordered) ordered
unfolding lookup
ordered-Scanned ordered =
    let d = scan_players_once [] [] ordered in
    All-both (λ t. is_queue_candidate t ≡ false → rejects d t.id ≡ true)
      (λ t. is_queue_candidate t ≡ true → 2 ≤ queued_of t.player_id ordered → rejects d t.id ≡ true)
      ordered (scan_unqueued [] [] ordered)
      (duplicates_lem d ordered ordered (λ p many. scan_twice [] [] ordered p refl many))

-- A candidate.
pub record IsCandidate (w : Window) (ordered : List MatchTicket) (t : MatchTicket) : Type 0 where
  pub waits : is_queue_candidate t ≡ true
  pub fits : Fits w t
  pub only_one : queued_of t.player_id ordered ≤ 1

Chosen-IsCandidate :
    (w : Window) (ordered : List MatchTicket) (t : MatchTicket)
    → Chosen w (scan_players_once [] [] ordered) (Scanned ordered) t
    → IsCandidate w ordered t
Chosen-IsCandidate w ordered t ((fits, free), (unqueued, twice)) =
    let waits : is_queue_candidate t ≡ true = ground (arith, unqueued) in
    record {
      waits = waits;
      fits = fits;
      only_one = elim (Bool-cases (leb (queued_of t.player_id ordered) 1)) [
        | inl few ↦ ground arith
        | inr many ↦ let bad = twice waits (ground arith) in absurd (ground arith)
      ];
    }

-- The candidates, and how often a player is among them.
taken_of : List MatchTicket → MatchTicket → Time → MatchPolicy → List MatchTicket
unfolding candidates_from
taken_of ordered anchor now policy = (candidates_from ordered anchor now policy).tickets

counted :
    (w : Window) (ordered ts : List MatchTicket) (p : Text)
    → All (IsCandidate w ordered) ts
    → (player_count p ts ≡ queued_of p ts) × ((player_count p ts ≡ 0) ⊎ (queued_of p ordered ≤ 1))
unfolding player_count queued_of
counted w ordered [] p h = (refl, inl refl)
counted w ordered (t ∷ ts) p (first, h) =
    let (same, some_one) = counted w ordered ts p h in
    elim (Bool-cases (t.player_id == p)) [
      | inl this ↦
          let e = (text_beq_iff t.player_id p).0 this in
          (ground (arith, first.waits), inr (subst (λ q. queued_of q ordered ≤ 1) e first.only_one))
      | inr other ↦
          (ground arith, elim some_one [ inl none_of ↦ inl (ground arith) | inr one ↦ inr one ])
    ]

-- The tickets that `GenerateCandidates` accepts.
pub record AreCandidates (w : Window) (limit : ℤ) (ordered ts : List MatchTicket) : Type 0 where
  pub each : All (IsCandidate w ordered) ts
  pub bounded : pos (length ts) ≤ℤ limit
  pub once : (p : Text) → player_count p ts ≤ 1

candidates_from_lem :
    (ordered : List MatchTicket) (anchor : MatchTicket) (now : Time) (policy : MatchPolicy)
    → pos 0 ≤ℤ policy.candidate_limit
    → AreCandidates
        (window_of policy now anchor)
        policy.candidate_limit
        ordered
        (candidates_from ordered anchor now policy).tickets
unfolding candidates_from queued_of earlier_reason lookup
candidates_from_lem ordered anchor now policy room =
    let w = window_of policy now anchor in
    let start = scan_players_once [] [] ordered in
    let gs = move_anchor_group_first (group_tickets ordered) anchor in
    let each =
      All-map (Chosen w start (Scanned ordered)) (IsCandidate w ordered)
        (take_groups w policy.candidate_limit [] start gs).0 (Chosen-IsCandidate w ordered)
        (take_groups-Chosen w policy.candidate_limit start (Scanned ordered) [] start gs
          (scan_players_once-Reasoned [] [] ordered (λ id reason h. absurd (ground arith)))
          (λ id h. h) tt
          (grouped-AllOf (Scanned ordered) ordered anchor (ordered-Scanned ordered))) in
    record {
      each = each;
      bounded = take_groups-limit w policy.candidate_limit [] start gs room;
      once = λ p.
          let (same, few) =
            counted w ordered (take_groups w policy.candidate_limit [] start gs).0 p each in
          let total = take_groups-total w policy.candidate_limit p [] start gs in
          let whole = grouped-total p ordered anchor in
          elim few [
            | inl none_of ↦ omega (arith, none_of)
            | inr one ↦ omega (arith, same, total, whole, one)
          ];
    }

validate-limit : (policy : MatchPolicy) → validate policy ≡ ok tt → pos 0 ≤ℤ policy.candidate_limit
unfolding validate ◌*ℤ◌
validate-limit policy h = ground arith

-- A ticket waits, and no ticket before it in the list does.
pub record IsFirstQueued (ordered : List MatchTicket) (t : MatchTicket) : Type 0 where
  pub earlier : List MatchTicket
  pub later : List MatchTicket
  pub splits : ordered ≡ earlier ++ (t ∷ later)
  pub waits : is_queue_candidate t ≡ true
  pub others : All (λ u. is_queue_candidate u ≡ false) earlier

oldest_queued-IsFirstQueued :
    (ordered : List MatchTicket) (t : MatchTicket)
    → oldest_queued ordered ≡ some t
    → IsFirstQueued ordered t
unfolding oldest_queued
oldest_queued-IsFirstQueued [] t h = absurd (ground arith)
oldest_queued-IsFirstQueued (u ∷ us) t h = elim (Bool-cases (is_queue_candidate u)) [
  | inl queued ↦
      let e : u ≡ t = ground arith in
      subst (IsFirstQueued (u ∷ us)) e
        (record { earlier = []; later = us; splits = refl; waits = queued; others = tt })
  | inr unqueued ↦
      let rest = oldest_queued-IsFirstQueued us t (ground arith) in
      record {
        earlier = u ∷ rest.earlier;
        later = rest.later;
        splits = ap (λ xs. u ∷ xs) rest.splits;
        waits = rest.waits;
        others = (unqueued, rest.others);
      }
]

-- When `GenerateCandidates` succeeds, its anchor is the first ticket in the queue in the order of the
-- creation times (no ticket before it is in the queue), the accepted tickets are at most the candidate
-- limit, each of them is in the queue, fits the window of the anchor, and is the only ticket in the queue
-- of its player, and no player has two of them.
pub generate_candidates-AreCandidates :
    (tickets : List (Option MatchTicket)) (now : Time) (policy : MatchPolicy) (r : CandidateResult)
    → generate_candidates tickets now policy ≡ ok r
    → (anchor : MatchTicket) × (r.anchor ≡ some anchor)
      × IsFirstQueued (clone_and_sort_tickets tickets) anchor
      × AreCandidates
          (window_of policy now anchor)
          policy.candidate_limit
          (clone_and_sort_tickets tickets)
          r.tickets
unfolding generate_candidates candidates_from
generate_candidates-AreCandidates tickets now policy r h =
    elim (Option-cases (oldest_queued (clone_and_sort_tickets tickets))) [
      | inl missing ↦ absurd (ground arith)
      | inr (anchor, found) ↦
          let ordered = clone_and_sort_tickets tickets in
          let e : candidates_from ordered anchor now policy ≡ r = ground arith in
          (
            anchor,
            ap (λ x. x.anchor) (sym e),
            oldest_queued-IsFirstQueued ordered anchor found,
            subst
                (λ x.
                  AreCandidates (window_of policy now anchor) policy.candidate_limit ordered
                    x.tickets)
                e
                (candidates_from_lem ordered anchor now policy
                  (validate-limit policy (ground arith))),
          )
    ]
