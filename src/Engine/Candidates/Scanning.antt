-- ===== src/Engine/Candidates/Scanning.antt =====
-- The first loop of `GenerateCandidates`: it rejects tickets that are not queued, and players with two of them.
use match_mind.Base.{
  All, Bool-cases, List, Map, Option-cases, [], arith, false, if◌then◌else◌, inl, inr, insert,
  lookup, refl, suc, true, ℕ, ◌&&◌, ◌==◌, ◌∙◌, ◌∷◌, ◌≡◌, and_left, and_right, ap, lookup-insert,
  none, some, subst, sym, ◌≤◌,
}
use match_mind.Engine.Candidates.{rejected, Decisions, duplicate, scan_players_once}
use match_mind.Engine.Candidates.Accepting.{
  Reasoned, Reasoned-insert, earlier_reason-insert, rejects,
}
use match_mind.Text.{Text, codes, text_eq, text_beq_iff}
use match_mind.Ticket.{MatchTicket, is_queue_candidate}

-- The first loop rejects every ticket that is not queued, and gives reasons.
pub scan_players_once-Reasoned :
    (seen : Map Text Text) (decisions : Decisions) (ts : List MatchTicket)
    → Reasoned decisions
    → Reasoned (scan_players_once seen decisions ts)
unfolding scan_players_once
scan_players_once-Reasoned seen decisions [] v = v
scan_players_once-Reasoned seen decisions (t ∷ ts) v = elim (Bool-cases (is_queue_candidate t)) [
  | inr other ↦ rw other (
      scan_players_once-Reasoned seen _ ts
        (Reasoned-insert t.id (rejected t.id (codes "ticket_not_queued")) decisions v (λ e. refl)))
  | inl queued ↦ elim (Option-cases (lookup t.player_id seen)) [
    | inl first ↦
        rw (queued, first)
          (scan_players_once-Reasoned (insert t.player_id t.id seen) decisions ts v)
    | inr (previous, again) ↦
        rw (queued, again)
          (scan_players_once-Reasoned seen _ ts (
            Reasoned-insert previous (rejected previous duplicate) _
              (Reasoned-insert t.id (rejected t.id duplicate) decisions v (λ e. refl)) (λ e. refl)))
  ]
]

rejects-insert :
    (id j : Text) (reason : Text) (decisions : Decisions)
    → rejects (insert id (rejected id reason) decisions) j
      ≡ (if id == j then true else rejects decisions j)
rejects-insert id j reason decisions =
    ground (arith, earlier_reason-insert id j (rejected id reason) decisions)

-- A turn of the loop.
record Turn (seen : Map Text Text) (decisions : Decisions) (t : MatchTicket) : Type 0 where
  next_seen : Map Text Text
  next : Decisions
  goes_on :
      (ts : List MatchTicket)
      → scan_players_once seen decisions (t ∷ ts) ≡ scan_players_once next_seen next ts
  keeps : (id : Text) → rejects decisions id ≡ true → rejects next id ≡ true
  unqueued : is_queue_candidate t ≡ false → rejects next t.id ≡ true
  remembers :
      (p previous : Text) → lookup p seen ≡ some previous → lookup p next_seen ≡ some previous
  overlooks :
      (p : Text)
      → (is_queue_candidate t && t.player_id == p) ≡ false
      → lookup p seen ≡ none
      → lookup p next_seen ≡ none
  meets_first :
      is_queue_candidate t ≡ true
      → lookup t.player_id seen ≡ none
      → lookup t.player_id next_seen ≡ some t.id
  meets_again :
      (previous : Text)
      → is_queue_candidate t ≡ true
      → lookup t.player_id seen ≡ some previous
      → (rejects next t.id ≡ true) × (rejects next previous ≡ true)

turn : (seen : Map Text Text) (decisions : Decisions) (t : MatchTicket) → Turn seen decisions t
unfolding scan_players_once
turn seen decisions t = elim (Bool-cases (is_queue_candidate t)) [
  | inr other ↦ record {
    next_seen = seen;
    next = insert t.id (rejected t.id (codes "ticket_not_queued")) decisions;
    goes_on = λ ts. rw other refl;
    keeps = λ id h. ground (arith, rejects-insert t.id id (codes "ticket_not_queued") decisions);
    unqueued = λ e. ground (
      arith,
      rejects-insert t.id t.id (codes "ticket_not_queued") decisions,
      text_beq_iff t.id t.id,
    );
    remembers = λ p previous h. h;
    overlooks = λ p e h. h;
    meets_first = λ q e. absurd (ground arith);
    meets_again = λ previous q e. absurd (ground arith);
  }
  | inl waits ↦ elim (Option-cases (lookup t.player_id seen)) [
    | inl first ↦ record {
      next_seen = insert t.player_id t.id seen;
      next = decisions;
      goes_on = λ ts. rw (waits, first) refl;
      keeps = λ id h. h;
      unqueued = λ e. absurd (ground arith);
      remembers = λ p previous h.
          ground (arith, lookup-insert t.player_id p t.id seen, text_beq_iff t.player_id p);
      overlooks = λ p e h. ground (arith, lookup-insert t.player_id p t.id seen);
      meets_first = λ q e. ground (
        arith,
        lookup-insert t.player_id t.player_id t.id seen,
        text_beq_iff t.player_id t.player_id,
      );
      meets_again = λ previous q e. absurd (ground arith);
    }
    | inr (previous, again) ↦
        let one = insert t.id (rejected t.id duplicate) decisions in
        record {
          next_seen = seen;
          next = insert previous (rejected previous duplicate) one;
          goes_on = λ ts. rw (waits, again) refl;
          keeps = λ id h. ground (
            arith,
            rejects-insert previous id duplicate one,
            rejects-insert t.id id duplicate decisions,
          );
          unqueued = λ e. absurd (ground arith);
          remembers = λ p j h. h;
          overlooks = λ p e h. h;
          meets_first = λ q e. absurd (ground arith);
          meets_again = λ j q e.
              let same : previous ≡ j = ground arith in
              (
                ground (
                  arith,
                  rejects-insert previous t.id duplicate one,
                  rejects-insert t.id t.id duplicate decisions,
                  text_beq_iff t.id t.id,
                ),
                subst (λ i. rejects (insert previous (rejected previous duplicate) one) i ≡ true)
                    same
                    (ground (
                      arith,
                      rejects-insert previous previous duplicate one,
                      text_beq_iff previous previous,
                    )),
              );
        }
  ]
]

scan_keeps :
    (seen : Map Text Text) (decisions : Decisions) (ts : List MatchTicket) (id : Text)
    → rejects decisions id ≡ true
    → rejects (scan_players_once seen decisions ts) id ≡ true
unfolding scan_players_once
scan_keeps seen decisions [] id h = h
scan_keeps seen decisions (t ∷ ts) id h =
    let n = turn seen decisions t in
    ap (λ d. rejects d id) (n.goes_on ts) ∙ scan_keeps n.next_seen n.next ts id (n.keeps id h)

pub scan_unqueued :
    (seen : Map Text Text) (decisions : Decisions) (ts : List MatchTicket)
    → All
        (λ t.
          is_queue_candidate t ≡ false → rejects (scan_players_once seen decisions ts) t.id ≡ true)
        ts
scan_unqueued seen decisions [] = tt
scan_unqueued seen decisions (t ∷ ts) =
    let n = turn seen decisions t in
    (
      λ other.
          ap (λ d. rejects d t.id) (n.goes_on ts)
          ∙ scan_keeps n.next_seen n.next ts t.id (n.unqueued other),
      subst (λ d. All (λ u. is_queue_candidate u ≡ false → rejects d u.id ≡ true) ts)
          (sym (n.goes_on ts)) (scan_unqueued n.next_seen n.next ts),
    )

-- How many queued tickets a player has.
unfoldable pub queued_of : Text → List MatchTicket → ℕ
queued_of p [] = 0
queued_of p (t ∷ ts) =
    let rest = queued_of p ts in if is_queue_candidate t && t.player_id == p then suc rest else rest

-- The queued tickets of a player are rejected.
abbrev pub Refused : Decisions → Text → List MatchTicket → Type 0
Refused d p ts = All (λ t. is_queue_candidate t ≡ true → t.player_id ≡ p → rejects d t.id ≡ true) ts

-- A player who has been seen: further tickets are rejected, and then the one that was seen first.
scan_again :
    (seen : Map Text Text) (decisions : Decisions) (ts : List MatchTicket) (p previous : Text)
    → lookup p seen ≡ some previous
    → Refused (scan_players_once seen decisions ts) p ts
      × (1 ≤ queued_of p ts → rejects (scan_players_once seen decisions ts) previous ≡ true)
unfolding queued_of
scan_again seen decisions [] p previous h = (tt, λ e. absurd (omega (arith, e)))
scan_again seen decisions (t ∷ ts) p previous h =
    let n = turn seen decisions t in
    let (rest, first) = scan_again n.next_seen n.next ts p previous (n.remembers p previous h) in
    let final = scan_players_once n.next_seen n.next ts in
    let twice : is_queue_candidate t ≡ true
        → t.player_id ≡ p
        → (rejects final t.id ≡ true) × (rejects final previous ≡ true) =
      λ waits mine.
        let (one, two) = n.meets_again previous waits (ap (λ i. lookup i seen) mine ∙ h) in
        (
          scan_keeps n.next_seen n.next ts t.id one,
          scan_keeps n.next_seen n.next ts previous two,
        ) in
    subst (λ d. Refused d p (t ∷ ts) × (1 ≤ queued_of p (t ∷ ts) → rejects d previous ≡ true))
      (sym (n.goes_on ts))
      (
        (λ waits mine. (twice waits mine).0, rest),
        λ some_more. elim (Bool-cases (is_queue_candidate t && t.player_id == p)) [
          | inl this ↦
              (twice (and_left (is_queue_candidate t) (t.player_id == p) this) (
                (text_beq_iff t.player_id p).0
                  (and_right (is_queue_candidate t) (t.player_id == p) this))).1
          | inr other ↦ first (ground arith)
        ],
      )

-- A player with two queued tickets: both are rejected.
pub scan_twice :
    (seen : Map Text Text) (decisions : Decisions) (ts : List MatchTicket) (p : Text)
    → lookup p seen ≡ none
    → 2 ≤ queued_of p ts
    → Refused (scan_players_once seen decisions ts) p ts
unfolding queued_of
scan_twice seen decisions [] p h many = tt
scan_twice seen decisions (t ∷ ts) p h many =
    let n = turn seen decisions t in
    let final = scan_players_once n.next_seen n.next ts in
    subst (λ d. Refused d p (t ∷ ts)) (sym (n.goes_on ts))
      (elim (Bool-cases (is_queue_candidate t && t.player_id == p)) [
        | inl this ↦
            let waits = and_left (is_queue_candidate t) (t.player_id == p) this in
            let mine : t.player_id ≡ p =
              (text_beq_iff t.player_id p).0
                (and_right (is_queue_candidate t) (t.player_id == p) this) in
            let seen_now : lookup p n.next_seen ≡ some t.id =
              ap (λ i. lookup i n.next_seen) (sym mine)
              ∙ n.meets_first waits (ap (λ i. lookup i seen) mine ∙ h) in
            let (rest, first) = scan_again n.next_seen n.next ts p t.id seen_now in
            ((λ w m. first (ground arith)), rest)
        | inr other ↦ (
          (λ w m. absurd (ground (arith, text_beq_iff t.player_id p))),
          scan_twice n.next_seen n.next ts p (n.overlooks p other h) (ground arith),
        )
      ])
