-- ===== src/MatchService/Completing.antt =====
-- What `CompleteMatch` leaves.
use match_mind.Allocator.{release}
use match_mind.Base.{
  Bool-cases, List, Map, Option-cases, [], arith, false, inl, inr, lookup, lookup-delete, some,
  true, values, ◌==◌, ◌∷◌, ◌≡◌, ◌≢◌, Context, Error, Result-cases, ap, delete, eq_self, none, ok,
  refl, subst, sym, ◌∙◌,
}
use match_mind.Clock.{Time}
use match_mind.Match.{move, complete, finished, Match, MatchResult, MatchState, state_beq}
use match_mind.MatchService.{
  Interference, World, complete_match, conclude, get_match, met_goal, release_server,
  resolve_completion_conflict, write_completed,
}
use match_mind.MatchStore.{get, update}
use match_mind.MatchStore.Locking.{update_lem}
use match_mind.Text.{Text, text_beq_iff, text_eq, trim_space, is_empty}
use match_mind.Ticket.{MatchTicket, is_assigned}
use match_mind.TicketStore.{complete_each, delete_active, complete_assigned_tickets}

lookup-delete_active-only :
    (player id q j : Text) (active : Map Text Text)
    → lookup q (delete_active player id active) ≡ some j
    → (lookup q active ≡ some j) × ((player == q) ≡ true → (id == j) ≡ false)
lookup-delete_active-only player id q j active h = elim (Option-cases (lookup player active)) [
  | inl missing ↦ ground (arith, text_beq_iff player q, lookup-delete player q active)
  | inr (i, found) ↦ ground (
    arith,
    text_beq_iff player q,
    text_beq_iff id i,
    text_beq_iff i id,
    text_beq_iff id j,
    lookup-delete player q active,
  )
]

-- The loop only deletes.
complete_each-only :
    (match_id q j : Text) (ts : List MatchTicket) (active : Map Text Text)
    → lookup q (complete_each match_id ts active) ≡ some j
    → lookup q active ≡ some j
unfolding complete_each
complete_each-only match_id q j [] active h = h
complete_each-only match_id q j (t ∷ ts) active h =
    let rest = complete_each-only match_id q j ts _ h in
    ground (arith, rest, lookup-delete_active-only t.player_id t.id q j active)

-- An assigned ticket of the match is no longer the active one of its player.
complete_each-frees :
    (match_id i : Text) (t : MatchTicket) (m : Map Text MatchTicket) (active : Map Text Text)
    → lookup i m ≡ some t
    → is_assigned t.state ≡ true
    → t.match_id ≡ match_id
    → lookup t.player_id (complete_each match_id (values m) active) ≢ some t.id
unfolding complete_each lookup
complete_each-frees match_id i t [] active found a same h = absurd (ground arith)
complete_each-frees match_id i t ((k, u) ∷ m) active found a same h = elim (Bool-cases (k == i)) [
  | inr other ↦ complete_each-frees match_id i t m _ (ground arith) a same h
  | inl this ↦
      let rest = complete_each-only match_id t.player_id t.id (values m) _ h in
      ground (
        arith,
        rest,
        text_beq_iff t.match_id match_id,
        text_beq_iff t.player_id t.player_id,
        text_beq_iff t.id t.id,
        lookup-delete_active-only t.player_id t.id t.player_id t.id active,
      )
]

-- Matches stand under their IDs.
abbrev pub Named : World → Type 0
Named w = (id : Text) (m : Match) → lookup id w.matches ≡ some m → m.id ≡ id

-- The match is over: it is stored as finished, holds no server, and keeps no player from queueing again.
pub record Closed (w : World) (m : Match) : Type 0 where
  pub over : state_beq m.state finished ≡ true
  pub stored : lookup m.id w.matches ≡ some m
  pub no_server : lookup (trim_space m.id) w.servers.allocations ≡ none
  pub freed :
      (i : Text) (t : MatchTicket)
      → lookup i w.tickets.tickets ≡ some t
      → is_assigned t.state ≡ true
      → t.match_id ≡ trim_space m.id
      → lookup t.player_id w.tickets.active_by_player ≢ some t.id

-- What a conclusion that succeeds has done.
conclude_lem :
    (ctx : Context) (w w' : World) (m n : Match)
    → conclude ctx w m ≡ (w', ok n)
    → (m ≡ n)
      × (w'.matches ≡ w.matches)
      × (w'.servers.allocations ≡ delete (trim_space m.id) w.servers.allocations)
      × (w'.tickets.tickets ≡ w.tickets.tickets)
      × (w'.tickets.active_by_player
          ≡ complete_each (trim_space m.id) (values w.tickets.tickets) w.tickets.active_by_player)
unfolding conclude release_server release complete_assigned_tickets
conclude_lem ctx w w' m n h = elim (Result-cases (complete_assigned_tickets ctx w.tickets m.id)) [
  | inr (e, refused) ↦ absurd (ground arith)
  | inl (tickets, done) ↦ elim (Result-cases (release ctx w.servers m.id)) [
    | inr (e, refused) ↦ absurd (ground arith)
    | inl (servers, freed) ↦ (ground arith, ground arith, ground arith, ground arith, ground arith)
  ]
]

conclude-Closed :
    (ctx : Context) (w w' : World) (m n : Match)
    → state_beq m.state finished ≡ true
    → lookup m.id w.matches ≡ some m
    → conclude ctx w m ≡ (w', ok n)
    → Closed w' n
conclude-Closed ctx w w' m n over stored h =
    let (same, matches, servers, tickets, active) = conclude_lem ctx w w' m n h in
    subst (Closed w') same (record {
      over = over;
      stored = ap (lookup m.id) matches ∙ stored;
      no_server =
          ap (lookup (trim_space m.id)) servers
          ∙ lookup-delete (trim_space m.id) (trim_space m.id) w.servers.allocations
          ∙ rw (eq_self (trim_space m.id)) refl;
      freed = λ i t found a mine held.
          complete_each-frees (trim_space m.id) i t w.tickets.tickets w.tickets.active_by_player
            (sym (ap (lookup i) tickets) ∙ found) a mine
            (sym (ap (lookup t.player_id) active) ∙ held);
    })

get_match_lem :
    (ctx : Context) (w : World) (id : Text) (m : Match)
    → Named w
    → get_match ctx w id ≡ ok m
    → lookup m.id w.matches ≡ some m
unfolding get_match get
get_match_lem ctx w id m v h =
    let found : lookup (trim_space (trim_space id)) w.matches ≡ some m = ground arith in
    subst (λ k. lookup k w.matches ≡ some m) (sym (v (trim_space (trim_space id)) m found)) found

met_goal_lem :
    (ctx : Context) (w : World) (id : Text) (goal : MatchState) (e : Error) (m : Match)
    → met_goal ctx w id goal e ≡ some m
    → (get_match ctx w id ≡ ok m) × (state_beq m.state goal ≡ true)
unfolding met_goal
met_goal_lem ctx w id goal e m h = elim (Result-cases (get_match ctx w id)) [
  | inr (e', refused) ↦ absurd (ground arith)
  | inl (n, found) ↦ (ground arith, ground arith)
]

complete_over :
    (m n : Match) (result : MatchResult) (now : Time)
    → complete m result now ≡ ok n
    → (state_beq n.state finished ≡ true) × (n.id ≡ m.id)
unfolding complete move
complete_over m n result now h = (ground arith, ground arith)

write_completed-Closed :
    (ctx : Context) (w w' : World) (id : Text) (n m : Match)
    → Named w
    → state_beq n.state finished ≡ true
    → write_completed ctx w id n ≡ (w', ok m)
    → Closed w' m
unfolding write_completed resolve_completion_conflict
write_completed-Closed ctx w w' id n m v over h = elim (Result-cases (update ctx w.matches n)) [
  | inl (matches, done) ↦
      let (current, found, revision, after) = update_lem ctx w.matches matches n done in
      conclude-Closed ctx (record w { matches = matches }) w' n m over
        (after n.id ∙ rw (eq_self n.id) refl) (ground arith)
  | inr (e, refused) ↦ elim (Option-cases (met_goal ctx w id finished e)) [
    | inl unmet ↦ absurd (ground arith)
    | inr (current, met) ↦
        let (found, goal) = met_goal_lem ctx w id finished e current met in
        conclude-Closed ctx w w' current m goal (get_match_lem ctx w id current v found)
          (ground arith)
  ]
]

-- When `CompleteMatch` succeeds with a match, on a store whose matches stand under their IDs and whatever
-- other clients do in between that keeps it so, the match is stored as finished and holds no server, and
-- the index of active tickets names no ticket that is assigned to it.
pub complete_match-Closed :
    (ctx : Context) (w w' : World) (other : Interference) (id : Text) (result : MatchResult)
    (now : Time) (m : Match)
    → Named w
    → Named (other w)
    → complete_match ctx w other id result now ≡ (w', ok m)
    → Closed w' m
unfolding complete_match
complete_match-Closed ctx w w' other id result now m v v' h =
    elim (Result-cases (get_match ctx w id)) [
      | inr (e, refused) ↦ absurd (ground arith)
      | inl (n, found) ↦ elim (Bool-cases (state_beq n.state finished)) [
        | inl over ↦
            conclude-Closed ctx w w' n m over (get_match_lem ctx w id n v found) (ground arith)
        | inr playing ↦ elim (Result-cases (complete n result now)) [
          | inr (e, refused) ↦ absurd (ground arith)
          | inl (done, ended) ↦
              write_completed-Closed ctx (other w) w' id done m v'
                (complete_over n done result now ended).0 (ground arith)
        ]
      ]
    ]

-- The world after a conclusion.
abbrev concluded : World → Match → World
concluded w m = record w {
  tickets = record w.tickets {
    active_by_player =
        complete_each (trim_space m.id) (values w.tickets.tickets) w.tickets.active_by_player;
  };
  servers = record w.servers { allocations = delete (trim_space m.id) w.servers.allocations };
}

conclude_total :
    (w : World) (m : Match)
    → is_empty (trim_space m.id) ≡ false
    → conclude none w m ≡ (concluded w m, ok m)
unfolding conclude release_server release complete_assigned_tickets
conclude_total w m named = rw (named, conclude) refl

get_match_found :
    (w : World) (id : Text) (m : Match)
    → trim_space (trim_space id) ≡ m.id
    → lookup m.id w.matches ≡ some m
    → get_match none w id ≡ ok m
unfolding get_match get
get_match_found w id m same found = rw (same, found) refl

complete_finished :
    (w : World) (other : Interference) (id : Text) (result : MatchResult) (now : Time) (m : Match)
    → get_match none w id ≡ ok m
    → state_beq m.state finished ≡ true
    → complete_match none w other id result now ≡ conclude none w m
unfolding complete_match
complete_finished w other id result now m found over = rw (found, over, complete_match) refl

-- Where a match is stored as finished, holds no server and has no active ticket, `CompleteMatch` under its
-- nonblank ID succeeds with that match whatever the result that it is given, leaves the store of matches
-- as it is, and all three still hold.
pub complete_match_retry :
    (w : World) (other : Interference) (id : Text) (result : MatchResult) (now : Time) (m : Match)
    → Closed w m
    → trim_space (trim_space id) ≡ m.id
    → is_empty (trim_space m.id) ≡ false
    → (w' : World) × (complete_match none w other id result now ≡ (w', ok m))
      × (w'.matches ≡ w.matches)
      × Closed w' m
complete_match_retry w other id result now m closed same named =
    let found = get_match_found w id m same closed.stored in
    let done = conclude_total w m named in
    (
      concluded w m,
      complete_finished w other id result now m found closed.over ∙ done,
      refl,
      conclude-Closed none w (concluded w m) m m closed.over closed.stored done,
    )
