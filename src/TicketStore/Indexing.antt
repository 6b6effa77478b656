-- ===== src/TicketStore/Indexing.antt =====
-- The index part of the invariant under the changes that calls make.
use match_mind.Base.{
  All, Bool-cases, List, Map, Option-cases, [], arith, contains, distinct-insert, false, inl, inr,
  insert, keys, lookup-delete, lookup-insert, lookup-tail, lookup_or, none, some, subst, sym, true,
  values, ◌==◌, ◌∙◌, ◌∷◌, ◌≡◌, distinct, lookup, ap,
}
use match_mind.Text.{Text, text_beq_iff, text_eq}
use match_mind.Ticket.{MatchTicket}
use match_mind.TicketStore.{Tickets, put_all, complete_each, delete_active, has_active, TicketStore}
use match_mind.TicketStore.Effects.{changed}
use match_mind.TicketStore.Invariant.{Indexed, is_waiting, changed_outside}

pub put_all-distinct :
    (updated tickets : Tickets)
    → distinct (keys tickets) ≡ true
    → distinct (keys (put_all updated tickets)) ≡ true
unfolding put_all
put_all-distinct [] tickets h = h
put_all-distinct ((id, t) ∷ updated) tickets h =
    distinct-insert id t (put_all updated tickets) (put_all-distinct updated tickets h)

-- Tickets change that keep their ID and player, and none begins to wait.
module _ (tickets after_tickets : Tickets) (active : Map Text Text) (ids : List Text)
    (g : MatchTicket → MatchTicket) (v : Indexed tickets active)
    (unique : distinct (keys after_tickets) ≡ true) (same_id : (t : MatchTicket) → (g t).id ≡ t.id)
    (same_player : (t : MatchTicket) → (g t).player_id ≡ t.player_id)
    (still : (j : Text) (t : MatchTicket)
      → contains j ids ≡ true
      → lookup j tickets ≡ some t
      → is_waiting (g t) ≡ true
      → is_waiting t ≡ true)
    (effect : (j : Text) → lookup j after_tickets ≡ changed g ids tickets tickets j) where
  change_entry :
      (j : Text) (u : MatchTicket)
      → lookup j after_tickets ≡ some u
      → (u.id ≡ j) × (is_waiting u ≡ true → lookup u.player_id active ≡ some j)
  change_entry j u found = elim (Bool-cases (contains j ids)) [
    | inr outside ↦
        let found' = sym (effect j ∙ changed_outside g ids tickets j outside) ∙ found in
        (v.keyed j u found', v.waiting j u found')
    | inl inside ↦ elim (Option-cases (lookup j tickets)) [
      | inl missing ↦ absurd (ground (arith, effect j))
      | inr (t, found') ↦
          let e : u ≡ g t = ground (arith, effect j) in
          (
            ground (arith, e, same_id t, v.keyed j t found'),
            λ w.
                let w' = still j t inside found' (subst (λ x. is_waiting x ≡ true) e w) in
                rw (e, same_player t) (v.waiting j t found' w'),
          )
    ]
  ]

  pub change-Indexed : Indexed after_tickets active
  change-Indexed = record {
    unique = unique;
    keyed = λ j u found. (change_entry j u found).0;
    waiting = λ j u found. (change_entry j u found).1;
  }

-- A new ticket of a player who has no active one.
create_entry :
    (s : TicketStore) (t : MatchTicket) (j : Text) (u : MatchTicket)
    → Indexed s.tickets s.active_by_player
    → lookup t.id s.tickets ≡ none
    → has_active s t.player_id ≡ false
    → lookup j (insert t.id t s.tickets) ≡ some u
    → (u.id ≡ j)
      × (is_waiting u ≡ true
          → lookup u.player_id (insert t.player_id t.id s.active_by_player) ≡ some j)
create_entry s t j u v new idle found = elim (Bool-cases (t.id == j)) [
  | inl same ↦
      let e : t ≡ u = ground (arith, lookup-insert t.id j t s.tickets) in
      (
        ground (arith, text_beq_iff t.id j),
        λ _. rw (← e) (
            ground (
              arith,
              lookup-insert t.player_id t.player_id t.id s.active_by_player,
              text_beq_iff t.player_id t.player_id,
              text_beq_iff t.id j,
            )),
      )
  | inr other ↦
      let found' : lookup j s.tickets ≡ some u = ground (arith, lookup-insert t.id j t s.tickets) in
      (
        v.keyed j u found',
        λ w.
            let indexed = v.waiting j u found' w in
            ground (
              arith,
              lookup-insert t.player_id u.player_id t.id s.active_by_player,
              text_beq_iff t.player_id u.player_id,
            ),
      )
]

pub create-Indexed :
    (s : TicketStore) (t : MatchTicket)
    → Indexed s.tickets s.active_by_player
    → lookup t.id s.tickets ≡ none
    → has_active s t.player_id ≡ false
    → Indexed (insert t.id t s.tickets) (insert t.player_id t.id s.active_by_player)
create-Indexed s t v new idle = record {
  unique = distinct-insert t.id t s.tickets v.unique;
  keyed = λ j u found. (create_entry s t j u v new idle found).0;
  waiting = λ j u found. (create_entry s t j u v new idle found).1;
}

-- A ticket stops waiting, and the index forgets it if it gave it.
pub cancel-Indexed :
    (tickets : Tickets) (active : Map Text Text) (i : Text) (t u : MatchTicket)
    → Indexed tickets active
    → lookup i tickets ≡ some t
    → u.id ≡ t.id
    → is_waiting u ≡ false
    → Indexed (insert i u tickets) (delete_active t.player_id i active)
cancel-Indexed tickets active i t u v found same stopped = record {
  unique = distinct-insert i u tickets v.unique;
  keyed = λ j w at.
      ground (arith, lookup-insert i j u tickets, text_beq_iff i j, v.keyed i t found, v.keyed j w);
  waiting = λ j w at waits.
      let at' : lookup j tickets ≡ some w = ground (arith, lookup-insert i j u tickets) in
      let indexed = v.waiting j w at' waits in
      ground (
        arith,
        lookup-insert i j u tickets,
        text_beq_iff i j,
        lookup-delete t.player_id w.player_id active,
        text_beq_iff t.player_id w.player_id,
        text_beq_iff (lookup_or [] t.player_id active) i,
      );
}

-- Every value is the ticket that stands under its ID.
values-stored :
    (tickets m : Tickets)
    → ((j : Text) (t : MatchTicket) → lookup j tickets ≡ some t → t.id ≡ j)
    → distinct (keys m) ≡ true
    → ((j : Text) (t : MatchTicket) → lookup j m ≡ some t → lookup j tickets ≡ some t)
    → All (λ t. lookup t.id tickets ≡ some t) (values m)
unfolding distinct lookup
values-stored tickets [] keyed d sub = tt
values-stored tickets ((k, t) ∷ m) keyed d sub =
    let found = sub k t (ground (arith, text_beq_iff k k)) in
    (
      ap (λ q. lookup q tickets) (keyed k t found) ∙ found,
      values-stored tickets m keyed (ground arith) (λ j u h. sub j u (lookup-tail k t j u m d h)),
    )

complete_each-kept :
    (tickets : Tickets) (match_id : Text) (ts : List MatchTicket) (active : Map Text Text)
    (j : Text) (w : MatchTicket)
    → All (λ t. lookup t.id tickets ≡ some t) ts
    → lookup j tickets ≡ some w
    → is_waiting w ≡ true
    → lookup w.player_id active ≡ some j
    → lookup w.player_id (complete_each match_id ts active) ≡ some j
unfolding complete_each
complete_each-kept tickets match_id [] active j w all found waits h = h
complete_each-kept tickets match_id (t ∷ ts) active j w all found waits h =
    complete_each-kept tickets match_id ts _ j w all.1 found waits (
      ground (
        arith,
        all.0,
        lookup-delete t.player_id w.player_id active,
        text_beq_iff t.player_id w.player_id,
        text_beq_iff (lookup_or [] t.player_id active) t.id,
      ))

-- Completing a match forgets assigned tickets only.
pub complete-Indexed :
    (tickets : Tickets) (active : Map Text Text) (match_id : Text)
    → Indexed tickets active
    → Indexed tickets (complete_each match_id (values tickets) active)
complete-Indexed tickets active match_id v = record {
  unique = v.unique;
  keyed = v.keyed;
  waiting = λ j w found waits.
      complete_each-kept tickets match_id (values tickets) active j w
        (values-stored tickets tickets v.keyed v.unique (λ i t h. h)) found waits
        (v.waiting j w found waits);
}
