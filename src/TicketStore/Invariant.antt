-- ===== src/TicketStore/Invariant.antt =====
-- What holds of the store between two calls, in two parts: the reservations against the tickets, and the
-- index of active tickets against the tickets.
use match_mind.Base.{
  Bool, List, Map, arith, contains, distinct, false, keys, lookup, some, true, ◌||◌, ◌≡◌,
}
use match_mind.Clock.{Time}
use match_mind.Text.{Text, is_empty, text_eq}
use match_mind.Ticket.{MatchTicket, is_queue_candidate, is_reserved}
use match_mind.TicketStore.{Tickets, TicketStore}
use match_mind.TicketStore.Effects.{changed}

-- The tickets of `ids` are there, and held by the reservation until `expires_at`.
abbrev pub Holds : Tickets → Text → Time → List Text → Type 0
Holds tickets reservation_id expires_at ids =
    (j : Text)
    → contains j ids ≡ true
    → (t : MatchTicket) × (lookup j tickets ≡ some t)
      × (is_reserved t.state ≡ true)
      × (t.reservation_id ≡ reservation_id)
      × (t.reservation_expires_at ≡ expires_at)

-- A reservation that is recorded holds its tickets, and a reserved ticket is in the reservation that it names.
pub record Reserved (tickets : Tickets) (reservations : Map Text (List Text)) : Type 0 where
  pub unique : distinct (keys reservations) ≡ true
  pub held :
      (r : Text) (ids : List Text)
      → lookup r reservations ≡ some ids
      → (expires_at : Time) × (is_empty r ≡ false)
        × (distinct ids ≡ true)
        × Holds tickets r expires_at ids
  pub owned :
      (j : Text) (t : MatchTicket)
      → lookup j tickets ≡ some t
      → is_reserved t.state ≡ true
      → (ids : List Text) × (lookup t.reservation_id reservations ≡ some ids)
        × (contains j ids ≡ true)

-- A ticket that waits in the queue, reserved or not.
abbrev pub is_waiting : MatchTicket → Bool
is_waiting t = is_queue_candidate t || is_reserved t.state

-- Tickets stand under their IDs, and a waiting ticket is the one that the index gives for its player.
pub record Indexed (tickets : Tickets) (active : Map Text Text) : Type 0 where
  pub unique : distinct (keys tickets) ≡ true
  pub keyed : (j : Text) (t : MatchTicket) → lookup j tickets ≡ some t → t.id ≡ j
  pub waiting :
      (j : Text) (t : MatchTicket)
      → lookup j tickets ≡ some t
      → is_waiting t ≡ true
      → lookup t.player_id active ≡ some j

pub record Inv (s : TicketStore) : Type 0 where
  pub reserved_part : Reserved s.tickets s.reservations
  pub indexed_part : Indexed s.tickets s.active_by_player

-- Map.lookup at an ID of the changed tickets, and at another.
pub changed_inside :
    (g : MatchTicket → MatchTicket) (ids : List Text) (tickets : Tickets) (j : Text)
    {t : MatchTicket}
    → contains j ids ≡ true
    → lookup j tickets ≡ some t
    → changed g ids tickets tickets j ≡ some (g t)
changed_inside g ids tickets j c h = ground arith

pub changed_outside :
    (g : MatchTicket → MatchTicket) (ids : List Text) (tickets : Tickets) (j : Text)
    → contains j ids ≡ false
    → changed g ids tickets tickets j ≡ lookup j tickets
changed_outside g ids tickets j c = ground arith
