-- ===== src/Engine.antt =====
-- internal/matchmaking/engine: tickets in groups, which a team takes or leaves as a whole. A pointer to a ticket
-- that may be nil is an Option; Clone gives an equal value.
pub mod Candidates
pub mod Teams
pub mod Quality
pub mod Beam
pub mod Searching
use match_mind.Base.{
  Bool, List, Option, [], false, if◌then◌else◌, nat_beq, none, some, sort_stable, ◌++◌, ◌==◌, ◌||◌,
  ◌∷◌,
}
use match_mind.Clock.{before}
use match_mind.Text.{Text, codes, is_empty, text_lt, text_eq}
use match_mind.Ticket.{MatchTicket}

pub record TicketGroup : Type 0 where
  pub key : Text
  pub tickets : List MatchTicket

-- The tickets of the pointers that are not nil.
unfoldable pub non_nil : List (Option MatchTicket) → List MatchTicket
non_nil [] = []
non_nil (none ∷ xs) = non_nil xs
non_nil (some t ∷ xs) = t ∷ non_nil xs

-- The comparison of `cloneAndSortTickets`.
unfoldable pub ticket_before : MatchTicket → MatchTicket → Bool
ticket_before t u =
    if nat_beq t.created_at u.created_at
    then text_lt t.id u.id
    else before t.created_at u.created_at

unfoldable pub clone_and_sort_tickets : List (Option MatchTicket) → List MatchTicket
clone_and_sort_tickets tickets = sort_stable ticket_before (non_nil tickets)

unfoldable pub group_key : MatchTicket → Text
group_key t = if is_empty t.party_id then codes "ticket:" ++ t.id else codes "party:" ++ t.party_id

-- Into the group of the key, which is a new one behind the others if there is none.
unfoldable pub add_to_group : Text → MatchTicket → List TicketGroup → List TicketGroup
add_to_group key t [] = record { key = key; tickets = t ∷ [] } ∷ []
add_to_group key t (g ∷ gs) =
    if g.key == key
    then record g { tickets = g.tickets ++ (t ∷ []) } ∷ gs
    else g ∷ add_to_group key t gs

unfoldable pub group_into : List TicketGroup → List MatchTicket → List TicketGroup
group_into groups [] = groups
group_into groups (t ∷ ts) = group_into (add_to_group (group_key t) t groups) ts

unfoldable pub group_tickets : List MatchTicket → List TicketGroup
group_tickets tickets = group_into [] tickets

unfoldable pub has_ticket : Text → List MatchTicket → Bool
has_ticket id [] = false
has_ticket id (t ∷ ts) = (t.id == id) || has_ticket id ts

-- The groups with `g` in the place of the first that has the ticket, and that group.
unfoldable pub put_for :
    TicketGroup → Text → List TicketGroup → Option (TicketGroup × List TicketGroup)
put_for g id [] = none
put_for g id (h ∷ hs) =
    if has_ticket id h.tickets
    then some (h, g ∷ hs)
    else elim (put_for g id hs) [ none ↦ none | some (found, rest) ↦ some (found, h ∷ rest) ]

unfoldable pub move_anchor_group_first : List TicketGroup → MatchTicket → List TicketGroup
move_anchor_group_first [] anchor = []
move_anchor_group_first (g ∷ gs) anchor =
    if has_ticket anchor.id g.tickets
    then g ∷ gs
    else elim (put_for g anchor.id gs) [ none ↦ g ∷ gs | some (found, rest) ↦ found ∷ rest ]

unfoldable pub flatten_groups : List TicketGroup → List MatchTicket
flatten_groups [] = []
flatten_groups (g ∷ gs) = g.tickets ++ flatten_groups gs
