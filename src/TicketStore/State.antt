-- ===== src/TicketStore/State.antt =====
-- ticket_store.go: the store's fields, and its helpers `poolKey`, `scopedKey`, `removeFromPool`,
-- `cloneTickets` and `sameTicketIDs`. A stored ticket is a clone, so no caller shares it.
use match_mind.Base.{
  Bool, Eq, List, Map, [], arith, contains, erase, false, if◌then◌else◌, insert, length, lookup,
  nat_beq, none, some, true, ◌&&◌, ◌++◌, ◌==◌, ◌↔◌, ◌∷◌, ◌≡◌,
}
use match_mind.Clock.{before}
use match_mind.Text.{Text, text_beq_iff, text_lt, trim_space, text_eq}
use match_mind.Ticket.{MatchTicket, PoolKey}

abbrev pub Tickets : Type 0
Tickets = Map Text MatchTicket

pub record TicketStore : Type 0 where
  pub tickets : Tickets
  pub active_by_player : Map Text Text
  pub create_idempotency : Map Text Text
  pub cancel_idempotency : Map Text Text
  pub pools : Map PoolKey (List Text)
  pub reservations : Map Text (List Text)

abbrev pub new_ticket_store : TicketStore
new_ticket_store = record {
  tickets = [];
  active_by_player = [];
  create_idempotency = [];
  cancel_idempotency = [];
  pools = [];
  reservations = [];
}

unfoldable pub pool_key_beq : PoolKey → PoolKey → Bool
pool_key_beq k l =
    k.mode == l.mode && (k.client_version == l.client_version && k.region == l.region)

pool_key_ext :
    (k l : PoolKey)
    → k.mode ≡ l.mode
    → k.client_version ≡ l.client_version
    → k.region ≡ l.region
    → k ≡ l
pool_key_ext k l p q r = λ i. record { mode = p i; client_version = q i; region = r i }

pub pool_key_beq_iff : (k l : PoolKey) → (pool_key_beq k l ≡ true) ↔ (k ≡ l)
unfolding pool_key_beq
pool_key_beq_iff k l = ground (
  arith,
  text_beq_iff k.mode l.mode,
  text_beq_iff k.client_version l.client_version,
  text_beq_iff k.region l.region,
  pool_key_ext k l,
)

instance abbrev pub pool_key_eq : Eq PoolKey
pool_key_eq = record { equal = pool_key_beq; equal_iff = pool_key_beq_iff }

abbrev pub pool_key : MatchTicket → PoolKey
pool_key t = record { mode = t.mode; client_version = t.client_version; region = t.region }

unfoldable pub scoped_key : Text → Text → Text
scoped_key owner_id idempotency_key = trim_space owner_id ++ (0 ∷ trim_space idempotency_key)

-- A pool that is not there stays away; the source writes nothing where the ticket is not in it.
unfoldable pub remove_from_pool : PoolKey → Text → Map PoolKey (List Text) → Map PoolKey (List Text)
remove_from_pool key ticket_id pools = elim (lookup key pools) [
  | none ↦ pools
  | some ids ↦ insert key (erase ticket_id ids) pools
]

-- Tickets that are not there are left out.
unfoldable pub clone_tickets : Tickets → List Text → List MatchTicket
clone_tickets tickets [] = []
clone_tickets tickets (id ∷ ids) =
    let rest = clone_tickets tickets ids in
    elim (lookup id tickets) [ none ↦ rest | some t ↦ t ∷ rest ]

-- The loop over `right`, which takes each of its IDs once from the counts of `left`.
unfoldable pub take_all : List Text → List Text → Bool
take_all left [] = true
take_all left (id ∷ right) =
    let rest = take_all (erase id left) right in if contains id left then rest else false

unfoldable pub same_ticket_ids : List Text → List Text → Bool
unfolding take_all
same_ticket_ids left right =
    if nat_beq (length left) (length right) then take_all left right else false

-- `for ticketID, ticket := range updated { s.tickets[ticketID] = ticket }`
unfoldable pub put_all : Tickets → Tickets → Tickets
put_all [] tickets = tickets
put_all ((id, t) ∷ updated) tickets = insert id t (put_all updated tickets)

-- Older first, and by ID among those of one time.
abbrev pub older : MatchTicket → MatchTicket → Bool
older t u =
    if nat_beq t.created_at u.created_at
    then text_lt t.id u.id
    else before t.created_at u.created_at
