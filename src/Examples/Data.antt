-- ===== src/Examples/Data.antt =====
-- The tickets and stores that the examples use.
use match_mind.Base.{[], ◌∷◌, List, none, ◌++◌}
use match_mind.Base.Int.{pos}
use match_mind.Clock.{zero_time}
use match_mind.Float64.{float}
use match_mind.Text.{Text, codes}
use match_mind.Ticket.{reserved, NewTicketParams, MatchTicket, queued, core, support}
use match_mind.TicketStore.{TicketStore, pool_key}
use match_mind.TicketStore.Runs.{Call, creates}

abbrev pub ana_params : NewTicketParams
ana_params = record {
  id = codes " t1 ";
  player_id = codes "ana";
  party_id = [];
  mode = codes "Ranked_5v5";
  client_version = codes "1.2";
  region = codes "Tokyo";
  rating = float 1500;
  behavior_score = float 90;
  hero_proficiency = (codes " Emberlord ", float 70) ∷ [];
  preferred_roles = core ∷ support ∷ [];
  region_latency = (codes "tokyo", pos 20) ∷ [];
  created_at = 5;
}

abbrev pub waiting_ticket : Text → Text → MatchTicket
waiting_ticket id player = record {
  params = record ana_params {
    id = id;
    player_id = player;
    mode = codes "ranked_5v5";
    region = codes "tokyo";
    hero_proficiency = (codes "emberlord", float 70) ∷ [];
  };
  progress = record {
    state = queued;
    updated_at = 5;
    reservation_id = [];
    reservation_expires_at = zero_time;
    match_id = [];
  };
}

abbrev pub ana : MatchTicket
ana = waiting_ticket (codes "t1") (codes "ana")

abbrev pub bo : MatchTicket
bo = waiting_ticket (codes "t2") (codes "bo")

abbrev pub ana_key : Text
ana_key = codes "ana" ++ 0 ∷ codes "k1"

-- The store after the requests of both players.
abbrev pub stocked : TicketStore
stocked = record {
  tickets = (codes "t1", ana) ∷ (codes "t2", bo) ∷ [];
  active_by_player = (codes "ana", codes "t1") ∷ (codes "bo", codes "t2") ∷ [];
  create_idempotency = (ana_key, codes "t1") ∷ (codes "bo" ++ 0 ∷ codes "k1", codes "t2") ∷ [];
  cancel_idempotency = [];
  pools = (pool_key ana, codes "t1" ∷ codes "t2" ∷ []) ∷ [];
  reservations = [];
}

abbrev pub both : List Text
both = codes "t1" ∷ codes "t2" ∷ []

abbrev pub held_ticket : MatchTicket → MatchTicket
held_ticket t = record t {
  progress = record {
    state = reserved;
    updated_at = 8;
    reservation_id = codes "r1";
    reservation_expires_at = 40;
    match_id = [];
  };
}

-- The store with a reservation of both tickets until 40.
abbrev pub held : TicketStore
held = record stocked {
  tickets = (codes "t1", held_ticket ana) ∷ (codes "t2", held_ticket bo) ∷ [];
  reservations = (codes "r1", both) ∷ [];
}

abbrev pub requests : List Call
requests = creates none ana (codes "k1") ∷ creates none bo (codes "k1") ∷ []
