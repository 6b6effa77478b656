-- ===== src/Worker/Settling.antt =====
-- internal/matchmaking/application/worker.go: the second part of `tryPool`, from the reservation of the tickets on,
-- and what a failure undoes.
use match_mind.Allocator.{allocate, release}
use match_mind.Base.{List, Result, err, ok, Context}
use match_mind.Clock.{Time}
use match_mind.Match.{start_allocation, mark_ready, fail, Match, NewMatchParams, new_match}
use match_mind.MatchService.{World}
use match_mind.MatchStore.{get, create, update}
use match_mind.Text.{Text, text_eq}
use match_mind.TicketStore.{assign_all, release_all, reserve_all}

-- The context of the round may be cancelled between two calls: what its Err() returns when each of them begins.
pub record RoundContexts : Type 0 where
  pub reserving : Context
  pub creating : Context
  pub updating : Context
  pub allocating : Context
  pub assigning : Context
  pub finishing : Context
  pub returning : Context
  pub reading : Context
  pub failing : Context
  pub releasing : Context

-- `_ = w.queue.ReleaseAll(...)`: an error is dropped.
unfoldable pub release_tickets : RoundContexts → World → Text → Time → World
release_tickets ctx w reservation_id now =
    elim (release_all ctx.releasing w.tickets reservation_id now) [
      | ok tickets ↦ record w { tickets = tickets }
      | err e ↦ w
    ]

unfoldable pub release_allocation : RoundContexts → World → Text → World
release_allocation ctx w match_id = elim (release ctx.returning w.servers match_id) [
  | ok servers ↦ record w { servers = servers }
  | err e ↦ w
]

unfoldable pub fail_stored_match : RoundContexts → World → Text → Time → World
fail_stored_match ctx w match_id now = elim (get ctx.reading w.matches match_id) [
  | err e ↦ w
  | ok stored ↦ elim (fail stored now) [
    | err e ↦ w
    | ok failed_match ↦ elim (update ctx.failing w.matches failed_match) [
      | ok matches ↦ record w { matches = matches }
      | err e ↦ w
    ]
  ]
]

-- What the failures behind an allocation undo.
unfoldable pub undo_all : RoundContexts → World → Text → Text → Time → World
undo_all ctx w reservation_id match_id now =
    release_tickets ctx (fail_stored_match ctx (release_allocation ctx w match_id) match_id now)
      reservation_id now

-- The last writes: the tickets are assigned, and the ready match is stored.
unfoldable pub assign_match : RoundContexts → World → Text → Match → Time → World × Result Match
assign_match ctx w reservation_id m now =
    elim (assign_all ctx.assigning w.tickets reservation_id m.id now) [
      | err e ↦ (undo_all ctx w reservation_id m.id now, err e)
      | ok assigned ↦ elim (update ctx.finishing w.matches m) [
        | err e ↦ (record w { tickets = assigned.0 }, err e)
        | ok matches ↦ (record w { tickets = assigned.0; matches = matches }, ok m)
      ]
    ]

-- The allocation of a server.
unfoldable pub allocate_match :
    RoundContexts → World → Text → Match → Result Text → Time → World × Result Match
allocate_match ctx w reservation_id m token now =
    elim (allocate ctx.allocating w.servers m.id m.server_region token) [
      | err e ↦ (release_tickets ctx (fail_stored_match ctx w m.id now) reservation_id now, err e)
      | ok granted ↦ elim (mark_ready m granted.1.address granted.1.token now) [
        | err e ↦ (undo_all ctx (record w { servers = granted.0 }) reservation_id m.id now, err e)
        | ok ready_match ↦
            assign_match ctx (record w { servers = granted.0 }) reservation_id ready_match now
      ]
    ]

-- The new match is stored, and stored again as allocating.
unfoldable pub open_match :
    RoundContexts → World → Text → Match → Result Text → Time → World × Result Match
open_match ctx w reservation_id m token now = elim (create ctx.creating w.matches m) [
  | err e ↦ (release_tickets ctx w reservation_id now, err e)
  | ok matches ↦ elim (start_allocation m now) [
    | err e ↦ (release_tickets ctx (record w { matches = matches }) reservation_id now, err e)
    | ok n ↦ elim (update ctx.updating matches n) [
      | err e ↦ (release_tickets ctx (record w { matches = matches }) reservation_id now, err e)
      | ok matches' ↦
          allocate_match ctx (record w { matches = matches' }) reservation_id n token now
    ]
  ]
]

-- `tryPool` from the reservation of the tickets on.
unfoldable pub settle :
    RoundContexts
    → World
    → Text
    → List Text
    → Time
    → NewMatchParams
    → Result Text
    → Time
    → World × Result Match
settle ctx w reservation_id ticket_ids expires_at params token now =
    elim (reserve_all ctx.reserving w.tickets ticket_ids reservation_id expires_at now) [
      | err e ↦ (w, err e)
      | ok taken ↦ elim (new_match params) [
        | err e ↦ (release_tickets ctx (record w { tickets = taken.0 }) reservation_id now, err e)
        | ok m ↦ open_match ctx (record w { tickets = taken.0 }) reservation_id m token now
      ]
    ]
