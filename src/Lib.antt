-- ===== src/Lib.antt =====
-- MatchMind: the matchmaking core, its stores and its review of policies.
--
-- The ticket service (internal/matchmaking/application/ticket_service.go) makes a player's ticket
-- (internal/matchmaking/domain/ticket.go), which waits in the ticket store
-- (internal/matchmaking/repository/memory/ticket_store.go). A worker reserves ten tickets at once, makes a
-- match of them (internal/matchmaking/domain/match.go), asks the allocator for a server
-- (internal/matchmaking/application/local_allocator.go), and assigns the tickets to the match or releases
-- them (internal/matchmaking/application/worker.go); it chooses the tickets, the teams and the region by the
-- matching engine (internal/matchmaking/engine) and internal/matchmaking/application/region_selector.go.
-- Reservations that expire are recovered. The match service
-- (internal/matchmaking/application/match_service.go) starts and completes matches. Matches stand in a store with an optimistic lock
-- (internal/matchmaking/repository/memory/match_store.go). The parameters of the matchmaker are policies
-- (internal/matchmaking/domain/policy.go) in a registry with experiments
-- (internal/matchmaking/application/policy_manager.go), and an agent may propose a policy that people review
-- (internal/agent/domain/agent.go). Players have ratings, bans and measured latencies
-- (internal/player/domain), in a store (internal/player/repository/memory/repository.go) that the
-- player service and the rating service (internal/player/application) write.
--
-- Files, by part of the program:
--   Base, Base/*        shared names, Boolean tests, lists, results, association lists, integers
--   Text, Text/Trim     strings as code points: TrimSpace, ToLower, comparison
--   Clock, Float64      time.Time as nanoseconds since the zero time; float64 by value
--   Game/Mode           internal/game/mode/mode.go
--   Game/Hero           internal/game/hero/catalog.go
--   Ticket              ticket.go: Types, Creation (NewTicket, RestoreTicket), Transitions (the methods);
--                       Proficiency, Validation, History, Restoring, Lifecycle hold proofs
--   TicketStore         ticket_store.go: State, Creating, Reserving, Recovering, Reading hold the methods;
--                       Effects, Invariant, Settling, Indexing, Expiry, ExpiryLoop, Reservation, Conclusion,
--                       Exclusive, Runs, Idempotency hold proofs
--   Match               match.go: Types, Creation, Transitions; Validation, History, Revisions, Restoring
--                       hold proofs
--   MatchStore          match_store.go; Locking holds proofs
--   Allocator           local_allocator.go; Parsing reads a configuration; Capacity holds proofs
--   Policy              policy.go; Limits has the ranges that grow with the wait
--   PolicyManager       policy_manager.go; Selection has the readers; Equality, Activation, Registry and Runs
--                       hold proofs
--   Proposal            agent.go, PolicyProposal; Lifetime and Duties hold proofs
--   Player              player.go and rating_change.go: NewPlayer, RestorePlayer and the changes of a player; Regions
--                       and Restoring hold proofs
--   RatingChange        rating_change.go
--   PlayerStore         internal/player/repository/memory/repository.go; Applying, Committing and Refusing hold
--                       proofs
--   PlayerService       internal/player/application/service.go; Runs, Once and Bans hold proofs
--   RatingService       internal/player/application/rating_service.go; Results holds proofs
--   Engine              the groups of internal/matchmaking/engine; Candidates (candidate.go), Teams (team.go),
--                       Quality (quality.go) and Beam (beam.go, with Beam/Sets) hold the search, and Searching and the children
--                       of Candidates and Teams hold proofs
--   RegionSelector      region_selector.go; Free and Selected hold proofs
--   MatchService        match_service.go; Completing holds proofs
--   Worker              worker.go; Settling has the writes of `tryPool`; Releasing,
--                       Opening, Parameters, Filtering and Matching hold proofs
--   TicketService       internal/matchmaking/application/ticket_service.go; Region and Retry hold
--                       proofs
--   Examples            concrete tickets, stores, matches, servers, policies, proposals, players, regions,
--                       requests, ratings, completions, searches, rounds and turns
--
-- How the model follows the code. A method that changes its receiver is a function that returns the new state;
-- `(value, error)` is a result, with one constructor of Error for each sentinel error and without the text
-- that fmt.Errorf adds. A context is what its Err() returns when the call begins. A map is an association list,
-- read in its order where Go's order is arbitrary. Each method of a store or of the registry holds its mutex,
-- so a concurrent run is a list of calls. Cloning gives equal values and is left out, but for
-- cloneTicketProficiency and cloneProficiency, which normalise keys. The revision of a match and the sums of
-- capacities wrap as an int64 does, and a difference of times stays at the bounds of an int64; elsewhere an
-- `int` is an integer without bound. A float64 is NaN, an infinity, or an integer number of 2^-1074; sums, products
-- and literals are rounded to the nearest value of 53 bits, ties to even, and -0 is 0. `to_lower` folds ASCII
-- letters. Loops are structural recursion; `excess` in Float64 runs on fuel 4300, above the bits of any
-- operand that two float64 give.
--
-- In the match service and the worker a call that fails after its first write keeps what it has written, so
-- the world (matches, tickets, servers) comes back beside the result. The context of a round of the worker may
-- be cancelled between two calls, so each call of the round has a context of its own (RoundContexts, Outside).
-- What other clients do between the read
-- and the write of a completion is an argument, a function on worlds.
--
-- Parameters: the token generator of the allocator, the player reader, the reader of bans and the ID
-- generators (their results are arguments), the first eight bytes of SHA-256 in the registry, the rating
-- calculators of internal/rating, the square root, and the text of a float64.
--
-- Not modelled: the Redis and PostgreSQL stores, the transports and gateways, the platform packages (input and
-- output); the rating calculators (transcendental float64 functions); the loop `Run` of the worker and its
-- metrics; the analysis and operations services, the audit runs and the service of the agent, and the
-- simulation.
pub mod Base
pub mod Text
pub mod Clock
pub mod Float64
pub mod Game
pub mod Ticket
pub mod TicketStore
pub mod Match
pub mod MatchStore
pub mod Allocator
pub mod Policy
pub mod Engine
pub mod PolicyManager
pub mod RegionSelector
pub mod Worker
pub mod Proposal
pub mod MatchService
pub mod Player
pub mod RatingChange
pub mod PlayerStore
pub mod PlayerService
pub mod RatingService
pub mod TicketService
pub mod Examples
