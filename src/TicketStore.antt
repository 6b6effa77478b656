-- ===== src/TicketStore.antt =====
-- internal/matchmaking/repository/memory/ticket_store.go: the queue, the reservations and the idempotency
-- records of one process. A method holds the store's lock, so a call is one step.
mod State
mod Creating
mod Reserving
mod Recovering
mod Reading
pub mod Effects
pub mod Invariant
pub mod Settling
pub mod Indexing
pub mod Expiry
pub mod Reservation
pub mod Conclusion
pub mod Exclusive
pub mod Runs
pub mod Idempotency
pub mod ExpiryLoop
unfoldable pub use State.*
unfoldable pub use Creating.*
unfoldable pub use Reserving.*
unfoldable pub use Recovering.*
unfoldable pub use Reading.*
