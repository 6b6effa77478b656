-- ===== src/Ticket.antt =====
-- internal/matchmaking/domain/ticket.go: the queue ticket of one player.
mod Types
mod Creation
mod Transitions
pub mod Proficiency
pub mod Validation
pub mod History
pub mod Restoring
pub mod Lifecycle
unfoldable pub use Types.*
unfoldable pub use Creation.*
unfoldable pub use Transitions.*
