-- ===== src/Match.antt =====
-- internal/matchmaking/domain/match.go: the match of ten players, from its creation to its result.
mod Types
mod Creation
mod Transitions
pub mod Validation
pub mod History
pub mod Restoring
pub mod Revisions
unfoldable pub use Types.*
unfoldable pub use Creation.*
unfoldable pub use Transitions.*
