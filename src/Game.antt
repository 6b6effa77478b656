-- ===== src/Game.antt =====
-- internal/game: the game modes and the heroes.
pub mod Mode
pub mod Hero
