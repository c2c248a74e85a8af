-- ===== src/Game.antt =====
-- What the grid games share (desktop/app/shared/game).
pub mod Direction
pub mod Grid
pub mod Api
pub mod Text
