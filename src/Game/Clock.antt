-- ===== src/Game/Clock.antt =====
-- The periodic timers of a player, of src/game/pc.rs.
pub mod Timers
pub mod Left
