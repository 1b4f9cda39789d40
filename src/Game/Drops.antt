-- ===== src/Game/Drops.antt =====
-- What a monster drops, of src/game/mob.rs.
pub mod Drop
pub mod Dropped
