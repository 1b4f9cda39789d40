-- ===== src/Game/Ai.antt =====
-- What a monster does at a tick, of src/game/mob.rs.
pub mod Brain
pub mod Target
pub mod Handle
pub mod Window
pub mod Fit
pub mod Chosen
pub mod Hiding
