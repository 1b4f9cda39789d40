-- ===== src/Game/Npcs.antt =====
-- The timers of NPCs, of src/game/npc.rs.
pub mod Timers
pub mod Period
