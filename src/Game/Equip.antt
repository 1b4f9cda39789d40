-- ===== src/Game/Equip.antt =====
-- Putting items on and taking them off, in src/game/pc.rs. The item database is a parameter; the Lua hooks
-- that run between the two phases, the player's stats and what clients see are left out.
pub mod Wear
pub mod Check
pub mod Script
pub mod Rings
pub mod Kept
