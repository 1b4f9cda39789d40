-- ===== src/Game/Walk.antt =====
-- How monsters and NPCs walk, in src/game/mob.rs and src/game/npc.rs. The checks of the C code and the
-- grid of blocks are parameters; scripts and packets are left out, but for the strip of cells whose
-- players are told of a newcomer.
pub mod View
pub mod Newcomers
pub mod Mob
pub mod Step
pub mod Ghost
pub mod Npc
pub mod NpcStep
