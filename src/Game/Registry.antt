-- ===== src/Game/Registry.antt =====
-- The variable stores that scripts read and write: src/game/pc.rs (player, account, NPC and quest
-- registries, and the local ones), src/game/mob.rs and src/game/npc.rs. A C string is the list of its
-- bytes without the end; a pointer is never null here. The arrays hold 64 bytes for a key and the
-- writers of pc.rs copy without a check: keys are taken to be shorter.
pub mod Keys
pub mod Slots
pub mod Laws
pub mod Kept
pub mod Player
pub mod Creature
pub mod Local
pub mod Stored
pub mod Lost
