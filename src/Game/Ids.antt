-- ===== src/Game/Ids.antt =====
-- The ids of blocks: `mob_get_new_id`, `mob_get_free_id`, `free_onetime` and `mobspawn_onetime` of
-- src/game/mob.rs, with the loop of `mob_timer_spawns`, and `npc_get_new_npcid`, `npc_get_new_npctempid` and
-- `npc_idlower` of src/game/npc.rs. The C code's table of blocks is the list of the ids in it.
pub mod Search
pub mod Free
pub mod Onetime
