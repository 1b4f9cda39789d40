-- ===== src/Game/Magic.antt =====
-- The spells on monsters and players: the timers of src/game/mob.rs and src/game/pc.rs that count them down.
-- What the scripts do, who sees an animation, and the names of spells and items are left out: a script, an
-- animation or a packet is reported in the order in which the code asks for it.
pub mod Slot
pub mod Timers
pub mod Duration
pub mod Still
pub mod Ticks
pub mod Elapsed
pub mod Ends
pub mod Starved
