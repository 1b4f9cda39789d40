-- ===== src/Game/Inventory.antt =====
-- The inventory of a player in src/game/pc.rs. The item database is a parameter. Amounts are C ints;
-- their sums wrap around on the floor, and in the slots are taken to stay within 32 bits; a text is the list of its bytes; messages to the client
-- and the log are left out, and an item that goes to the floor is reported in the result.
pub mod Item
pub mod Space
pub mod Add
pub mod Delete
pub mod Stall
pub mod Blocked
pub mod Searches
pub mod Drop
pub mod Visits
pub mod Dropped
