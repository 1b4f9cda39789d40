-- ===== src/Game.antt =====
-- src/game: the parts of the game that run on the map server.
pub mod Registry
pub mod Inventory
pub mod Experience
pub mod Walk
pub mod Ids
pub mod Magic
pub mod Equip
pub mod Ai
pub mod Drops
pub mod Npcs
pub mod Clock
