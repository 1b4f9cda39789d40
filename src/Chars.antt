-- ===== src/Chars.antt =====
-- src/servers/char: the character server, on its links to the login server and to the map servers.
pub mod Link
pub mod Logins
pub mod Maps
pub mod Requests
pub mod Sent
pub mod Delivered
pub mod Events
pub mod Online
pub mod Confirmed
pub mod Handshake
pub mod Acknowledged
pub mod Announced
