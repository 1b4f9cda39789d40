-- ===== src/Login.antt =====
-- src/servers/login: the login server. A text is the list of its bytes.
pub mod Text
pub mod Packet
pub mod Client
pub mod Interserver
pub mod Accept
pub mod Message
pub mod Sealed
pub mod Credentials
pub mod ChangePass
pub mod Redirect
