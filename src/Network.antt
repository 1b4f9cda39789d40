-- ===== src/Network.antt =====
-- src/network: the access list, the packet cipher, the two connection limits, the packet frame.
pub mod Acl
pub mod Crypt
pub mod Cipher
pub mod Trailer
pub mod Ddos
pub mod Throttle
pub mod Address
pub mod Frame
