-- ===== src/Network.antt =====
-- software/network/: the proxy pool that the workers draw from.
pub mod Session
