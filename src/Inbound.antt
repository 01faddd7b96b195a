-- ===== src/Inbound.antt =====
-- internal/inbound: the listeners that route incoming connections to enclaves.
pub mod HttpHost
pub mod Server
pub mod Routing
pub mod Sni
