-- ===== src/Outbound.antt =====
-- internal/outbound: the log relay's sink and its enrichment of records.
pub mod RefSink
pub mod Enrich
pub mod Relay
pub mod Server
pub mod Headers
pub mod Proxy
