-- ===== src/Tests.antt =====
-- Runs of the modelled code on concrete inputs.
pub mod Allowlist
pub mod Supervisor
pub mod Manager
pub mod Sni
pub mod Config
pub mod Outbound
pub mod HttpHost
pub mod App
pub mod Proxy
pub mod Strings
