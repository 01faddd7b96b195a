-- ===== src/Supervisor.antt =====
-- internal/supervisor: the in-enclave process supervisor and its log channel.
pub mod Buffer
pub mod Shipper
pub mod Config
pub mod Manager
