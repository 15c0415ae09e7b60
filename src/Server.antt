-- ===== src/Server.antt =====
-- The request path of src/server.rs, a module for each part of it.
pub mod Auth
pub mod Failover
pub mod Stream
pub mod State
pub mod Handlers
pub mod Views
