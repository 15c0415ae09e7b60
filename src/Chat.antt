-- ===== src/Chat.antt =====
-- The Chat Completions format (src/wire/chat.rs), a module for each part of it.
pub mod Parents
pub mod Schema
pub mod Request
pub mod Inbound
pub mod Stream
