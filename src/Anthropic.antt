-- ===== src/Anthropic.antt =====
-- The Anthropic Messages wire format, on the side of the client (src/wire/anthropic.rs).
pub mod Request
pub mod Frames
pub mod Emitter
pub mod Blocks
pub mod Balance
pub mod Panics
