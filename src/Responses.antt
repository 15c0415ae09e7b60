-- ===== src/Responses.antt =====
-- The OpenAI Responses wire format, on the side of the client (src/wire/responses.rs).
pub mod Request
pub mod Frames
pub mod Emitter
pub mod Balance
pub mod Numbers
pub mod Items
pub mod Final
pub mod Sequence
