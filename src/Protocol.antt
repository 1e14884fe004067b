-- ===== src/Protocol.antt =====
-- The binary framing protocol of kaelix-core/src/protocol.
pub mod Types
pub mod Bytes
pub mod Frame
pub mod Codec
mod Tests
