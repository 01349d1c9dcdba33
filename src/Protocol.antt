-- ===== src/Protocol.antt =====
-- src/protocol.rs: messages of the game's protocol over the encodings and BON.
pub mod Base64
pub mod Message
