-- ===== src/Bon.antt =====
-- src/bon.rs, the binary object notation of the game's protocol.
pub mod Reader
pub mod Writer
pub mod Encoder
pub mod Base64
pub mod Decoder
pub mod Integers
pub mod Varint
pub mod Table
pub mod Blobs
pub mod Wire
pub mod RoundTrip
pub mod Packet
pub mod Tests
