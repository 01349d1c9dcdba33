-- ===== src/Crypto.antt =====
-- src/crypto.rs: the two encodings of packets, `x` and `lx`, and their detection.
pub mod Mask
pub mod Xor
pub mod Lz4
pub mod Auto
pub mod Tests
