-- ===== src/Proxy.antt =====
-- src/proxy.rs: the relay between a client and the server, and the queue of its captured frames.
pub mod Queue
pub mod Origin
pub mod Tests
