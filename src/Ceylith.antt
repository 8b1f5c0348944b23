-- ===== src/Ceylith.antt =====
-- crates/ceylith-protocol/src: the outer frames of the Ceylith wire, the handshake envelope and the
-- encrypted frame, with their limits.
pub mod Frame
pub mod Handshake
pub mod Secure
pub mod Channel
