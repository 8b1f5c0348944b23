-- ===== src/Wire.antt =====
-- crates/qq-wire: the bounded big-endian codec under every QQ packet, and the OIDB envelope.
pub mod Prefix
pub mod Reader
pub mod Writer
pub mod RoundTrip
pub mod Oidb
mod Tests
