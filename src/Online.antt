-- ===== src/Online.antt =====
-- crates/qq-domain/src/online: the generation-fenced controller of one account's online session.
pub mod Model
pub mod Plan
pub mod Machine
