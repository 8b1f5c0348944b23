-- ===== src/Account.antt =====
-- crates/account-runtime: the durable lifecycle of one account, the actor that owns it, and the
-- assignment of accounts to the Full and Public realms at startup.
pub mod Model
pub mod Store
pub mod Opening
pub mod Actor
pub mod Grant
