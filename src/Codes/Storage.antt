-- ===== src/Codes/Storage.antt =====
-- crates/mtp-rs/src/ptp/types/storage.rs: the enumerations that describe storages and objects.
pub mod Kind
pub mod Filesystem
pub mod Access
pub mod Protection
pub mod Association
