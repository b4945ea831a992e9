-- ===== src/Codes.antt =====
-- crates/mtp-rs/src/ptp/codes.rs and crates/mtp-rs/src/ptp/types/storage.rs: the code enumerations.
pub mod NumEnum
pub mod Operation
pub mod Response
pub mod Event
pub mod Format
pub mod ObjectProperty
pub mod DataType
pub mod DeviceProperty
pub mod Storage
