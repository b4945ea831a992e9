-- ===== src/Pack.antt =====
-- crates/mtp-rs/src/ptp/pack/mod.rs: the wire format's primitives.
pub mod Slice
pub mod Word
pub mod Utf16
pub mod Utf8
pub mod Text
pub mod Array
pub mod Cursor
pub mod Samples
mod Tests
