-- ===== src/Object/SetProperty/Meaning.antt =====
-- What `ObjectInfo::set_property` of crates/mtp-rs/src/ptp/types/objects.rs sets.
use mtp_rs.Codes.Format
use mtp_rs.Codes.Format.{ObjectFormatCode}
use mtp_rs.Codes.Storage.Protection
