-- ===== src/Lib.antt =====
-- Verification of mtp-rs, a Rust client for MTP and PTP devices (cameras, phones) over USB.
--
-- The program. A session (crates/mtp-rs/src/ptp/session/mod.rs) runs one operation at a time over a
-- transport (crates/mtp-rs/src/transport): it sends a command container, then data or none, and
-- reads data and a response container. The containers (ptp/container.rs below crates/mtp-rs/src)
-- and the datasets in them (ptp/types) are written in the primitives of ptp/pack: little-endian
-- integers, UTF-16 strings, arrays and datetimes. The enumerations of ptp/codes.rs and
-- ptp/types/storage.rs name the codes. A virtual device (transport/virtual_device) plays the other
-- side. The high-level API (mtp) and the command line stand on top of the session.
--
-- The files.
--   Prelude: shared names, Boolean tests, list lemmas, the integers i8 to i64.
--   Error: `PtpError` of error.rs and `Result`, with a panic as a third outcome; Error/Ensures has
--     the rules for postconditions of parsers.
--   Codes: one module for each enumeration, with `to_code` for its discriminants, `from_code` for
--     the conversion that falls back to `Unknown`, and its predicates.
--   Pack: slices (Slice), integers (Word), strings (Utf16, Utf8, Text), arrays (Array), and Cursor
--     for the pattern `unpack(&buf[offset..])?; offset += consumed;` of the dataset parsers.
--   Container: `command_bytes` and `data_bytes` are the `to_bytes` functions, `parse_data`,
--     `parse_response` and `parse_event` the `from_bytes` functions, `build_response`,
--     `build_data_container` and `build_event` the builders of transport/virtual_device/builders.rs.
--   DateTime: ptp/pack/datetime.rs, `parse` and `format` under their own names, the packed form in
--     DateTime/Wire, the Unix seconds with `days_from_civil` and `civil_from_days` in DateTime/Unix.
--   Property, Object, Device: ptp/types/properties.rs, objects.rs and device.rs. `parse_object_info`
--     and `object_info_bytes` are `ObjectInfo::from_bytes` and `to_bytes`, Object/SetProperty is
--     `set_property` (what an object shows of a property is in SetProperty/Shown), Object/PropList is
--     `ObjectPropListElement::list_from_bytes`, and so on.
--   Session: `PtpSession` over any transport. Session/Io has the transport as a parameter and the
--     ways in which an operation ends, a future that the caller drops at an `.await` among them.
--     Session/Receive has the reading loops, Session/Execute the operations with the recovery flag
--     and the transaction guard, Session/Open the opening (Open/Fresh what it hands out, Open/Reuse
--     a session that is open already), Session/Identifier the transaction IDs.
--   Session/Stream: streaming.rs. Session/Stream has `ReceiveStream` and the header of a container,
--     Session/Stream/Loop `next_chunk`, `cancel`, `collect` and the drop; the files below it follow
--     a download through its phases (Phases, Payload, Closing) over any cutting into reads (Wire).
--   Session/Operations: operations.rs under its own names, properties.rs in Operations/Property,
--     `get_object_info_full` in Operations/FullInfo and the streamed upload in Operations/Upload.
--   VirtualDevice: the object table of transport/virtual_device/state.rs, `alloc_handle`,
--     `find_storage`, `scan_dir` and `rekey_object`. The file system is a parameter, and so is the
--     order in which the `HashMap` of objects visits its entries (VirtualDevice/Iteration): of the
--     order is used only that it visits the map's entries, and all of them. The DeviceInfo dataset of
--     builders.rs is in VirtualDevice/Builders, and what a host learns from it in Builders/Reported.
--
-- Choices. Numbers are natural numbers with the wrap-around of u32 written out where the code wraps;
-- a `usize` has 64 bits. A Rust string is the list of its Unicode scalar values. A slice or an index
-- out of range is the outcome `panic`. The texts of errors are constructors over the values that
-- they print. The operation lock makes each operation of a session one step, so that the session is
-- passed as a state. Transport, device and caller are one parameter: a record of functions on a
-- state of any type.
--
-- Bounds. `receive_response` has fuel for five reads, one more than the four late replies that it may
-- skip. `execute_with_receive` reads as long as the device sends; its fuel must exceed the number of
-- transfers that the device still sends, which the record `Finite` bounds; two more than the number
-- of reads is enough when the reads of the answer are known. `collect` has fuel for its rounds, one
-- for each chunk, so at most one for each byte and one for the end, and fuel for the passes of one
-- round. All other loops recurse on their count or on a list.
--
-- Not modelled: the USB, Windows and mock transports, the virtual device but for four builders and
-- its object table (so not its handlers, property lists, registry and watcher), the adapter
-- `receive_stream_to_stream`, the high-level API, the command line, `from_extension`, and logging.
pub mod Prelude
pub mod Codes
pub mod Error
pub mod Pack
pub mod Container
pub mod DateTime
pub mod Property
pub mod Object
pub mod Device
pub mod VirtualDevice
pub mod Session
