-- ===== src/Container.antt =====
-- crates/mtp-rs/src/ptp/container.rs: the USB containers, and the device's builders of them in
-- crates/mtp-rs/src/transport/virtual_device/builders.rs.
pub mod Safety
pub mod RoundTrip
mod Tests
use mtp_rs.Prelude.{
  ℕ, zero, suc, ◌+◌, ◌-◌, ◌*◌, ◌/◌, ◌%◌, ◌^◌, Bool, not, ◌&&◌, List, [], ◌∷◌, ◌++◌, Option, none,
  some, length, flat, take, ltb, leb, ◌==◌, if◌then◌else◌,
}
use mtp_rs.Codes.Operation
use mtp_rs.Codes.Operation.{OperationCode}
use mtp_rs.Codes.Response
use mtp_rs.Codes.Response.{ResponseCode}
use mtp_rs.Codes.Event
use mtp_rs.Codes.Event.{EventCode}
use mtp_rs.Error.{
  Result, ok, err, invalid_data, container_too_small, invalid_container_type, wrong_container_type,
  length_too_small, length_mismatch, params_not_aligned, invalid_event_size, event_buffer_too_small,
  reject_if, ◌>>=◌, ◌>>◌,
}
use mtp_rs.Pack.Slice.{Bytes, slice}
use mtp_rs.Pack.Array.{unpack_elements}
use mtp_rs.Pack.Word.{pack_u16, pack_u32, unpack_u16, unpack_u32}

abbrev pub header_size : ℕ
header_size = 12

pub data ContainerType : Type 0 where
  command data_container response event : ContainerType

-- `ContainerType::to_code`
abbrev pub type_code : ContainerType → ℕ
type_code command = 1
type_code data_container = 2
type_code response = 3
type_code event = 4

-- `ContainerType::from_code`
unfoldable pub from_type_code : ℕ → Option ContainerType
from_type_code code =
    if code == 1
    then some command
    else if code == 2
    then some data_container
    else if code == 3
    then some response
    else if code == 4
    then some event
    else none

ok_or_invalid_type : Option ContainerType → ℕ → Result ContainerType
ok_or_invalid_type (some t) code = ok t
ok_or_invalid_type none code = err (invalid_data (invalid_container_type code))

unfoldable pub container_type : Bytes → Result ContainerType
unfolding ok_or_invalid_type
container_type buf = do
  reject_if (ltb (length buf) header_size) (container_too_small header_size (length buf))
  part ← slice buf 4 6
  code ← unpack_u16 part
  ok_or_invalid_type (from_type_code code) code

pub record CommandContainer : Type 0 where
  pub code : OperationCode
  pub transaction_id : ℕ
  pub params : List ℕ

-- The header fields, in the order in which every serializer appends them.
unfoldable pub header_bytes : (total_len type_code code transaction_id : ℕ) → Bytes
header_bytes total_len type_code code transaction_id =
    pack_u32 (total_len % 2 ^ 32)
    ++ (pack_u16 type_code ++ (pack_u16 code ++ pack_u32 transaction_id))

-- `CommandContainer::to_bytes`
unfoldable pub command_bytes : CommandContainer → Bytes
command_bytes c =
    let param_bytes = length c.params * 4 in
    let total_len = header_size + param_bytes in
    header_bytes total_len (type_code command) (Operation.to_code c.code) c.transaction_id
    ++ flat pack_u32 c.params

pub record DataContainer : Type 0 where
  pub code : OperationCode
  pub transaction_id : ℕ
  pub payload : Bytes

-- `DataContainer::to_bytes`
unfoldable pub data_bytes : DataContainer → Bytes
data_bytes c =
    let total_len = header_size + length c.payload in
    header_bytes total_len (type_code data_container) (Operation.to_code c.code) c.transaction_id
    ++ c.payload

-- The four header fields: total length, type, code and transaction ID.
pub record Header : Type 0 where
  pub total_length : ℕ
  pub kind : ℕ
  pub code : ℕ
  pub transaction_id : ℕ

-- The common start of the `from_bytes` functions.
unfoldable pub parse_header : Bytes → Result Header
parse_header buf = do
  reject_if (ltb (length buf) header_size) (container_too_small header_size (length buf))
  length_part ← slice buf 0 4
  total_length ← unpack_u32 length_part
  type_part ← slice buf 4 6
  kind ← unpack_u16 type_part
  code_part ← slice buf 6 8
  code ← unpack_u16 code_part
  transaction_part ← slice buf 8 12
  transaction_id ← unpack_u32 transaction_part
  ok (record {
    total_length = total_length;
    kind = kind;
    code = code;
    transaction_id = transaction_id;
  })

-- `DataContainer::from_bytes`
unfoldable pub parse_data : Bytes → Result DataContainer
parse_data buf = do
  h ← parse_header buf
  let expected = type_code data_container
  reject_if (not (h.kind == expected)) (wrong_container_type expected h.kind)
  reject_if (ltb h.total_length header_size) (length_too_small h.total_length header_size)
  reject_if (ltb (length buf) h.total_length) (length_mismatch h.total_length (length buf))
  payload ← slice buf header_size h.total_length
  ok (record {
    code = Operation.from_code h.code;
    transaction_id = h.transaction_id;
    payload = payload;
  })

pub record ResponseContainer : Type 0 where
  pub code : ResponseCode
  pub transaction_id : ℕ
  pub params : List ℕ

-- `for i in 0..param_count { params.push(unpack_u32(&buf[HEADER_SIZE + i * 4..])?) }`
abbrev pub parse_params : Bytes → (left i : ℕ) → Result (List ℕ)
parse_params = unpack_elements 4 header_size

-- `ResponseContainer::from_bytes`
unfoldable pub parse_response : Bytes → Result ResponseContainer
parse_response buf = do
  h ← parse_header buf
  let expected = type_code response
  reject_if (not (h.kind == expected)) (wrong_container_type expected h.kind)
  reject_if (ltb h.total_length header_size) (length_too_small h.total_length header_size)
  reject_if (ltb (length buf) h.total_length) (length_mismatch h.total_length (length buf))
  let param_bytes = h.total_length - header_size
  reject_if (not (param_bytes % 4 == 0)) (params_not_aligned param_bytes)
  params ← parse_params buf (param_bytes / 4) 0
  ok (record {
    code = Response.from_code h.code;
    transaction_id = h.transaction_id;
    params = params;
  })

-- `ResponseContainer::is_ok`
abbrev pub is_ok : ResponseContainer → Bool
is_ok r = Response.is_ok r.code

pub record EventContainer : Type 0 where
  pub code : EventCode
  pub transaction_id : ℕ
  pub params : ℕ × ℕ × ℕ

abbrev pub max_event_size : ℕ
max_event_size = header_size + 12

-- One event parameter: the word at `from` if the event has more than `i` of them, else 0.
unfoldable pub event_param : Bytes → (param_count i from : ℕ) → Result ℕ
event_param buf param_count i from =
    if ltb i param_count then (do part ← slice buf from (from + 4); unpack_u32 part) else ok 0

-- `EventContainer::from_bytes`
unfoldable pub parse_event : Bytes → Result EventContainer
parse_event buf = do
  h ← parse_header buf
  let expected = type_code event
  reject_if (not (h.kind == expected)) (wrong_container_type expected h.kind)
  let in_range = leb header_size h.total_length && leb h.total_length max_event_size
  reject_if (not in_range) (invalid_event_size h.total_length)
  let param_bytes = h.total_length - header_size
  reject_if (not (param_bytes % 4 == 0)) (params_not_aligned param_bytes)
  reject_if (ltb (length buf) h.total_length) (event_buffer_too_small h.total_length (length buf))
  let param_count = param_bytes / 4
  param1 ← event_param buf param_count 0 12
  param2 ← event_param buf param_count 1 16
  param3 ← event_param buf param_count 2 20
  ok (record {
    code = Event.from_code h.code;
    transaction_id = h.transaction_id;
    params = (param1, param2, param3);
  })

-- `build_response` of the virtual device.
unfoldable pub build_response : (code transaction_id : ℕ) → List ℕ → Bytes
build_response code transaction_id params =
    header_bytes (12 + length params * 4) 3 code transaction_id ++ flat pack_u32 params

-- `build_data_container` of the virtual device.
unfoldable pub build_data_container : (code transaction_id : ℕ) → Bytes → Bytes
build_data_container code transaction_id bytes =
    header_bytes (12 + length bytes) 2 code transaction_id ++ bytes

-- `build_event` of the virtual device: at most three parameters, transaction 0.
unfoldable pub build_event : EventCode → List ℕ → Bytes
build_event code params =
    let sent = take 3 params in
    header_bytes (12 + length sent * 4) 4 (Event.to_code code) 0 ++ flat pack_u32 sent
