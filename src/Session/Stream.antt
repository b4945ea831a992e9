-- ===== src/Session/Stream.antt =====
-- crates/mtp-rs/src/ptp/session/streaming.rs: the download as a stream of chunks.
pub mod Loop
pub mod Wire
pub mod Front
pub mod Chunks
pub mod Phases
pub mod Closing
pub mod Payload
pub mod Collect
pub mod Guarded
use mtp_rs.Prelude.{
  ℕ, zero, suc, ◌+◌, ◌-◌, ◌%◌, ◌<◌, ◌≤◌, Bool, true, false, not, ◌&&◌, List, [], ◌∷◌, ◌++◌, Option,
  none, some, length, take, drop, is_empty, ltb, leb, ◌==◌, if◌then◌else◌,
}
use mtp_rs.Codes.Operation.{OperationCode}
use mtp_rs.Codes.Response
use mtp_rs.Error.{
  PtpError, Result, ok, err, panic, protocol, device_reset, invalid_data, empty_response,
  unexpected_container_type, length_too_small,
}
use mtp_rs.Pack.Slice.{Bytes, slice}
use mtp_rs.Pack.Word.{unpack_u32}
use mtp_rs.Container.{header_size, ContainerType, container_type, parse_response, ResponseContainer}
use mtp_rs.Session.{Session, flag, is_stale_reply, may_skip_stale_reply}
use mtp_rs.Session.Receive.{by_kind, mismatch}
use mtp_rs.Session.Execute.{transact, send_command}
use mtp_rs.Session.Io.{
  Await, resumed, refused, abandoned, Transport, Exit, done, failed, panicked, dropped, running, Io,
  run_on, after, ◌>>=◌, ◌>>◌, pure,
}

abbrev pub receive_chunk : ℕ
receive_chunk = 0x10000

abbrev pub large_object_length_sentinel : ℕ
large_object_length_sentinel = 0xFFFFFFFF

-- What stands at the front of the buffer.
pub data Header : Type 0 where
  payload_follows closed skipped_stale_reply : Header

-- The stream, but for the transport and the recovery state, which are the session's. The lock is
-- held as long as `is_done` is false.
pub record ReceiveStream : Type 0 where
  pub transaction_id : ℕ
  pub operation : OperationCode
  pub buffer : Bytes
  pub expected_payload_len : Option ℕ
  pub payload_remaining : Option ℕ
  pub payload_yielded : ℕ
  pub large_object : Bool
  pub in_payload : Bool
  pub short_read : Bool
  pub expect_zero_length_packet : Bool
  pub stale_replies_skipped : ℕ
  pub saw_data_container : Bool
  pub is_done : Bool

-- A stream that is open on a session.
pub record Open (S : Type 0) : Type 0 where
  pub stream : ReceiveStream
  pub session : Session S

unfoldable pub fresh : ℕ → OperationCode → Option ℕ → ReceiveStream
fresh tx_id operation expected = record {
  transaction_id = tx_id;
  operation = operation;
  buffer = [];
  expected_payload_len = expected;
  payload_remaining = none;
  payload_yielded = 0;
  large_object = false;
  in_payload = false;
  short_read = false;
  expect_zero_length_packet = false;
  stale_replies_skipped = 0;
  saw_data_container = false;
  is_done = false;
}

-- `start_receive_stream`: the ID of the stream is the one that its command took.
unfoldable pub start_receive_stream :
    {S : Type 0}
    → Transport S
    → OperationCode
    → List ℕ
    → Option ℕ
    → Session S
    → Exit ReceiveStream × Session S
start_receive_stream t operation params expected =
    transact t
      λ tx_id. send_command t operation params tx_id >> pure (fresh tx_id operation expected)

-- `finish`
unfoldable pub finish : {S : Type 0} → Bool → Open S → Open S
finish pipe_in_doubt o = record {
  stream = record (o.stream) { is_done = true };
  session = if pipe_in_doubt then flag o.stream.transaction_id o.session else o.session;
}

-- The data arm, behind the header: the length says where the payload ends, unless it is the
-- sentinel.
unfoldable pub read_data_header : ReceiveStream → ℕ → Result Header × ReceiveStream
read_data_header s total_length =
    let s1 = record s {
      buffer = drop header_size s.buffer;
      large_object = total_length == large_object_length_sentinel;
    } in
    let begun = λ (remaining : Option ℕ). record s1 {
      payload_remaining = remaining;
      payload_yielded = 0;
      in_payload = true;
      saw_data_container = true;
    } in
    if total_length == large_object_length_sentinel
    then (ok payload_follows, begun s.expected_payload_len)
    else if ltb total_length header_size
    then (err (invalid_data (length_too_small total_length header_size)), s1)
    else (ok payload_follows, begun (some (total_length - header_size)))

-- `length.clamp(HEADER_SIZE, self.buffer.len())`, for a buffer that holds a header
abbrev pub clamped : ℕ → ℕ → ℕ
clamped n size = if ltb n header_size then header_size else if ltb size n then size else n

-- `?` on a computation that leaves the stream alone.
abbrev pub checked {ℓ} :
    {A : Type ℓ}
    → Result A
    → ReceiveStream
    → (A → Result Header × ReceiveStream)
    → Result Header × ReceiveStream
checked (ok a) s k = k a
checked (err e) s k = (err e, s)
checked panic s k = (panic, s)

unpack_front : Result Bytes → Result ℕ
unpack_front (ok part) = unpack_u32 part
unpack_front (err e) = err e
unpack_front panic = panic

-- The length field at the front of the buffer.
unfoldable pub front_length : Bytes → Result ℕ
unfolding unpack_front
front_length buffer = unpack_front (slice buffer 0 4)

-- A late reply is dropped from the buffer.
unfoldable pub skip_reply : ReceiveStream → Result Header × ReceiveStream
skip_reply s =
    let s1 = record s { stale_replies_skipped = s.stale_replies_skipped + 1 } in
    checked (front_length s.buffer) s1 λ total_length. (
      ok skipped_stale_reply,
      record s1 { buffer = drop (clamped total_length (length s.buffer)) s.buffer },
    )

-- The response arm.
unfoldable pub read_reply : ReceiveStream → ResponseContainer → Result Header × ReceiveStream
read_reply s r =
    if not (r.transaction_id == s.transaction_id)
    then if not s.saw_data_container
        && (is_stale_reply r.transaction_id s.transaction_id
            && may_skip_stale_reply s.operation s.stale_replies_skipped)
      then skip_reply s
      else (err (mismatch s.transaction_id r.transaction_id), s)
    else if Response.is_ok r.code
    then (ok closed, s)
    else (err (protocol r.code s.operation), s)

-- `consume_container_header`
unfoldable pub consume_container_header : ReceiveStream → Result Header × ReceiveStream
consume_container_header s = checked (container_type s.buffer) s λ kind.
    by_kind kind (checked (front_length s.buffer) s (read_data_header s))
      (checked (parse_response s.buffer) s (read_reply s))
      (err (invalid_data unexpected_container_type), s)
