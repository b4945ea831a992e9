-- ===== src/Session/Operations/Upload.antt =====
-- `execute_with_send_stream`, `send_object_stream` and `get_object_stream` of
-- crates/mtp-rs/src/ptp/session/streaming.rs.
use mtp_rs.Prelude.{
  ℕ, ◌+◌, ◌%◌, ◌^◌, Bool, true, false, List, [], ◌∷◌, ◌++◌, none, leb, is_empty, if◌then◌else◌,
}
use mtp_rs.Codes.Operation
use mtp_rs.Codes.Operation.{OperationCode}
use mtp_rs.Error.{io}
use mtp_rs.Pack.Slice.{Bytes}
use mtp_rs.Pack.Word.{pack_u16, pack_u32}
use mtp_rs.Container.{header_size, type_code, data_container, ResponseContainer}
use mtp_rs.Session.{Session}
use mtp_rs.Session.Receive.{receive_response}
use mtp_rs.Session.Execute.{transact, send_command, check_response}
use mtp_rs.Session.Io.{Await, resumed, refused, Transport, Exit, Io, ◌>>=◌, ◌>>◌, pure, await, lift}
use mtp_rs.Session.Stream.{ReceiveStream, start_receive_stream}

-- The header of the data container, with the sentinel for a length over 32 bits.
unfoldable pub stream_header : OperationCode → (tx_id total_size : ℕ) → Bytes
stream_header operation tx_id total_size =
    let container_length = header_size + total_size in
    (if leb container_length 0xFFFFFFFF
      then pack_u32 (container_length % 2 ^ 32)
      else pack_u32 0xFFFFFFFF)
    ++ (pack_u16 (type_code data_container)
        ++ (pack_u16 (Operation.to_code operation) ++ pack_u32 tx_id))

-- `data.next().await` with `map_err(Error::Io)`
abbrev pub chunk_of : Await Bytes → Await Bytes
chunk_of (refused _) = refused io
chunk_of chunk = chunk

-- Split mode: each chunk is a transfer of its own.
unfoldable pub send_chunks : {S : Type 0} → Transport S → List (Await Bytes) → Io S (Unit {0})
send_chunks t [] = pure tt
send_chunks t (chunk ∷ rest) = do
  bytes ← await (λ s. (chunk_of chunk, s))
  if is_empty bytes then pure tt else await (t.send_bulk bytes)
  send_chunks t rest

unfoldable pub send_data :
    {S : Type 0}
    → Transport S
    → (split : Bool) → (header : Bytes) → List (Await Bytes)
    → Io S (Unit {0})
send_data t true header chunks = await (t.send_bulk header) >> send_chunks t chunks
send_data t false header chunks = await (t.send_bulk_streaming (resumed header ∷ chunks))

-- `execute_with_send_stream`
unfoldable pub execute_with_send_stream :
    {S : Type 0}
    → Transport S
    → OperationCode
    → List ℕ
    → (total_size : ℕ) → List (Await Bytes)
    → Session S
    → Exit ResponseContainer × Session S
execute_with_send_stream t operation params total_size chunks s =
    transact t
      (λ tx_id.
        send_command t operation params tx_id
        >> (send_data t s.split_header_data (stream_header operation tx_id total_size) chunks
            >> receive_response t tx_id operation))
      s

unfoldable pub send_object_stream :
    {S : Type 0} → Transport S → (total_size : ℕ) → List (Await Bytes) → Io (Session S) (Unit {0})
send_object_stream t total_size chunks = do
  r ← execute_with_send_stream t OperationCode.send_object [] total_size chunks
  lift (check_response r OperationCode.send_object)

unfoldable pub get_object_stream : {S : Type 0} → Transport S → ℕ → Io (Session S) ReceiveStream
get_object_stream t handle = start_receive_stream t OperationCode.get_object (handle ∷ []) none
