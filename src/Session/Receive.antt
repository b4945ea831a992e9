-- ===== src/Session/Receive.antt =====
-- The reading loops of crates/mtp-rs/src/ptp/session/mod.rs: `receive_response`, and the loop of
-- `execute_with_receive`.
pub mod Bounded
pub mod Finite
use mtp_rs.Prelude.{
  ℕ, zero, suc, ◌+◌, Bool, true, false, not, ◌&&◌, ◌||◌, List, [], ◌∷◌, ◌++◌, length, is_empty, ltb,
  leb, ◌==◌, if◌then◌else◌,
}
use mtp_rs.Codes.Operation.{OperationCode}
use mtp_rs.Error.{
  PtpError, invalid_data, transaction_mismatch, empty_response, incomplete_data_container,
  unexpected_container_type,
}
use mtp_rs.Pack.Slice.{Bytes, slice}
use mtp_rs.Pack.Word.{unpack_u32}
use mtp_rs.Container.{
  ContainerType, command, data_container, response, event, container_type, parse_data,
  parse_response, ResponseContainer, DataContainer,
}
use mtp_rs.Session.{is_stale_reply, may_skip_stale_reply, max_stale_replies}
use mtp_rs.Session.Io.{Transport, Io, run_on, ◌>>=◌, ◌>>◌, pure, throw, await, lift}

abbrev pub mismatch : ℕ → ℕ → PtpError
mismatch expected got = invalid_data (transaction_mismatch expected got)

-- The loop of `receive_response`, with `skipped` late replies behind it.
unfoldable pub receive_loop :
    {S : Type 0} → (fuel : ℕ) → Transport S → ℕ → OperationCode → ℕ → Io S ResponseContainer
receive_loop zero t tx_id operation skipped = run_on
receive_loop (suc fuel) t tx_id operation skipped =
    let rest = receive_loop fuel t tx_id operation (suc skipped) in
    do
      bytes ← await (t.receive_bulk 512)
      r ← lift (parse_response bytes)
      if r.transaction_id == tx_id
          then pure r
          else if not
              (is_stale_reply r.transaction_id tx_id && may_skip_stale_reply operation skipped)
          then throw (mismatch tx_id r.transaction_id)
          else rest

-- `receive_response`: one read more than the replies that may be skipped.
unfoldable pub receive_response :
    {S : Type 0} → Transport S → ℕ → OperationCode → Io S ResponseContainer
receive_response t tx_id operation = receive_loop (suc max_stale_replies) t tx_id operation 0

-- `while bytes.len() < total_length`
unfoldable pub complete :
    {S : Type 0} → (fuel : ℕ) → Transport S → (total_length : ℕ) → Bytes → Io S Bytes
complete zero t total_length bytes = run_on
complete (suc fuel) t total_length bytes =
    if leb total_length (length bytes) then pure bytes else do
      more ← await (t.receive_bulk 0x10000)
      if is_empty more
          then throw (invalid_data incomplete_data_container)
          else complete fuel t total_length (bytes ++ more)

-- `match ct`: the arms for data, for a response, and for anything else.
abbrev pub by_kind {ℓ} : {A : Type ℓ} → ContainerType → A → A → A → A
by_kind data_container on_data on_response otherwise = on_data
by_kind response on_data on_response otherwise = on_response
by_kind _ on_data on_response otherwise = otherwise

-- The loop of `execute_with_receive`: the payload read so far, and the late replies skipped.
unfoldable pub receive_data :
    {S : Type 0}
    → (fuel : ℕ) → Transport S
    → ℕ
    → OperationCode
    → Bytes
    → ℕ
    → Io S (ResponseContainer × Bytes)
receive_data zero t tx_id operation collected skipped = run_on
receive_data (suc fuel) t tx_id operation collected skipped = do
  bytes ← await (t.receive_bulk 0x10000)
  if is_empty bytes then throw (invalid_data empty_response) else do
    kind ← lift (container_type bytes)
    by_kind kind
        (do
          prefix ← lift (slice bytes 0 4)
          total_length ← lift (unpack_u32 prefix)
          whole ← complete fuel t total_length bytes
          c ← lift (parse_data whole)
          receive_data fuel t tx_id operation (collected ++ c.payload) skipped)
        (do
          r ← lift (parse_response bytes)
          if r.transaction_id == tx_id
              then pure (r, collected)
              else if is_empty collected
                  && (is_stale_reply r.transaction_id tx_id
                      && may_skip_stale_reply operation skipped)
              then receive_data fuel t tx_id operation collected (suc skipped)
              else throw (mismatch tx_id r.transaction_id))
        (throw (invalid_data unexpected_container_type))
