-- ===== src/Session/Operations/Streamed.antt =====
-- `execute_with_send_stream` against `execute_with_send`, and its header against the receiver's.
use mtp_rs.Prelude.{
  ℕ, ◌+◌, ◌^◌, ◌<◌, ◌≡◌, refl, ◌∙◌, ap, sym, Bool, true, false, List, [], ◌∷◌, ◌++◌, map, length,
  leb, is_empty, if◌then◌else◌, arith,
}
use mathlib.Core.Path.{fun_ext}
use mtp_rs.Codes.Operation
use mtp_rs.Codes.Operation.{OperationCode}
use mtp_rs.Pack.Slice.{Bytes}
use mtp_rs.Container.{header_bytes, data_bytes}
use mtp_rs.Session.{Session}
use mtp_rs.Session.Io.{
  resumed, Transport, Exit, done, failed, panicked, dropped, running, Io, after, ◌>>◌, pure, settle,
}
use mtp_rs.Session.Receive.{receive_response}
use mtp_rs.Session.Execute.{
  transact, send_command, send_all, data_transfers, split_header, execute_with_send,
}
use mtp_rs.Session.Stream.Phases.{all_of}
use mtp_rs.Session.Operations.Upload.{
  stream_header, send_chunks, send_data, execute_with_send_stream,
}

after-pure : {S : Type 0} (x : Exit (Unit {0}) × S) → after x (λ _. pure tt) ≡ x
after-pure (done tt, s) = refl
after-pure (failed e, s) = refl
after-pure (panicked, s) = refl
after-pure (dropped, s) = refl
after-pure (running, s) = refl

-- A length that 32 bits hold is written as it is.
stream_header-small :
    (operation : OperationCode) (tx total : ℕ)
    → 12 + total < 2 ^ 32
    → stream_header operation tx total
      ≡ header_bytes (12 + total) 2 (Operation.to_code operation) tx
unfolding stream_header header_bytes
stream_header-small operation tx total h =
    let small : leb (12 + total) 0xFFFFFFFF ≡ true = ground arith in rw small refl

-- The chunks of an upload, as its data phase sends them: in the split mode the payload is one chunk.
abbrev pub Carries : Bool → List Bytes → Bytes → Type 0
Carries true chunks payload = chunks ≡ payload ∷ []
Carries false chunks payload = all_of chunks ≡ payload

send_chunks-send_all :
    {S : Type 0} (t : Transport S) (payload : Bytes) (s : S)
    → send_chunks t (resumed payload ∷ []) s
      ≡ send_all t (if is_empty payload then [] else payload ∷ []) s
unfolding send_chunks send_all
send_chunks-send_all t [] s = refl
send_chunks-send_all t (b ∷ bs) s = refl

module _ {S : Type 0} (t : Transport S)
    (one_transfer : (chunks : List Bytes) (s : S)
      → t.send_bulk_streaming (map resumed chunks) s ≡ t.send_bulk (all_of chunks) s) where
  send_data-send_all :
      (split : Bool) (operation : OperationCode) (tx : ℕ) (chunks : List Bytes) (payload : Bytes)
      (s : S)
      → 12 + length payload < 2 ^ 32
      → Carries split chunks payload
      → send_data t split (stream_header operation tx (length payload)) (map resumed chunks) s
        ≡ send_all t (data_transfers split operation tx payload) s
  unfolding send_data send_all data_transfers
  send_data-send_all true operation tx chunks payload s fits e =
      let header : stream_header operation tx (length payload) ≡ split_header operation tx payload =
        stream_header-small operation tx (length payload) fits
        ∙ unfold split_header in unfold header_bytes in refl in
      rw (e, header)
        (ap
          (λ (k : Io S (Unit {0})).
            after (settle (t.send_bulk (split_header operation tx payload) s)) (λ _. k))
          (fun_ext (send_chunks-send_all t payload)))
  send_data-send_all false operation tx chunks payload s fits e =
      let header = stream_header operation tx (length payload) in
      let whole : header ++ all_of chunks
          ≡ data_bytes (record { code = operation; transaction_id = tx; payload = payload }) =
        ap (λ (x : Bytes). header ++ x) e
        ∙ ap (λ (x : Bytes). x ++ payload) (stream_header-small operation tx (length payload) fits)
        ∙ unfold data_bytes in refl in
      let sent = one_transfer (header ∷ chunks) s ∙ ap (λ (x : Bytes). t.send_bulk x s) whole in
      ap settle sent ∙ sym (after-pure (settle (t.send_bulk _ s)))

  -- On a transport whose `send_bulk_streaming` sends the chunks as one transfer, like `send_bulk` of
  -- their bytes: an upload from a stream does what `execute_with_send` of its payload does, for a
  -- payload whose length fits the header. In the split mode, which sends every chunk as a transfer of
  -- its own, this holds of a stream of one chunk.
  pub execute_with_send_stream-execute_with_send :
      (operation : OperationCode) (params : List ℕ) (chunks : List Bytes) (payload : Bytes)
      (s : Session S)
      → 12 + length payload < 2 ^ 32
      → Carries s.split_header_data chunks payload
      → execute_with_send_stream t operation params (length payload) (map resumed chunks) s
        ≡ execute_with_send t operation params payload s
  unfolding execute_with_send_stream execute_with_send
  execute_with_send_stream-execute_with_send operation params chunks payload s fits e =
      ap
        (λ (send : ℕ → Io S (Unit {0})).
          transact t
            (λ tx.
              send_command t operation params tx >> (send tx >> receive_response t tx operation))
            s)
        (fun_ext λ tx.
          fun_ext
            λ s1. send_data-send_all s.split_header_data operation tx chunks payload s1 fits e)
