-- ===== src/Session/Execute.antt =====
-- `execute`, `execute_with_send`, `execute_with_receive` and `recover_if_needed` of
-- crates/mtp-rs/src/ptp/session/mod.rs. The operation lock makes each of them one step.
pub mod Recovery
pub mod Transfers
use mtp_rs.Prelude.{
  ℕ, ◌+◌, ◌%◌, ◌^◌, Bool, true, false, not, List, [], ◌∷◌, ◌++◌, length, is_empty, if◌then◌else◌,
}
use mtp_rs.Codes.Operation.{OperationCode, close_session}
use mtp_rs.Codes.Operation
use mtp_rs.Codes.Response
use mtp_rs.Error.{Result, ok, err, protocol}
use mtp_rs.Pack.Slice.{Bytes}
use mtp_rs.Pack.Word.{pack_u16, pack_u32}
use mtp_rs.Container.{
  header_size, type_code, data_container, command_bytes, data_bytes, ResponseContainer,
}
use mtp_rs.Session.{Session, flag, next_transaction_id}
use mtp_rs.Session.Receive.{receive_response, receive_data}
use mtp_rs.Session.Io.{
  Await, resumed, refused, abandoned, Transport, Exit, done, failed, panicked, dropped, running, Io,
  after, ◌>>=◌, ◌>>◌, pure, await,
}

-- What `recover_if_needed` does with the end of the drain; the flag is down while it waits.
unfoldable pub end_recovery :
    {S : Type 0} → ℕ → Session S → Await (Unit {0}) × S → Exit (Unit {0}) × Session S
end_recovery tx_id s (resumed _, t) = (done tt, record s { transport = t })
end_recovery tx_id s (refused e, t) = (failed e, flag tx_id (record s { transport = t }))
end_recovery tx_id s (abandoned, t) = (dropped, record s { transport = t })

-- `recover_if_needed`, with `RecoveryState::take`
unfoldable pub recover_if_needed :
    {S : Type 0} → Transport S → Session S → Exit (Unit {0}) × Session S
recover_if_needed t s =
    if s.needed
    then end_recovery s.poisoned_tx_id (record s { needed = false })
        (t.cancel_transfer s.poisoned_tx_id s.transport)
    else (done tt, s)

-- `TransactionScope`: disarmed on `Ok`, and its `drop` flags on every other way out.
unfoldable pub scoped {ℓ} :
    {S : Type 0} {A : Type ℓ} → ℕ → Session S → Exit A × S → Exit A × Session S
scoped tx_id s (done a, t) = (done a, record s { transport = t })
scoped tx_id s (failed e, t) = (failed e, flag tx_id (record s { transport = t }))
scoped tx_id s (panicked, t) = (panicked, flag tx_id (record s { transport = t }))
scoped tx_id s (dropped, t) = (dropped, flag tx_id (record s { transport = t }))
scoped tx_id s (running, t) = (running, record s { transport = t })

-- The frame of the three operations: recover, take an ID, and run `body` with the guard armed.
unfoldable pub transact {ℓ} :
    {S : Type 0} {A : Type ℓ} → Transport S → (ℕ → Io S A) → Session S → Exit A × Session S
transact t body s =
    after (recover_if_needed t s)
      λ _ s1. let (tx_id, s2) = next_transaction_id s1 in scoped tx_id s2 (body tx_id s2.transport)

unfoldable pub send_command :
    {S : Type 0} → Transport S → OperationCode → List ℕ → ℕ → Io S (Unit {0})
send_command t operation params tx_id = await (
    t.send_bulk
      (command_bytes (record { code = operation; transaction_id = tx_id; params = params })))

-- `execute`
unfoldable pub execute :
    {S : Type 0}
    → Transport S
    → OperationCode
    → List ℕ
    → Session S
    → Exit ResponseContainer × Session S
execute t operation params =
    transact t λ tx_id. send_command t operation params tx_id >> receive_response t tx_id operation

-- The header that the split mode sends on its own.
unfoldable pub split_header : OperationCode → ℕ → Bytes → Bytes
split_header operation tx_id payload =
    let total_len = (header_size + length payload) % 2 ^ 32 in
    pack_u32 total_len
    ++ (pack_u16 (type_code data_container)
        ++ (pack_u16 (Operation.to_code operation) ++ pack_u32 tx_id))

-- The bulk transfers of the data phase.
unfoldable pub data_transfers : Bool → OperationCode → ℕ → Bytes → List Bytes
data_transfers true operation tx_id payload =
    split_header operation tx_id payload ∷ (if is_empty payload then [] else payload ∷ [])
data_transfers false operation tx_id payload =
    data_bytes (record { code = operation; transaction_id = tx_id; payload = payload }) ∷ []

unfoldable pub send_all : {S : Type 0} → Transport S → List Bytes → Io S (Unit {0})
send_all t [] = pure tt
send_all t (x ∷ xs) = await (t.send_bulk x) >> send_all t xs

-- `execute_with_send`
unfoldable pub execute_with_send :
    {S : Type 0}
    → Transport S
    → OperationCode
    → List ℕ
    → Bytes
    → Session S
    → Exit ResponseContainer × Session S
execute_with_send t operation params payload s =
    transact t
      (λ tx_id.
        send_command t operation params tx_id
        >> (send_all t (data_transfers s.split_header_data operation tx_id payload)
            >> receive_response t tx_id operation))
      s

-- `execute_with_receive`
unfoldable pub execute_with_receive :
    {S : Type 0}
    → (fuel : ℕ) → Transport S
    → OperationCode
    → List ℕ
    → Session S
    → Exit (ResponseContainer × Bytes) × Session S
execute_with_receive fuel t operation params =
    transact t
      λ tx_id. send_command t operation params tx_id >> receive_data fuel t tx_id operation [] 0

-- `close`: the outcome of `CloseSession` is ignored, except that the future can be dropped.
unfoldable pub ignored :
    {S : Type 0} → Exit ResponseContainer × Session S → Exit (Unit {0}) × Session S
ignored (done _, s) = (done tt, s)
ignored (failed _, s) = (done tt, s)
ignored (panicked, s) = (panicked, s)
ignored (dropped, s) = (dropped, s)
ignored (running, s) = (running, s)

unfoldable pub close : {S : Type 0} → Transport S → Session S → Exit (Unit {0}) × Session S
unfolding ignored
close t s = ignored (execute t close_session [] s)

-- `check_response`
abbrev pub check_response : ResponseContainer → OperationCode → Result (Unit {0})
check_response r operation =
    if Response.is_ok r.code then ok tt else err (protocol r.code operation)
