-- ===== src/Session.antt =====
-- crates/mtp-rs/src/ptp/session/mod.rs and `TransactionId` of crates/mtp-rs/src/ptp/mod.rs: the
-- session, its recovery flag and the operations.
pub mod Io
pub mod Identifier
pub mod Receive
pub mod Execute
pub mod Open
pub mod Stream
pub mod Operations
mod Tests
use mtp_rs.Prelude.{
  ℕ, zero, suc, ◌+◌, ◌-◌, ◌%◌, ◌^◌, Bool, true, false, not, ◌&&◌, ◌||◌, List, [], ◌∷◌, ltb, ◌==◌,
  if◌then◌else◌,
}
use mtp_rs.Codes.Operation
use mtp_rs.Codes.Operation.{OperationCode, is_close_session}

abbrev pub u32_size : ℕ
u32_size = 2 ^ 32

-- `TransactionId::next`
unfoldable pub next : ℕ → ℕ
next id =
    let following = (id + 1) % u32_size in
    if following == 0 || following == 0xFFFFFFFF then 1 else following

-- `TransactionId::FIRST` and `TransactionId::SESSION_LESS`
abbrev pub first_id : ℕ
first_id = 1

abbrev pub session_less : ℕ
session_less = 0

abbrev pub max_stale_replies : ℕ
max_stale_replies = 4

-- `expected.wrapping_sub(got)` and the test on it.
unfoldable pub is_stale_reply : (got expected : ℕ) → Bool
is_stale_reply got expected =
    let behind = (expected + u32_size - got) % u32_size in
    not (behind == 0) && ltb behind 0x80000000

unfoldable pub may_skip_stale_reply : OperationCode → ℕ → Bool
may_skip_stale_reply operation skipped =
    not (is_close_session operation) && ltb skipped max_stale_replies

-- The session over the state `S` of its transport. `needed` and `poisoned_tx_id` are the fields of
-- its `RecoveryState`.
pub record Session (S : Type 0) : Type 0 where
  pub transport : S
  pub session_id : ℕ
  pub transaction_id : ℕ
  pub split_header_data : Bool
  pub needed : Bool
  pub poisoned_tx_id : ℕ

-- `PtpSession::new`
unfoldable pub new : {S : Type 0} → S → ℕ → Session S
new transport session_id = record {
  transport = transport;
  session_id = session_id;
  transaction_id = first_id;
  split_header_data = false;
  needed = false;
  poisoned_tx_id = 0;
}

-- `RecoveryState::flag`
unfoldable pub flag : {S : Type 0} → ℕ → Session S → Session S
flag tx_id s = record s { needed = true; poisoned_tx_id = tx_id }

-- `next_transaction_id`: the current ID is the caller's, and the counter moves on.
unfoldable pub next_transaction_id : {S : Type 0} → Session S → ℕ × Session S
next_transaction_id s = (s.transaction_id, record s { transaction_id = next s.transaction_id })

-- `set_split_header_data`
abbrev pub set_split_header_data : {S : Type 0} → Bool → Session S → Session S
set_split_header_data split s = record s { split_header_data = split }

-- `needs_recovery`
abbrev pub needs_recovery : {S : Type 0} → Session S → Bool
needs_recovery s = s.needed
