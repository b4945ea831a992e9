-- ===== src/Session/Execute/Transfers.antt =====
-- The two ways in which `execute_with_send` of crates/mtp-rs/src/ptp/session/mod.rs sends its data.
use mtp_rs.Prelude.{ℕ, ◌≡◌, refl, Bool, true, false, [], ◌∷◌, append-nil, flat}
use mtp_rs.Codes.Operation.{OperationCode}
use mtp_rs.Pack.Slice.{Bytes}
use mtp_rs.Container.{data_bytes, header_bytes}
use mtp_rs.Session.Execute.{data_transfers, split_header}

-- Split or joined, the transfers carry the same bytes: those of the data container.
pub flat-transfers :
    (split : Bool) (operation : OperationCode) (tx_id : ℕ) (payload : Bytes)
    → flat (λ x. x) (data_transfers split operation tx_id payload)
      ≡ data_bytes (record { code = operation; transaction_id = tx_id; payload = payload })
unfolding data_transfers split_header data_bytes header_bytes
flat-transfers false operation tx_id payload = append-nil _
flat-transfers true operation tx_id [] = refl
flat-transfers true operation tx_id (x ∷ xs) = rw (append-nil xs)
