-- ===== src/Session/Open/Reuse.antt =====
-- What `open_with_reuse` does on a device whose session is open already.
use mtp_rs.Prelude.{ℕ, ◌≡◌, [], ◌∷◌}
use mtp_rs.Codes.Operation.{open_session, close_session}
use mtp_rs.Codes.Response
use mtp_rs.Pack.Slice.{Bytes}
use mtp_rs.Container.{command_bytes, build_response}
use mtp_rs.Session.Io.{Transport, resumed}

-- The device takes the command `sent` and answers with a response without parameters.
pub record Exchanges {S : Type 0} (t : Transport S) (sent : Bytes) (s : S) (code transaction_id : ℕ)
    (s' : S) : Type 0 where
  pub behind_command : S
  pub takes : t.send_bulk sent s ≡ (resumed tt, behind_command)
  pub replies :
      t.receive_bulk 512 behind_command ≡ (resumed (build_response code transaction_id []), s')

abbrev pub open_command : ℕ → Bytes
open_command session_id =
    command_bytes (record { code = open_session; transaction_id = 0; params = session_id ∷ [] })

abbrev pub close_command : Bytes
close_command = command_bytes (record { code = close_session; transaction_id = 1; params = [] })
