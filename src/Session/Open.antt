-- ===== src/Session/Open.antt =====
-- Opening a session: `open_with_reuse`, `send_open_session` and `send_open_session_once` of
-- crates/mtp-rs/src/ptp/session/mod.rs.
pub mod Fresh
pub mod Reuse
use mtp_rs.Prelude.{ℕ, Bool, true, false, List, [], ◌∷◌, ◌++◌, if◌then◌else◌}
use mtp_rs.Codes.Operation.{OperationCode, open_session}
use mtp_rs.Codes.Response
use mtp_rs.Error.{PtpError, invalid_data, protocol}
use mtp_rs.Container.{command_bytes, parse_response, ResponseContainer}
use mtp_rs.Session.{Session, new, session_less}
use mtp_rs.Session.Execute.{close}
use mtp_rs.Session.Io.{
  Transport, Exit, done, failed, panicked, dropped, running, Io, after, ◌>>=◌, ◌>>◌, throw, await,
  lift,
}

-- `send_open_session_once`
unfoldable pub send_open_session_once :
    {S : Type 0} → Transport S → (session_id : ℕ) → Io S ResponseContainer
send_open_session_once t session_id = do
  await (
      t.send_bulk (
        command_bytes (record {
          code = open_session;
          transaction_id = session_less;
          params = session_id ∷ [];
        })))
  bytes ← await (t.receive_bulk 512)
  lift (parse_response bytes)

-- The reply that is not a response is drained, and the command sent once more.
drain_and_retry :
    {S : Type 0} → Transport S → ℕ → Exit ResponseContainer × S → Exit ResponseContainer × S
drain_and_retry t session_id (failed (invalid_data m), s) =
    (await t.drain_bulk_in >>= λ _. send_open_session_once t session_id) s
drain_and_retry t session_id (e, s) = (e, s)

-- `send_open_session`
unfoldable pub send_open_session :
    {S : Type 0} → Transport S → (session_id : ℕ) → Io S ResponseContainer
unfolding drain_and_retry
send_open_session t session_id s =
    drain_and_retry t session_id (send_open_session_once t session_id s)

refusal : {S : Type 0} → ResponseContainer → S → Exit (Session S) × S
refusal r = throw (protocol r.code open_session)

-- The old session is dropped, and its transport is kept.
transport_of : {S : Type 0} → Exit (Unit {0}) × Session S → Exit (Unit {0}) × S
transport_of (e, s) = (e, s.transport)

-- The second `OpenSession`, after the session that was there is closed.
reopen : {S : Type 0} → Transport S → ℕ → S → Exit (Session S) × S
unfolding refusal transport_of
reopen t session_id s = after (transport_of (close t (new s session_id))) λ _ s1.
    after (send_open_session t session_id s1)
      λ r s'. if Response.is_ok r.code then (done (new s' session_id), s') else refusal r s'

-- What `open_with_reuse` does with the first reply.
opened :
    {S : Type 0}
    → Transport S
    → ℕ
    → (reuse_existing : Bool) → ResponseContainer
    → S
    → Exit (Session S) × S
unfolding reopen refusal
opened t session_id reuse_existing r s =
    if Response.is_ok r.code
    then (done (new s session_id), s)
    else if Response.is_session_already_open r.code
    then if reuse_existing then (done (new s session_id), s) else reopen t session_id s
    else refusal r s

-- `open_with_reuse`
unfoldable pub open_with_reuse :
    {S : Type 0} → Transport S → (session_id : ℕ) → (reuse_existing : Bool) → Io S (Session S)
unfolding opened
open_with_reuse t session_id reuse_existing s =
    after (send_open_session t session_id s) (opened t session_id reuse_existing)
