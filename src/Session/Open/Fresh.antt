-- ===== src/Session/Open/Fresh.antt =====
-- What `open_with_reuse` of crates/mtp-rs/src/ptp/session/mod.rs hands out.
use mtp_rs.Prelude.{ℕ, ◌≡◌, refl, Bool, true, false, [], if◌then◌else◌}
use mtp_rs.Codes.Operation.{close_session}
use mtp_rs.Codes.Response
use mtp_rs.Error.{
  PtpError, usb, protocol, invalid_data, io, timeout, disconnected, session_not_open, no_device,
  string_too_long, device_reset,
}
use mtp_rs.Container.{ResponseContainer}
use mtp_rs.Container.Safety.{parse_response-Ensures}
use mtp_rs.Session.{Session, new}
use mtp_rs.Session.Execute.{close, ignored}
use mtp_rs.Session.Execute.Recovery.{execute-Ends, Ends}
use mtp_rs.Session.Open.{
  open_with_reuse, send_open_session, send_open_session_once, opened, reopen, refusal, transport_of,
  drain_and_retry,
}
use mtp_rs.Session.Io.{
  Transport, Exit, done, failed, panicked, dropped, running, Settles, completes, fails, drops,
  Anywhere, Settles-after, Settles-await, Settles-lift, Settles-weaken,
}

-- A session on which no operation has run, over the transport as it stands.
pub record IsFresh {S : Type 0} (session_id : ℕ) (opened_session : Session S) (s : S) : Type 0 where
  pub transport : opened_session.transport ≡ s
  pub id : opened_session.session_id ≡ session_id
  pub first_transaction : opened_session.transaction_id ≡ 1
  pub no_drain : opened_session.needed ≡ false
  pub whole_transfers : opened_session.split_header_data ≡ false

pub new-IsFresh : {S : Type 0} (session_id : ℕ) (s : S) → IsFresh session_id (new s session_id) s
unfolding new
new-IsFresh session_id s = record {
  transport = refl;
  id = refl;
  first_transaction = refl;
  no_drain = refl;
  whole_transfers = refl;
}

once-Settles :
    {S : Type 0} (t : Transport S) (session_id : ℕ) (s : S)
    → Settles (λ _ _. Unit {0}) Anywhere (send_open_session_once t session_id s)
unfolding send_open_session_once
once-Settles t session_id s = Settles-after (Settles-await (t.send_bulk _) s) λ _ s1 _.
    Settles-after (Settles-await (t.receive_bulk 512) s1) λ bytes s2 _.
      Settles-weaken (λ _ _ _. tt) (λ _ _. tt) (Settles-lift s2 (parse_response-Ensures bytes))

send-Settles :
    {S : Type 0} (t : Transport S) (session_id : ℕ) (s : S)
    → Settles (λ _ _. Unit {0}) Anywhere (send_open_session t session_id s)
unfolding send_open_session drain_and_retry
send-Settles {S} t session_id s = retried _ (once-Settles t session_id s)
  where
    retried :
        (x : Exit ResponseContainer × S)
        → Settles (λ _ _. Unit {0}) Anywhere x
        → Settles (λ _ _. Unit {0}) Anywhere (drain_and_retry t session_id x)
    retried (done r, s') h = h
    retried (failed (invalid_data m), s') h =
        Settles-after (Settles-await t.drain_bulk_in s') λ _ s1 _. once-Settles t session_id s1
    retried (failed (usb k), s') h = h
    retried (failed (protocol c o), s') h = h
    retried (failed io, s') h = h
    retried (failed timeout, s') h = h
    retried (failed disconnected, s') h = h
    retried (failed session_not_open, s') h = h
    retried (failed no_device, s') h = h
    retried (failed PtpError.cancelled, s') h = h
    retried (failed (string_too_long n), s') h = h
    retried (failed device_reset, s') h = h
    retried (dropped, s') h = h
    retried (panicked, s') h = h
    retried (running, s') h = h

-- Closing the session that was there cannot fail: its outcome is ignored.
close-Settles :
    {S : Type 0} (t : Transport S) (session_id : ℕ) (s : S)
    → Settles (λ _ _. Unit {0}) Anywhere (transport_of (close t (new s session_id)))
unfolding close ignored transport_of
close-Settles {S} t session_id s = closed _ (execute-Ends t close_session [] (new s session_id))
  where
    closed :
        {Q : ResponseContainer → Type 0} {s0 : Session S} (x : Exit ResponseContainer × Session S)
        → Ends Q s0 x
        → Settles (λ _ _. Unit {0}) Anywhere (transport_of (ignored x))
    closed (done r, s') h = completes tt
    closed (failed e, s') h = completes tt
    closed (dropped, s') h = drops tt
    closed (panicked, s') h = elim h [ ]
    closed (running, s') h = elim h [ ]

reopen-Settles :
    {S : Type 0} (t : Transport S) (session_id : ℕ) (s : S)
    → Settles (IsFresh session_id) Anywhere (reopen t session_id s)
unfolding reopen refusal
reopen-Settles {S} t session_id s = Settles-after (close-Settles t session_id s) λ _ s1 _.
    Settles-after (send-Settles t session_id s1) λ r s2 _. split (Response.is_ok r.code) r s2
  where
    split :
        (b : Bool) (r : ResponseContainer) (s' : S)
        → Settles
            (IsFresh session_id)
            Anywhere
            (if b then (done (new s' session_id), s') else refusal r s')
    split true r s' = completes (new-IsFresh session_id s')
    split false r s' = fails tt

-- Opening a session always ends, without a panic, whatever the device answers, and a session that
-- it returns, whether the first one, a reused one or a reopened one, has the session ID that was
-- asked for and 1 as its next transaction ID, owes no drain, sends headers and payloads together,
-- and holds the transport as it stands.
pub open_with_reuse-IsFresh :
    {S : Type 0} (t : Transport S) (session_id : ℕ) (reuse_existing : Bool) (s : S)
    → Settles (IsFresh session_id) Anywhere (open_with_reuse t session_id reuse_existing s)
unfolding open_with_reuse opened refusal
open_with_reuse-IsFresh {S} t session_id reuse_existing s =
    Settles-after (send-Settles t session_id s) λ r s1 _.
      split (Response.is_ok r.code) (Response.is_session_already_open r.code) reuse_existing r s1
  where
    split :
        (b c d : Bool) (r : ResponseContainer) (s' : S)
        → Settles (IsFresh session_id) Anywhere (
            if b
            then (done (new s' session_id), s')
            else if c
            then if d then (done (new s' session_id), s') else reopen t session_id s'
            else refusal r s')
    split true c d r s' = completes (new-IsFresh session_id s')
    split false true true r s' = completes (new-IsFresh session_id s')
    split false true false r s' = reopen-Settles t session_id s'
    split false false d r s' = fails tt
