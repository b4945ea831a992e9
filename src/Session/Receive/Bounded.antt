-- ===== src/Session/Receive/Bounded.antt =====
-- `receive_response` of crates/mtp-rs/src/ptp/session/mod.rs ends, with its own reply or none.
use mtp_rs.Prelude.{
  ℕ, zero, suc, ◌+◌, ◌≤◌, ◌<◌, ◌≡◌, refl, Bool, true, false, not, ◌&&◌, ltb→lt, ◌==◌, ==→eq, arith,
}
use mtp_rs.Codes.Operation.{OperationCode, is_close_session}
use mtp_rs.Container.{ResponseContainer}
use mtp_rs.Container.Safety.{parse_response-Ensures}
use mtp_rs.Session.{is_stale_reply, may_skip_stale_reply, max_stale_replies}
use mtp_rs.Session.Receive.{receive_loop, receive_response}
use mtp_rs.Session.Io.{
  Transport, Settles, completes, fails, Anywhere, Settles-after, Settles-await, Settles-lift,
  Settles-if,
}

guards-lt :
    (stale closing below : Bool) → not (stale && (not closing && below)) ≡ false → below ≡ true
guards-lt true false true e = refl
guards-lt true false false e = cc
guards-lt true true below e = cc
guards-lt false closing below e = cc

may_skip-lt :
    (stale : Bool) (operation : OperationCode) (skipped : ℕ)
    → not (stale && may_skip_stale_reply operation skipped) ≡ false
    → skipped < max_stale_replies
unfolding may_skip_stale_reply
may_skip-lt stale operation skipped e =
    ltb→lt _ _ (guards-lt stale (is_close_session operation) _ e)

abbrev pub IsReplyTo : {S : Type 0} → ℕ → ResponseContainer → S → Type 0
IsReplyTo tx_id r s = r.transaction_id ≡ tx_id

receive_loop-Settles :
    {S : Type 0} (fuel : ℕ) (t : Transport S) (tx_id : ℕ) (operation : OperationCode) (skipped : ℕ)
    (s : S)
    → max_stale_replies < fuel + skipped
    → skipped ≤ max_stale_replies
    → Settles (IsReplyTo tx_id) Anywhere (receive_loop fuel t tx_id operation skipped s)
unfolding receive_loop
receive_loop-Settles zero t tx_id operation skipped s h k = ground arith
receive_loop-Settles (suc fuel) t tx_id operation skipped s h k =
    Settles-after (Settles-await (t.receive_bulk 512) s) λ bytes s1 _.
      Settles-after (Settles-lift s1 (parse_response-Ensures bytes)) λ r s2 _.
        Settles-if (r.transaction_id == tx_id) _ _ (λ e. completes (==→eq _ _ e))
          λ _.
            Settles-if
              (not
                (is_stale_reply r.transaction_id tx_id && may_skip_stale_reply operation skipped))
              _ _ (λ _. fails tt)
              λ e.
                let more =
                  may_skip-lt (is_stale_reply r.transaction_id tx_id) operation skipped e in
                receive_loop-Settles fuel t tx_id operation (suc skipped) s2 (omega arith)
                  (omega arith)

-- For every transport, `receive_response` ends within five reads, without a panic, and a response
-- that it returns carries the ID of the transaction that waits for it.
pub receive_response-Settles :
    {S : Type 0} (t : Transport S) (tx_id : ℕ) (operation : OperationCode) (s : S)
    → Settles (IsReplyTo tx_id) Anywhere (receive_response t tx_id operation s)
unfolding receive_response
receive_response-Settles t tx_id operation s =
    receive_loop-Settles (suc max_stale_replies) t tx_id operation 0 s (omega arith) (omega arith)
