-- ===== src/Session/Receive/Finite.antt =====
-- The loop of `execute_with_receive` of crates/mtp-rs/src/ptp/session/mod.rs ends when the device
-- stops sending.
use mtp_rs.Prelude.{
  ℕ, zero, suc, ◌≤◌, ◌<◌, ◌≡◌, refl, ◌&&◌, leb, ◌==◌, ==→eq, length, is_empty, ◌++◌, arith,
}
use mtp_rs.Codes.Operation.{OperationCode}
use mtp_rs.Pack.Slice.{Bytes, slice-Ensures}
use mtp_rs.Pack.Word.{unpack_word-Ensures}
use mtp_rs.Container.{ContainerType, command, data_container, response, event, ResponseContainer}
use mtp_rs.Container.Safety.{parse_response-Ensures, parse_data-Ensures, container_type-Ensures}
use mtp_rs.Session.{is_stale_reply, may_skip_stale_reply}
use mtp_rs.Session.Receive.{receive_data, complete, by_kind}
use mtp_rs.Session.Io.{
  Await, resumed, refused, abandoned, Transport, Settles, completes, fails, drops, Anywhere,
  Settles-after, Settles-after-lift, Settles-if, Io, settle, await,
}

-- A device that sends finitely many transfers: `remaining` bounds those still to come.
pub record Finite {S : Type 0} (t : Transport S) : Type 0 where
  pub remaining : S → ℕ
  pub read-lt :
      (n : ℕ) (s s' : S) (bytes : Bytes)
      → t.receive_bulk n s ≡ (resumed bytes, s')
      → remaining s' < remaining s
  pub send-le : (bytes : Bytes) (s : S) → remaining ((t.send_bulk bytes s).1) ≤ remaining s
  pub cancel-le : (tx_id : ℕ) (s : S) → remaining ((t.cancel_transfer tx_id s).1) ≤ remaining s

read-Settles :
    {S : Type 0} (t : Transport S) (f : Finite t) (n : ℕ) (s : S)
    → Settles (λ _ s'. f.remaining s' < f.remaining s) Anywhere (await (t.receive_bulk n) s)
read-Settles {S} t f n s = split (t.receive_bulk n s) refl
  where
    split :
        (x : Await Bytes × S)
        → t.receive_bulk n s ≡ x
        → Settles (λ _ s'. f.remaining s' < f.remaining s) Anywhere (settle x)
    split (resumed bytes, s') e = completes (f.read-lt n s s' bytes e)
    split (refused e', s') e = fails tt
    split (abandoned, s') e = drops tt

complete-Settles :
    {S : Type 0} (t : Transport S) (f : Finite t) (fuel bound total_length : ℕ) (bytes : Bytes)
    (s : S)
    → f.remaining s < fuel
    → f.remaining s ≤ bound
    → Settles (λ _ s'. f.remaining s' ≤ bound) Anywhere (complete fuel t total_length bytes s)
unfolding complete
complete-Settles t f zero bound total_length bytes s h k = ground arith
complete-Settles t f (suc fuel) bound total_length bytes s h k =
    Settles-if (leb total_length (length bytes)) _ _ (λ _. completes k)
      λ _. Settles-after (read-Settles t f 0x10000 s) λ more s1 lt.
        Settles-if (is_empty more) _ _ (λ _. fails tt)
          λ _.
            complete-Settles t f fuel bound total_length (bytes ++ more) s1 (omega arith)
              (omega arith)

Settles-by_kind :
    {S A : Type 0} {Q : A → S → Type 0} (kind : ContainerType) (m k l : Io S A) {s : S}
    → Settles Q Anywhere (m s)
    → Settles Q Anywhere (k s)
    → Settles Q Anywhere (l s)
    → Settles Q Anywhere (by_kind kind m k l s)
Settles-by_kind data_container m k l f g h = f
Settles-by_kind response m k l f g h = g
Settles-by_kind command m k l f g h = h
Settles-by_kind event m k l f g h = h

-- The reply that is returned, whatever data came before it.
abbrev pub IsReplyAfter : {S : Type 0} → ℕ → ResponseContainer × Bytes → S → Type 0
IsReplyAfter tx_id r s = r.0.transaction_id ≡ tx_id

pub receive_data-Settles :
    {S : Type 0} (t : Transport S) (f : Finite t) (fuel : ℕ) (tx_id : ℕ) (operation : OperationCode)
    (collected : Bytes) (skipped : ℕ) (s : S)
    → f.remaining s < fuel
    → Settles
        (IsReplyAfter tx_id)
        Anywhere
        (receive_data fuel t tx_id operation collected skipped s)
unfolding receive_data
receive_data-Settles t f zero tx_id operation collected skipped s h = ground arith
receive_data-Settles t f (suc fuel) tx_id operation collected skipped s h =
    Settles-after (read-Settles t f 0x10000 s) λ bytes s1 lt.
      Settles-if (is_empty bytes) _ _ (λ _. fails tt)
        λ _. Settles-after-lift _ (container_type-Ensures bytes) λ kind enough.
          Settles-by_kind kind _ _ _
            (Settles-after-lift _ (slice-Ensures bytes 0 4 (omega arith) (omega arith)) λ prefix _.
              Settles-after-lift _ (unpack_word-Ensures 4 prefix) λ total_length _.
                Settles-after
                  (complete-Settles t f fuel (f.remaining s1) total_length bytes s1 (omega arith)
                    (omega arith))
                  λ whole s2 le. Settles-after-lift _ (parse_data-Ensures whole) λ c _.
                    receive_data-Settles t f fuel tx_id operation (collected ++ c.payload) skipped
                      s2 (omega arith))
            (Settles-after-lift _ (parse_response-Ensures bytes) λ r _.
              Settles-if (r.transaction_id == tx_id) _ _ (λ e. completes (==→eq _ _ e))
                λ _.
                  Settles-if
                    (is_empty collected
                      && (is_stale_reply r.transaction_id tx_id
                          && may_skip_stale_reply operation skipped))
                    _ _
                    (λ _.
                      receive_data-Settles t f fuel tx_id operation collected (suc skipped) s1
                        (omega arith))
                    λ _. fails tt)
            (fails tt)
