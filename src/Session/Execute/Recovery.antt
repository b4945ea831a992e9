-- ===== src/Session/Execute/Recovery.antt =====
-- What an operation of crates/mtp-rs/src/ptp/session/mod.rs leaves behind, however it ends.
use mtp_rs.Prelude.{
  ℕ, ◌≡◌, ◌≤◌, ◌<◌, refl, ap, subst, ◌⊎◌, inl, inr, arith, Bool, true, false, List, [], ◌∷◌,
  if◌then◌else◌,
}
use mtp_rs.Codes.Operation.{OperationCode}
use mtp_rs.Error.{PtpError}
use mtp_rs.Pack.Slice.{Bytes}
use mtp_rs.Container.{command_bytes}
use mtp_rs.Session.{Session, next, flag, next_transaction_id}
use mtp_rs.Session.Receive.Bounded.{receive_response-Settles}
use mtp_rs.Session.Receive.Finite.{Finite, receive_data-Settles}
use mtp_rs.Session.Execute.{
  execute_with_receive, recover_if_needed, end_recovery, scoped, transact, execute,
  execute_with_send, send_command, send_all,
}
use mtp_rs.Session.Io.{
  Await, resumed, refused, abandoned, Transport, Exit, done, failed, dropped, Io, settle, after,
  Settles, completes, fails, drops, Anywhere, Settles-after, Settles-await,
}

-- How an operation that began in the session `s` ends, with what it leaves.
pub data Ends {ℓ κ} {S : Type 0} {A : Type ℓ} (Q : A → Type κ) (s : Session S)
    : Exit A × Session S → Type (ℓ ⊔ κ) where
  -- It returned: the pipe is clean, and the next ID is due.
  returned :
      {a : A} {s' : Session S}
      → Q a
      → s'.needed ≡ false
      → s'.transaction_id ≡ next s.transaction_id
      → Ends Q s (done a, s')
  -- It failed after it took its ID: the next operation drains the pipe, for this ID.
  aborted :
      {e : PtpError} {s' : Session S}
      → s'.needed ≡ true
      → s'.poisoned_tx_id ≡ s.transaction_id
      → s'.transaction_id ≡ next s.transaction_id
      → Ends Q s (failed e, s')
  -- It was dropped after it took its ID: the same.
  cancelled :
      {s' : Session S}
      → s'.needed ≡ true
      → s'.poisoned_tx_id ≡ s.transaction_id
      → s'.transaction_id ≡ next s.transaction_id
      → Ends Q s (dropped, s')
  -- The drain that it owed failed: the next operation owes it again.
  still_owed :
      {e : PtpError} {s' : Session S}
      → s.needed ≡ true
      → s'.needed ≡ true
      → s'.poisoned_tx_id ≡ s.poisoned_tx_id
      → s'.transaction_id ≡ s.transaction_id
      → Ends Q s (failed e, s')
  -- It was dropped while it drained the pipe: the flag is down.
  drain_dropped :
      {s' : Session S}
      → s.needed ≡ true
      → s'.needed ≡ false
      → s'.transaction_id ≡ s.transaction_id
      → Ends Q s (dropped, s')

scoped-Ends :
    {S A : Type 0} {Q : A → Type 0} (s s1 : Session S) (x : Exit A × S)
    → s1.needed ≡ false
    → s1.transaction_id ≡ s.transaction_id
    → Settles (λ a _. Q a) Anywhere x
    → Ends Q s (scoped s1.transaction_id (record s1 { transaction_id = next s1.transaction_id }) x)
unfolding scoped flag
scoped-Ends s s1 x clean same (completes q) = returned q clean (ap next same)
scoped-Ends s s1 x clean same (fails _) = aborted refl same (ap next same)
scoped-Ends s s1 x clean same (drops _) = cancelled refl same (ap next same)

pub transact-Ends :
    {S A : Type 0} {Q : A → Type 0} (t : Transport S) (body : ℕ → Io S A) (s : Session S)
    → ((state : S)
        → (state ≡ s.transport) ⊎ (state ≡ (t.cancel_transfer s.poisoned_tx_id s.transport).1)
        → Settles (λ a _. Q a) Anywhere (body s.transaction_id state))
    → Ends Q s (transact t body s)
unfolding transact recover_if_needed next_transaction_id end_recovery flag
transact-Ends {S} {A} {Q} t body s h = recovered s.needed refl
  where
    drained :
        s.needed ≡ true
        → (x : Await (Unit {0}) × S) → x.1 ≡ (t.cancel_transfer s.poisoned_tx_id s.transport).1
        → Ends Q s (
            after (end_recovery s.poisoned_tx_id (record s { needed = false }) x) λ _ s1.
              scoped s1.transaction_id
                (record s1 { transaction_id = next s1.transaction_id })
                (body s1.transaction_id s1.transport))
    drained e (resumed _, state) same =
        scoped-Ends s (record s { needed = false; transport = state }) _ refl refl
          (h state (inr same))
    drained e (refused _, state) same = still_owed e refl refl refl
    drained e (abandoned, state) same = drain_dropped e refl refl

    recovered :
        (b : Bool)
        → s.needed ≡ b
        → Ends Q s (
            after
              (if b
                then end_recovery s.poisoned_tx_id
                    (record s { needed = false })
                    (t.cancel_transfer s.poisoned_tx_id s.transport)
                else (done tt, s))
              λ _ s1.
                scoped s1.transaction_id
                  (record s1 { transaction_id = next s1.transaction_id })
                  (body s1.transaction_id s1.transport))
    recovered true e = drained e (t.cancel_transfer s.poisoned_tx_id s.transport) refl
    recovered false e = scoped-Ends s s _ e refl (h s.transport (inl refl))

pub send_command-Settles :
    {S : Type 0} (t : Transport S) (operation : OperationCode) (params : List ℕ) (tx_id : ℕ)
    (state : S)
    → Settles (λ _ _. Unit {0}) Anywhere (send_command t operation params tx_id state)
unfolding send_command
send_command-Settles t operation params tx_id state = Settles-await (t.send_bulk _) state

send_command-Finite :
    {S : Type 0} (t : Transport S) (f : Finite t) (operation : OperationCode) (params : List ℕ)
    (tx_id : ℕ) (state : S)
    → Settles
        (λ _ s'. f.remaining s' ≤ f.remaining state)
        Anywhere
        (send_command t operation params tx_id state)
unfolding send_command
send_command-Finite {S} t f operation params tx_id state = settled (t.send_bulk bytes state) refl
  where
    bytes : Bytes
    bytes = command_bytes (record { code = operation; transaction_id = tx_id; params = params })

    settled :
        (x : Await (Unit {0}) × S)
        → t.send_bulk bytes state ≡ x
        → Settles (λ _ s'. f.remaining s' ≤ f.remaining state) Anywhere (settle x)
    settled (resumed _, s') e =
        completes (subst (λ y. f.remaining (y.1) ≤ f.remaining state) e (f.send-le bytes state))
    settled (refused _, s') e = fails tt
    settled (abandoned, s') e = drops tt

send_all-Settles :
    {S : Type 0} (t : Transport S) (xs : List Bytes) (state : S)
    → Settles (λ _ _. Unit {0}) Anywhere (send_all t xs state)
unfolding send_all
send_all-Settles t [] state = completes tt
send_all-Settles t (x ∷ xs) state =
    Settles-after (Settles-await (t.send_bulk x) state) λ _ s1 _. send_all-Settles t xs s1

-- `execute` always ends, without a panic, and a reply that it returns is the reply to its own ID.
-- Unless it was dropped while it drained the pipe, the pipe is clean or flagged for a drain when
-- it ends: returned with the flag down, failed or dropped with the flag up for its ID, or failed
-- in the drain that it owed with that flag up again.
pub execute-Ends :
    {S : Type 0} (t : Transport S) (operation : OperationCode) (params : List ℕ) (s : Session S)
    → Ends (λ r. r.transaction_id ≡ s.transaction_id) s (execute t operation params s)
unfolding execute
execute-Ends t operation params s = transact-Ends t _ s λ state _.
    Settles-after (send_command-Settles t operation params _ state)
      λ _ s1 _. receive_response-Settles t s.transaction_id operation s1

-- `execute_with_send` ends in the same ways as `execute`, whichever way it sends the data: always,
-- without a panic, with the reply to its own ID when it returns, and with the pipe clean or
-- flagged unless it was dropped while it drained it.
pub execute_with_send-Ends :
    {S : Type 0} (t : Transport S) (operation : OperationCode) (params : List ℕ) (payload : Bytes)
    (s : Session S)
    → Ends
        (λ r. r.transaction_id ≡ s.transaction_id)
        s
        (execute_with_send t operation params payload s)
unfolding execute_with_send
execute_with_send-Ends t operation params payload s = transact-Ends t _ s λ state _.
    Settles-after (send_command-Settles t operation params _ state) λ _ s1 _.
      Settles-after (send_all-Settles t _ s1)
        λ _ s2 _. receive_response-Settles t s.transaction_id operation s2

-- For a device that sends finitely many transfers, and fuel for more than it still sends,
-- `execute_with_receive` ends in the same ways as `execute`: it is never still running, it does
-- not panic, a response that it returns is the one to its own ID, and unless it was dropped while
-- it drained the pipe, the pipe is clean or flagged.
pub execute_with_receive-Ends :
    {S : Type 0} (t : Transport S) (f : Finite t) (fuel : ℕ) (operation : OperationCode)
    (params : List ℕ) (s : Session S)
    → f.remaining s.transport < fuel
    → Ends
        (λ r. r.0.transaction_id ≡ s.transaction_id)
        s
        (execute_with_receive fuel t operation params s)
unfolding execute_with_receive
execute_with_receive-Ends t f fuel operation params s enough = transact-Ends t _ s λ state from.
    Settles-after (send_command-Finite t f operation params s.transaction_id state) λ _ s1 le.
      let start = starts state from in
      receive_data-Settles t f fuel s.transaction_id operation [] 0 s1 (omega arith)
  where
    starts :
        (state : _)
        → (state ≡ s.transport) ⊎ (state ≡ (t.cancel_transfer s.poisoned_tx_id s.transport).1)
        → f.remaining state ≤ f.remaining s.transport
    starts state (inl e) = rw e (omega arith)
    starts state (inr e) = rw e (f.cancel-le s.poisoned_tx_id s.transport)
