-- ===== src/Session/Tests.antt =====
-- Concrete runs of the session code against a queue of replies, and its theorems there.
mod Streams
mod Operations
mod FullInfo
use mtp_rs.Prelude.{ℕ, ◌<◌, ◌≡◌, refl, ap, true, false, List, [], ◌∷◌, length, arith}
use mtp_rs.Codes.Operation.{OperationCode, get_device_info, send_object, close_session}
use mtp_rs.Codes.Response.{ResponseCode}
use mtp_rs.Container.{build_response, ResponseContainer}
use mtp_rs.Session.Execute.{
  execute, execute_with_send, execute_with_receive, transact, recover_if_needed, scoped,
  send_command, data_transfers,
}
use mtp_rs.Session.Receive.{receive_response, receive_loop}
use mtp_rs.Session.{next_transaction_id, is_stale_reply, may_skip_stale_reply, next}
use mtp_rs.Session.Io.{done, dropped}
use mtp_rs.Error.{timeout}
use mtp_rs.Pack.Slice.{Bytes}
use mtp_rs.Session.{Session, new}
use mtp_rs.Session.Io.{Await, resumed, refused, abandoned, Transport}
use mtp_rs.Session.Receive.Finite.{Finite}
use mtp_rs.Session.Receive.Bounded.{receive_response-Settles, IsReplyTo}
use mtp_rs.Session.Execute.Recovery.{
  Ends, execute-Ends, execute_with_send-Ends, execute_with_receive-Ends,
}
use mtp_rs.Session.Execute.Transfers.{flat-transfers}
use mtp_rs.Session.Open.{open_with_reuse}
use mtp_rs.Session.Open.Fresh.{open_with_reuse-IsFresh, IsFresh}
use mtp_rs.Session.Identifier.{IsId, iterate_next, iterate_next-fresh, is_stale_reply-iterate_next}
use mtp_rs.Session.Io.{Settles, Anywhere}
use mtp_rs.Container.{data_bytes}
use mtp_rs.Prelude.{flat, ◌≢◌}

-- The replies that the device still sends; reading past them times out.
abbrev receive : ℕ → List Bytes → Await Bytes × List Bytes
receive n [] = (refused timeout, [])
receive n (x ∷ xs) = (resumed x, xs)

abbrev queue : Transport (List Bytes)
queue = record {
  send_bulk = λ bytes s. (resumed tt, s);
  send_bulk_streaming = λ chunks s. (resumed tt, s);
  receive_bulk = receive;
  receive_interrupt = receive 24;
  set_drain_on_cancel = λ enabled s. s;
  cancel_transfer = λ tx_id s. (resumed tt, []);
  drain_bulk_in = λ s. (resumed (length s), []);
}

queue-Finite : Finite queue
queue-Finite = record {
  remaining = length;
  read-lt = read;
  send-le = λ bytes s. omega arith;
  cancel-le = λ tx_id s. omega arith;
}
  where
    read :
        (n : ℕ) (s s' : List Bytes) (bytes : Bytes)
        → receive n s ≡ (resumed bytes, s')
        → length s' < length s
    read n [] s' bytes e = absurd cc
    read n (x ∷ xs) s' bytes e =
        let same : length xs ≡ length s' = ap (λ p. length (p.1)) e in omega (arith, same)

-- A response to transaction 4, late, and one to transaction 5.
abbrev late : Bytes
late = build_response 0x2001 4 []

abbrev answer : Bytes
answer = build_response 0x2001 5 (7 ∷ [])

abbrev fifth : List Bytes → Session (List Bytes)
fifth replies = record (new replies 1) { transaction_id = 5 }

-- The same session, which owes a drain for transaction 4.
abbrev dirty : Session (List Bytes)
dirty = record (fifth (late ∷ answer ∷ [])) { needed = true; poisoned_tx_id = 4 }

-- The late reply is skipped, and the session goes on clean.
execute_test : execute queue get_device_info [] (fifth (late ∷ answer ∷ [])) ≡ (
  done (record { code = ResponseCode.ok; transaction_id = 5; params = 7 ∷ [] }),
  record (fifth []) { transaction_id = 6 },
)
unfolding execute transact recover_if_needed next_transaction_id scoped send_command
    receive_response receive_loop is_stale_reply may_skip_stale_reply next new
    mtp_rs.Container.parse_response mtp_rs.Container.parse_header build_response
    mtp_rs.Container.header_bytes mtp_rs.Pack.Word.le_bytes mtp_rs.Pack.Slice.slice
    mtp_rs.Pack.Word.unpack_word mtp_rs.Pack.Word.from_le mtp_rs.Pack.Array.unpack_elements
    mtp_rs.Codes.Operation.is_close_session mtp_rs.Pack.Slice.slice_from
    mtp_rs.Codes.Response.from_code
execute_test = refl

abbrev replies : List Bytes
replies = late ∷ answer ∷ []

execute-Ends_example :
    Ends
      (λ r. r.transaction_id ≡ 5)
      (fifth replies)
      (execute queue get_device_info [] (fifth replies))
execute-Ends_example = execute-Ends queue get_device_info [] (fifth replies)

execute_with_send-Ends_example :
    Ends
      (λ r. r.transaction_id ≡ 5)
      dirty
      (execute_with_send queue send_object [] (1 ∷ 2 ∷ []) dirty)
execute_with_send-Ends_example = execute_with_send-Ends queue send_object [] (1 ∷ 2 ∷ []) dirty

three_is_enough : queue-Finite.remaining ((fifth replies).transport) < 3
unfolding queue-Finite new
three_is_enough = omega arith

execute_with_receive-Ends_example :
    Ends
      (λ r. r.0.transaction_id ≡ 5)
      (fifth replies)
      (execute_with_receive 3 queue get_device_info [] (fifth replies))
execute_with_receive-Ends_example =
    execute_with_receive-Ends queue queue-Finite 3 get_device_info [] (fifth replies)
      three_is_enough

receive_response-Settles_example :
    Settles (IsReplyTo 5) Anywhere (receive_response queue 5 get_device_info replies)
receive_response-Settles_example = receive_response-Settles queue 5 get_device_info replies

flat-transfers_example :
    flat (λ x. x) (data_transfers true send_object 5 (1 ∷ 2 ∷ []))
    ≡ data_bytes (record { code = send_object; transaction_id = 5; payload = 1 ∷ 2 ∷ [] })
flat-transfers_example = flat-transfers true send_object 5 (1 ∷ 2 ∷ [])

-- Behind `SessionAlreadyOpen`, the device closes the session and opens one.
abbrev reopened : List Bytes
reopened = build_response 0x2001 1 [] ∷ build_response 0x2001 0 [] ∷ []

abbrev already_open : List Bytes
already_open = build_response 0x201E 0 [] ∷ reopened

open_with_reuse-IsFresh_example :
    Settles (IsFresh 1) Anywhere (open_with_reuse queue 1 false already_open)
open_with_reuse-IsFresh_example = open_with_reuse-IsFresh queue 1 false already_open

-- The last ID before the wrap-around.
iterate_next-fresh_example :
    IsId (iterate_next 1 0xFFFFFFFE)
    × (0 < 1 → 1 < 0xFFFFFFFE → iterate_next 1 0xFFFFFFFE ≢ 0xFFFFFFFE)
iterate_next-fresh_example = iterate_next-fresh 1 0xFFFFFFFE (omega arith, omega arith)

is_stale_reply-iterate_next_example :
    (is_stale_reply 0xFFFFFFFE (iterate_next 1 0xFFFFFFFE) ≡ true)
    × (is_stale_reply (iterate_next 1 0xFFFFFFFE) 0xFFFFFFFE ≡ false)
is_stale_reply-iterate_next_example =
    is_stale_reply-iterate_next 1 0xFFFFFFFE (omega arith, omega arith) (omega arith) (omega arith)
