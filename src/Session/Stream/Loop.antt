-- ===== src/Session/Stream/Loop.antt =====
-- `next_chunk`, `collect`, `cancel` and `drop` of `ReceiveStream` in
-- crates/mtp-rs/src/ptp/session/streaming.rs.
use mtp_rs.Prelude.{
  ℕ, zero, suc, ◌+◌, ◌-◌, Bool, true, false, not, ◌&&◌, [], ◌∷◌, ◌++◌, Option, none, some, length,
  take, drop, ltb, leb, ◌==◌, if◌then◌else◌,
}
use mtp_rs.Error.{
  PtpError, Result, ok, err, panic, protocol, device_reset, invalid_data, empty_response,
}
use mtp_rs.Pack.Slice.{Bytes}
use mtp_rs.Container.{header_size}
use mtp_rs.Session.{Session, flag}
use mtp_rs.Session.Io.{
  Await, resumed, refused, abandoned, Transport, Exit, done, failed, panicked, dropped, running, Io,
  run_on,
}
use mtp_rs.Session.Stream.{
  ReceiveStream, Open, Header, payload_follows, closed, skipped_stale_reply,
  consume_container_header, finish, receive_chunk,
}

-- What `next_chunk` comes to: `Option<Result<Bytes, Error>>`.
abbrev pub Chunk : Type 0
Chunk = Option (Result Bytes)

abbrev pub is_protocol : PtpError → Bool
is_protocol (protocol code operation) = true
is_protocol _ = false

abbrev pub is_device_reset : PtpError → Bool
is_device_reset device_reset = true
is_device_reset _ = false

-- What becomes of the header at the front: the loop goes on with `more`, or it is over.
unfoldable pub on_header :
    {S : Type 0} → Io (Open S) Chunk → Open S → Result Header × ReceiveStream → Exit Chunk × Open S
on_header more o (ok payload_follows, s) = more (record o { stream = s })
on_header more o (ok skipped_stale_reply, s) = more (record o { stream = s })
on_header more o (ok closed, s) = (done none, finish false (record o { stream = s }))
on_header more o (err e, s) =
    (done (some (err e)), finish (not (is_protocol e)) (record o { stream = s }))
on_header more o (panic, s) = (panicked, record o { stream = s })

-- Between containers: consume the next header once enough of it is here.
unfoldable pub at_header : {S : Type 0} → Io (Open S) Chunk → Io (Open S) Chunk
at_header more o =
    if not o.stream.in_payload && leb header_size (length o.stream.buffer)
    then on_header more o (consume_container_header o.stream)
    else more o

abbrev pub capped : Option ℕ → ℕ → ℕ
capped none n = n
capped (some left) n = if ltb left n then left else n

-- A container over 4 GiB ends with the short packet: what is buffered is the last of it.
unfoldable pub end_at_short_packet : ReceiveStream → ReceiveStream
end_at_short_packet s =
    if s.in_payload && (s.large_object && (s.short_read && ltb 0 s.payload_yielded))
    then record s { payload_remaining = some (capped s.payload_remaining (length s.buffer)) }
    else s

-- `end_container`
unfoldable pub end_container : ReceiveStream → ReceiveStream
end_container s = record s {
  expect_zero_length_packet = true;
  in_payload = false;
  payload_remaining = none;
  payload_yielded = 0;
  large_object = false;
}

abbrev pub less : Option ℕ → ℕ → Option ℕ
less none n = none
less (some left) n = some (left - n)

abbrev pub is_zero : Option ℕ → Bool
is_zero none = false
is_zero (some n) = n == 0

-- The stream behind a chunk of `count` bytes.
unfoldable pub split_off : ℕ → ReceiveStream → ReceiveStream
split_off count s =
    let s1 = record s {
      buffer = drop count s.buffer;
      payload_yielded = s.payload_yielded + count;
      payload_remaining = less s.payload_remaining count;
    } in
    if is_zero s1.payload_remaining then end_container s1 else s1

-- In a payload: hand over what is here, or end the container and go round again.
unfoldable pub at_payload : {S : Type 0} → (again more : Io (Open S) Chunk) → Io (Open S) Chunk
at_payload again more o =
    let s = end_at_short_packet o.stream in
    let count = capped s.payload_remaining (length s.buffer) in
    if not s.in_payload
    then more (record o { stream = s })
    else if ltb 0 count
    then (done (some (ok (take count s.buffer))), record o { stream = split_off count s })
    else if is_zero s.payload_remaining
    then again (record o { stream = end_container s })
    else more (record o { stream = s })

-- A bulk read that came back.
unfoldable pub on_read : {S : Type 0} → (again : Io (Open S) Chunk) → Bytes → Io (Open S) Chunk
on_read again [] o =
    if o.stream.in_payload && o.stream.large_object
    then again (record o { stream = record (o.stream) { short_read = true } })
    else if o.stream.expect_zero_length_packet
    then again (record o { stream = record (o.stream) { expect_zero_length_packet = false } })
    else (done (some (err (invalid_data empty_response))), o)
on_read again (b ∷ bs) o = again (record o {
  stream = record (o.stream) {
    expect_zero_length_packet = false;
    short_read = ltb (length (b ∷ bs)) receive_chunk;
    buffer = o.stream.buffer ++ (b ∷ bs);
  };
})

unfoldable pub on_bulk :
    {S : Type 0} → (again : Io (Open S) Chunk) → Open S → Await Bytes × S → Exit Chunk × Open S
on_bulk again o (resumed bytes, t) =
    on_read again bytes (record o { session = record (o.session) { transport = t } })
on_bulk again o (refused e, t) = (
  done (some (err e)),
  finish (not (is_device_reset e)) (record o { session = record (o.session) { transport = t } }),
)
on_bulk again o (abandoned, t) =
    (dropped, record o { session = record (o.session) { transport = t } })

-- "Need more data from USB."
unfoldable pub read_more :
    {S : Type 0} → Transport S → (again : Io (Open S) Chunk) → Io (Open S) Chunk
read_more t again o =
    on_bulk again (record o { stream = record (o.stream) { short_read = false } })
      (t.receive_bulk receive_chunk o.session.transport)

-- The loop of `next_chunk`
unfoldable pub chunk_loop : {S : Type 0} → (fuel : ℕ) → Transport S → Io (Open S) Chunk
chunk_loop zero t = run_on
chunk_loop (suc fuel) t =
    let again = chunk_loop fuel t in at_header (at_payload again (read_more t again))

-- `next_chunk`
unfoldable pub next_chunk : {S : Type 0} → (fuel : ℕ) → Transport S → Io (Open S) Chunk
next_chunk fuel t o = if o.stream.is_done then (done none, o) else chunk_loop fuel t o

-- `ReceiveStream::drop`
unfoldable pub drop_stream : {S : Type 0} → Open S → Session S
drop_stream o = if o.stream.is_done then o.session else flag o.stream.transaction_id o.session

-- One round of `collect`: the chunk is kept, or the stream is dropped on the way out.
unfoldable pub on_chunk :
    {S : Type 0}
    → (Bytes → Open S → Exit Bytes × Session S)
    → Bytes
    → Exit Chunk × Open S
    → Exit Bytes × Session S
on_chunk again collected (done none, o) = (done collected, drop_stream o)
on_chunk again collected (done (some (ok chunk)), o) = again (collected ++ chunk) o
on_chunk again collected (done (some (err e)), o) = (failed e, drop_stream o)
on_chunk again collected (done (some panic), o) = (panicked, drop_stream o)
on_chunk again collected (failed e, o) = (failed e, drop_stream o)
on_chunk again collected (panicked, o) = (panicked, drop_stream o)
on_chunk again collected (dropped, o) = (dropped, drop_stream o)
on_chunk again collected (running, o) = (running, o.session)

-- `collect`: at most `rounds` chunks, each within `fuel` passes of its loop.
unfoldable pub collect :
    {S : Type 0} → (rounds fuel : ℕ) → Transport S → Bytes → Open S → Exit Bytes × Session S
collect zero fuel t collected o = (running, o.session)
collect (suc rounds) fuel t collected o =
    on_chunk (collect rounds fuel t) collected (next_chunk fuel t o)

-- `cancel`
unfoldable pub end_cancel : {S : Type 0} → Open S → Await (Unit {0}) × S → Exit (Unit {0}) × Open S
end_cancel o (resumed _, t) =
    (done tt, finish false (record o { session = record (o.session) { transport = t } }))
end_cancel o (refused e, t) = (
  failed e,
  finish (not (is_device_reset e)) (record o { session = record (o.session) { transport = t } }),
)
end_cancel o (abandoned, t) = (dropped, record o { session = record (o.session) { transport = t } })

unfoldable pub cancel : {S : Type 0} → Transport S → Open S → Exit (Unit {0}) × Open S
cancel t o =
    if o.stream.is_done
    then (done tt, o)
    else end_cancel o (t.cancel_transfer o.stream.transaction_id o.session.transport)
