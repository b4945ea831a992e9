-- ===== src/Session/Stream/Guarded.antt =====
-- A stream that goes away before its transaction is over leaves the session flagged.
use mtp_rs.Prelude.{
  ℕ, zero, suc, ◌+◌, ◌≡◌, refl, Bool, true, false, not, ◌&&◌, ◌||◌, [], ◌∷◌, none, some, length,
  take, leb, ltb, if◌then◌else◌, ◌⊎◌, inl, inr, Bool-cases, arith,
}
use mtp_rs.Error.{Result, ok, err, panic, invalid_data, empty_response}
use mtp_rs.Pack.Slice.{Bytes}
use mtp_rs.Container.{
  container_type, parse_response, ContainerType, command, data_container, response, event,
  ResponseContainer,
}
use mtp_rs.Session.{Session, flag}
use mtp_rs.Session.Receive.{by_kind}
use mtp_rs.Session.Io.{Await, resumed, refused, abandoned, Transport, Exit, done, Io}
use mtp_rs.Session.Stream.{
  ReceiveStream, Open, Header, payload_follows, closed, skipped_stale_reply, checked, front_length,
  consume_container_header, read_data_header, read_reply, skip_reply, finish, receive_chunk,
}
use mtp_rs.Session.Stream.Chunks.{if_true, if_false}
use mtp_rs.Session.Stream.Loop.{
  Chunk, is_protocol, is_device_reset, on_header, at_header, at_payload, end_at_short_packet,
  end_container, split_off, capped, is_zero, on_read, on_bulk, read_more, chunk_loop, next_chunk,
  drop_stream,
}

-- The transaction is over, as far as the caller can tell: the response closed it, or an error that
-- comes with the response or with the device's own reset.
abbrev pub is_over : Exit Chunk → Bool
is_over (done none) = true
is_over (done (some (err e))) = is_protocol e || is_device_reset e
is_over _ = false

-- The session that the stream leaves behind when it is dropped owes a recovery of `tx`.
abbrev pub Owes : {S : Type 0} → ℕ → Session S → Type 0
Owes tx s = (s.needed ≡ true) × (s.poisoned_tx_id ≡ tx)

pub record Guarded {S : Type 0} (tx : ℕ) (r : Exit Chunk × Open S) : Type 0 where
  pub over_or_owed : (is_over (r.0) ≡ true) ⊎ Owes tx (drop_stream (r.1))

record Live (tx : ℕ) (s : ReceiveStream) : Type 0 where
  open_yet : s.is_done ≡ false
  own : s.transaction_id ≡ tx

owed : {S : Type 0} (tx : ℕ) (o : Open S) → Live tx o.stream → Owes tx (drop_stream o)
unfolding drop_stream flag
owed tx o l = rw (l.open_yet) (refl, l.own)

read_data_header-Live :
    (tx : ℕ) (s : ReceiveStream) (n : ℕ) → Live tx s → Live tx (read_data_header s n).1
unfolding read_data_header
read_data_header-Live tx s n l = ground arith

by_kind-Live :
    (tx : ℕ) (kind : ContainerType) (a b c : Result Header × ReceiveStream)
    → Live tx (a.1)
    → Live tx (b.1)
    → Live tx (c.1)
    → Live tx ((by_kind kind a b c).1)
by_kind-Live tx command a b c p q r = r
by_kind-Live tx data_container a b c p q r = p
by_kind-Live tx response a b c p q r = q
by_kind-Live tx event a b c p q r = r

checked-Live {ℓ} :
    {A : Type ℓ} (tx : ℕ) (m : Result A) (s : ReceiveStream) (k : A → Result Header × ReceiveStream)
    → Live tx s
    → ((a : A) → Live tx ((k a).1))
    → Live tx ((checked m s k).1)
checked-Live tx (ok a) s k l f = f a
checked-Live tx (err e) s k l f = l
checked-Live tx panic s k l f = l

skip_reply-Live : (tx : ℕ) (s : ReceiveStream) → Live tx s → Live tx (skip_reply s).1
unfolding skip_reply
skip_reply-Live tx s l =
    let counted : Live tx (record s { stale_replies_skipped = s.stale_replies_skipped + 1 }) =
      record { open_yet = l.open_yet; own = l.own } in
    checked-Live tx (front_length s.buffer) _ _ counted
      λ n. record { open_yet = l.open_yet; own = l.own }

read_reply-Live :
    (tx : ℕ) (s : ReceiveStream) (r : ResponseContainer) → Live tx s → Live tx (read_reply s r).1
unfolding read_reply
read_reply-Live tx s r l = ground (arith, skip_reply-Live tx s l)

consume_container_header-Live :
    (tx : ℕ) (s : ReceiveStream) → Live tx s → Live tx (consume_container_header s).1
unfolding consume_container_header
consume_container_header-Live tx s l = checked-Live tx (container_type s.buffer) s _ l λ kind.
    by_kind-Live tx kind _ _ _
      (checked-Live tx (front_length s.buffer) s _ l λ n. read_data_header-Live tx s n l)
      (checked-Live tx (parse_response s.buffer) s _ l λ r. read_reply-Live tx s r l) l

end_container-Live : (tx : ℕ) (s : ReceiveStream) → Live tx s → Live tx (end_container s)
unfolding end_container
end_container-Live tx s l = record { open_yet = l.open_yet; own = l.own }

end_at_short_packet-Live :
    (tx : ℕ) (s : ReceiveStream) → Live tx s → Live tx (end_at_short_packet s)
unfolding end_at_short_packet
end_at_short_packet-Live tx s l = ground arith

split_off-Live : (tx n : ℕ) (s : ReceiveStream) → Live tx s → Live tx (split_off n s)
unfolding split_off end_container
split_off-Live tx n s l = ground arith

guard :
    {S : Type 0} {tx : ℕ} {r : Exit Chunk × Open S}
    → (is_over (r.0) ≡ true) ⊎ Owes tx (drop_stream (r.1))
    → Guarded tx r
guard h = record { over_or_owed = h }

module _ {S : Type 0} (tx : ℕ) where
  -- Every continuation guards the session on the streams of `tx`.
  Guards : Io (Open S) Chunk → Type 0
  Guards k = (o : Open S) → Live tx o.stream → Guarded tx (k o)

  finish_lost :
      (o : Open S) (b : Bool) (x : Exit Chunk)
      → Live tx o.stream
      → (b ≡ false → is_over x ≡ true)
      → Guarded tx (x, finish b o)
  unfolding finish drop_stream flag
  finish_lost o true x l e = guard (inr (refl, l.own))
  finish_lost o false x l e = guard (inl (e refl))

  on_header-Guarded :
      (more : Io (Open S) Chunk) (o : Open S) (r : Result Header × ReceiveStream)
      → Guards more
      → Live tx (r.1)
      → Guarded tx (on_header more o r)
  unfolding on_header Guards
  on_header-Guarded more o (ok payload_follows, s) g l = g _ l
  on_header-Guarded more o (ok skipped_stale_reply, s) g l = g _ l
  on_header-Guarded more o (ok closed, s) g l = guard (inl refl)
  on_header-Guarded more o (err e, s) g l =
      finish_lost (record o { stream = s }) (not (is_protocol e)) (done (some (err e))) l
        λ h. ground arith
  on_header-Guarded more o (panic, s) g l = guard (inr (owed tx _ l))

  at_header-Guards : (more : Io (Open S) Chunk) → Guards more → Guards (at_header more)
  unfolding at_header Guards
  at_header-Guards more g o l =
      elim (Bool-cases (not o.stream.in_payload && leb 12 (length o.stream.buffer))) [
        | inl here ↦
            rw (if_true _ _ here)
              (on_header-Guarded more o _ g (consume_container_header-Live tx o.stream l))
        | inr not_here ↦ rw (if_false _ _ not_here) (g o l)
      ]

  Guarded-if :
      (b : Bool) (x y : Exit Chunk × Open S)
      → Guarded tx x
      → Guarded tx y
      → Guarded tx (if b then x else y)
  Guarded-if true x y p q = p
  Guarded-if false x y p q = q

  at_payload-Guards :
      (again more : Io (Open S) Chunk) → Guards again → Guards more → Guards (at_payload again more)
  unfolding at_payload Guards
  at_payload-Guards again more ga gm o l =
      let s = end_at_short_packet o.stream in
      let l1 : Live tx s = end_at_short_packet-Live tx o.stream l in
      let count = capped s.payload_remaining (length s.buffer) in
      Guarded-if (not s.in_payload) _ _ (gm (record o { stream = s }) l1) (
        Guarded-if (ltb 0 count)
          (done (some (ok (take count s.buffer))), record o { stream = split_off count s }) _
          (guard (inr (owed tx _ (split_off-Live tx count s l1))))
          (Guarded-if (is_zero s.payload_remaining) _ _
            (ga (record o { stream = end_container s }) (end_container-Live tx s l1))
            (gm (record o { stream = s }) l1)))

  on_read-Guards :
      (again : Io (Open S) Chunk) (bytes : Bytes) → Guards again → Guards (on_read again bytes)
  unfolding on_read Guards
  on_read-Guards again [] g o l =
      let live : Live tx (record (o.stream) { short_read = true }) = record {
        open_yet = l.open_yet;
        own = l.own;
      } in
      let live' : Live tx (record (o.stream) { expect_zero_length_packet = false }) = record {
        open_yet = l.open_yet;
        own = l.own;
      } in
      Guarded-if (o.stream.in_payload && o.stream.large_object) _ _
        (g (record o { stream = record (o.stream) { short_read = true } }) live)
        (Guarded-if o.stream.expect_zero_length_packet _
          (done (some (err (invalid_data empty_response))), o)
          (g (record o { stream = record (o.stream) { expect_zero_length_packet = false } }) live')
          (guard (inr (owed tx o l))))
  on_read-Guards again (b ∷ bs) g o l = g _ (record { open_yet = l.open_yet; own = l.own })

  on_bulk-Guarded :
      (again : Io (Open S) Chunk) (o : Open S) (x : Await Bytes × S)
      → Guards again
      → Live tx o.stream
      → Guarded tx (on_bulk again o x)
  unfolding on_bulk Guards
  on_bulk-Guarded again o (resumed bytes, t) g l = on_read-Guards again bytes g _ l
  on_bulk-Guarded again o (refused e, t) g l =
      finish_lost _ (not (is_device_reset e)) (done (some (err e))) l λ h. ground arith
  on_bulk-Guarded again o (abandoned, t) g l = guard (inr (owed tx _ l))

  chunk_loop-Guards : (fuel : ℕ) (t : Transport S) → Guards (chunk_loop fuel t)
  unfolding chunk_loop Guards read_more
  chunk_loop-Guards zero t o l = guard (inr (owed tx o l))
  chunk_loop-Guards (suc fuel) t o l =
      at_header-Guards _
        (at_payload-Guards _ _ (chunk_loop-Guards fuel t) λ o1 l1.
          on_bulk-Guarded (chunk_loop fuel t) _ (t.receive_bulk receive_chunk o1.session.transport)
            (chunk_loop-Guards fuel t) (record { open_yet = l1.open_yet; own = l1.own }))
        o l

-- Whatever the transport answers, and wherever the caller stops: a call of `next_chunk` on a stream
-- that is not done ends with `None`, with the error of a response or with the error of a device
-- reset, or the session is flagged for the recovery of the stream's transaction once the stream is
-- dropped.
pub next_chunk-Guarded :
    {S : Type 0} (fuel : ℕ) (t : Transport S) (o : Open S)
    → o.stream.is_done ≡ false
    → Guarded o.stream.transaction_id (next_chunk fuel t o)
unfolding next_chunk Guards
next_chunk-Guarded fuel t o alive =
    rw (if_false _ _ alive)
      (chunk_loop-Guards o.stream.transaction_id fuel t o (record { open_yet = alive; own = refl }))
