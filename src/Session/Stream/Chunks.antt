-- ===== src/Session/Stream/Chunks.antt =====
-- What one pass of the loop of `next_chunk` does, by the state of the stream.
use mtp_rs.Prelude.{
  ℕ, ◌≤◌, ◌<◌, ◌≡◌, ◌∙◌, ap, Bool, true, false, not, ◌&&◌, some, ◌∷◌, ◌++◌, length, take, ltb, leb,
  if◌then◌else◌, arith,
}
use mtp_rs.Error.{Result, ok}
use mtp_rs.Pack.Slice.{Bytes}
use mtp_rs.Session.Io.{resumed, Transport, done, Io}
use mtp_rs.Session.Stream.{ReceiveStream, Open, Header, consume_container_header, receive_chunk}
use mtp_rs.Session.Stream.Loop.{
  Chunk, at_header, on_header, at_payload, end_at_short_packet, capped, split_off, end_container,
  read_more, on_bulk, on_read, is_zero,
}

pub if_true {ℓ} : {A : Type ℓ} {b : Bool} (x y : A) → b ≡ true → (if b then x else y) ≡ x
if_true x y e = rw e

pub if_false {ℓ} : {A : Type ℓ} {b : Bool} (x y : A) → b ≡ false → (if b then x else y) ≡ y
if_false x y e = rw e

module _ {S : Type 0} (o : Open S) where
  pub at_header_take :
      (more : Io (Open S) Chunk) {r : Result Header × ReceiveStream}
      → o.stream.in_payload ≡ false
      → 12 ≤ length o.stream.buffer
      → consume_container_header o.stream ≡ r
      → at_header more o ≡ on_header more o r
  unfolding at_header
  at_header_take more out enough e =
      let here : (not o.stream.in_payload && leb 12 (length o.stream.buffer)) ≡ true =
        ground arith in
      if_true _ _ here ∙ ap (on_header more o) e

  pub at_header_inside :
      (more : Io (Open S) Chunk) → o.stream.in_payload ≡ true → at_header more o ≡ more o
  unfolding at_header
  at_header_inside more inside =
      let here : (not o.stream.in_payload && leb 12 (length o.stream.buffer)) ≡ false =
        ground arith in
      if_false _ _ here

  pub at_header_short :
      (more : Io (Open S) Chunk) → length o.stream.buffer < 12 → at_header more o ≡ more o
  unfolding at_header
  at_header_short more short =
      let here : (not o.stream.in_payload && leb 12 (length o.stream.buffer)) ≡ false =
        ground arith in
      if_false _ _ here

  end_at_short_packet-small :
      o.stream.large_object ≡ false → end_at_short_packet o.stream ≡ o.stream
  unfolding end_at_short_packet
  end_at_short_packet-small small =
      let here : (o.stream.in_payload
            && (o.stream.large_object && (o.stream.short_read && ltb 0 o.stream.payload_yielded)))
          ≡ false =
        ground arith in
      if_false _ _ here

  pub at_payload_outside :
      (again more : Io (Open S) Chunk)
      → o.stream.in_payload ≡ false
      → at_payload again more o ≡ more o
  unfolding at_payload end_at_short_packet
  at_payload_outside again more out =
      let none_here : (o.stream.in_payload
            && (o.stream.large_object && (o.stream.short_read && ltb 0 o.stream.payload_yielded)))
          ≡ false =
        ground arith in
      let kept : end_at_short_packet o.stream ≡ o.stream = if_false _ _ none_here in
      let here : not o.stream.in_payload ≡ true = ground arith in rw (kept) (if_true _ _ here)

  -- In a payload that is not over 4 GiB.
  module _ (again more : Io (Open S) Chunk) (inside : o.stream.in_payload ≡ true)
      (small : o.stream.large_object ≡ false) where
    pub at_payload_chunk :
        ltb 0 (capped o.stream.payload_remaining (length o.stream.buffer)) ≡ true
        → at_payload again more o ≡ (
          done (
              some (
                ok (
                  take
                    (capped o.stream.payload_remaining (length o.stream.buffer))
                    o.stream.buffer))),
          record o {
            stream =
                split_off (capped o.stream.payload_remaining (length o.stream.buffer)) o.stream;
          },
        )
    unfolding at_payload
    at_payload_chunk some_here =
        let out : not o.stream.in_payload ≡ false = ground arith in
        rw (end_at_short_packet-small small) (if_false _ _ out ∙ if_true _ _ some_here)

    pub at_payload_over :
        ltb 0 (capped o.stream.payload_remaining (length o.stream.buffer)) ≡ false
        → is_zero o.stream.payload_remaining ≡ true
        → at_payload again more o ≡ again (record o { stream = end_container o.stream })
    unfolding at_payload
    at_payload_over none_here zero_left =
        let out : not o.stream.in_payload ≡ false = ground arith in
        rw (end_at_short_packet-small small)
          (if_false _ _ out ∙ (if_false _ _ none_here ∙ if_true _ _ zero_left))

    pub at_payload_wait :
        ltb 0 (capped o.stream.payload_remaining (length o.stream.buffer)) ≡ false
        → is_zero o.stream.payload_remaining ≡ false
        → at_payload again more o ≡ more o
    unfolding at_payload
    at_payload_wait none_here some_left =
        let out : not o.stream.in_payload ≡ false = ground arith in
        rw (end_at_short_packet-small small)
          (if_false _ _ out ∙ (if_false _ _ none_here ∙ if_false _ _ some_left))

  pub read_more_sent :
      (t : Transport S) (again : Io (Open S) Chunk) (b : ℕ) (bs : Bytes) (s' : S)
      → t.receive_bulk receive_chunk o.session.transport ≡ (resumed (b ∷ bs), s')
      → read_more t again o
        ≡ again (record {
          stream = record (o.stream) {
            expect_zero_length_packet = false;
            short_read = ltb (length (b ∷ bs)) receive_chunk;
            buffer = o.stream.buffer ++ (b ∷ bs);
          };
          session = record (o.session) { transport = s' };
        })
  unfolding read_more on_bulk on_read
  read_more_sent t again b bs s' e = rw e
