-- ===== src/Session/Stream/Collect.antt =====
-- `next_chunk` from the header of the data container on, and `collect`.
use mtp_rs.Prelude.{
  ℕ, zero, suc, ◌+◌, ◌^◌, ◌<◌, ◌≤◌, ◌≡◌, refl, ◌∙◌, ap, sym, false, List, [], ◌++◌, Option, some,
  length, drop, ltb, Bool-cases, ltb→lt, inl, inr, length-append, append_assoc, append-nil,
  drop-append, append-nil, arith,
}
use mtp_rs.Pack.Slice.{Bytes}
use mtp_rs.Codes.Operation
use mtp_rs.Codes.Operation.{OperationCode}
use mtp_rs.Session.Stream.{fresh}
use mtp_rs.Container.{header_bytes, data_bytes, build_response, DataContainer}
use mtp_rs.Session.{Session}
use mtp_rs.Session.Io.{Transport, Exit, done}
use mtp_rs.Session.Stream.{Open}
use mtp_rs.Session.Stream.Loop.{
  Chunk, at_header, on_header, at_payload, read_more, chunk_loop, next_chunk, on_chunk, collect,
  drop_stream,
}
use mtp_rs.Session.Stream.Wire.{prefix-split}
use mtp_rs.Session.Stream.Front.{consume_data}
use mtp_rs.Session.Stream.Chunks.{
  if_true, if_false, at_header_take, at_header_short, at_payload_outside,
}
use mtp_rs.Session.Stream.Phases.{
  Sends, all_of, closing, Ready, Phase, before, inside, behind, Yields, chunk, over,
}
use mtp_rs.Session.Stream.Closing.{length-closing, read_more_lem, chunk_loop-behind}
use mtp_rs.Session.Stream.Payload.{at_payload-inside, chunk_loop-inside}

module _ {S : Type 0} (t : Transport S) (c : DataContainer) (s0 : Session S) (last : S)
    (fits : c.transaction_id < 2 ^ 32) (small : 12 + length c.payload < 0xFFFFFFFF) where
  at_header-data :
      (fuel : ℕ) (o : Open S) (reads : List Bytes) (left : ℕ)
      → Ready t c s0 last o (data_bytes c ++ closing c) reads
      → o.stream.in_payload ≡ false
      → 12 ≤ length o.stream.buffer
      → length reads < fuel
      → length reads ≤ left
      → Yields t c s0 last c.payload left
          (at_header (at_payload (chunk_loop fuel t) (read_more t (chunk_loop fuel t))) o)
  unfolding on_header data_bytes header_bytes mtp_rs.Pack.Word.le_bytes
  at_header-data fuel o reads left r out here enough fewer =
      let header =
        header_bytes (12 + length c.payload) 2 (Operation.to_code c.code) c.transaction_id in
      let (d, e1, e2) =
        prefix-split o.stream.buffer (all_of reads) header (c.payload ++ closing c)
          (r.sum ∙ append_assoc header c.payload (closing c)) here in
      let seen =
        at_header_take o (at_payload (chunk_loop fuel t) (read_more t (chunk_loop fuel t))) out here
          (consume_data o.stream d _ _ _ e1 (omega arith) small) in
      let behind_header : drop 12 o.stream.buffer ≡ d = ap (drop 12) e1 ∙ drop-append header d in
      rw seen (
        at_payload-inside t c s0 last fuel _ c.payload reads left fits
          (record {
            alive = r.alive;
            own = r.own;
            same = r.same;
            comes = r.comes;
            sum = ap (λ (x : Bytes). x ++ all_of reads) behind_header ∙ e2;
          })
          refl refl (ap some (omega arith)) enough fewer)

  chunk_loop-before :
      (fuel : ℕ) (o : Open S) (reads : List Bytes) (left : ℕ)
      → Ready t c s0 last o (data_bytes c ++ closing c) reads
      → o.stream.in_payload ≡ false
      → length reads + 1 < fuel
      → length reads ≤ left
      → Yields t c s0 last c.payload left (chunk_loop fuel t o)
  unfolding chunk_loop
  chunk_loop-before zero o reads left r out enough fewer = absurd (omega arith)
  chunk_loop-before (suc fuel) o reads left r out enough fewer =
      elim (Bool-cases (ltb (length o.stream.buffer) 12)) [
        | inl short ↦
            let again = chunk_loop fuel t in
            let skip =
              at_header_short o (at_payload again (read_more t again)) (ground arith)
              ∙ at_payload_outside o again (read_more t again) out in
            rw skip (
              read_more_lem t c s0 last (Yields t c s0 last c.payload left) again o
                (data_bytes c ++ closing c) reads r.comes r
                (omega (
                  arith,
                  length-append (data_bytes c) (closing c),
                  length-closing t c s0 last,
                  ltb→lt _ _ short,
                ))
                λ o' reads' r' keeps fewer'.
                  chunk_loop-before fuel o' reads' left r' (keeps.in_payload ∙ out) (omega arith)
                    (omega arith))
        | inr here ↦ at_header-data fuel o reads left r out (ground arith) (omega arith) fewer
      ]

  next_chunk-Yields :
      (fuel : ℕ) (o : Open S) (rest : Bytes) (reads : List Bytes) (left : ℕ)
      → Phase t c s0 last o rest reads
      → length reads + 1 < fuel
      → length reads ≤ left
      → Yields t c s0 last rest left (next_chunk fuel t o)
  unfolding next_chunk
  next_chunk-Yields fuel o rest reads left (before r out all) enough fewer =
      rw (if_false _ _ r.alive, all) (chunk_loop-before fuel o reads left r out enough fewer)
  next_chunk-Yields zero o rest reads left (inside r inn ordinary remaining) enough fewer =
      absurd (omega arith)
  next_chunk-Yields (suc fuel) o rest reads left (inside r inn ordinary remaining) enough fewer =
      rw (if_false _ _ r.alive, chunk_loop-inside t c s0 last fuel o inn)
        (at_payload-inside t c s0 last fuel o rest reads left fits r inn ordinary remaining
          (omega arith) fewer)
  next_chunk-Yields fuel o rest reads left (behind r out nothing) enough fewer =
      rw (if_false _ _ r.alive, nothing)
        (chunk_loop-behind t c s0 last fuel o reads left fits r out (omega arith))

  on_chunk-Yields :
      (rounds fuel : ℕ) (collected rest : Bytes) (left : ℕ) (x : Exit Chunk × Open S)
      → ((more tail : Bytes) (reads : List Bytes) (o : Open S)
          → Phase t c s0 last o tail reads
          → length tail < length rest
          → length reads ≤ left
          → collect rounds fuel t more o ≡ (done (more ++ tail), record s0 { transport = last }))
      → Yields t c s0 last rest left x
      → on_chunk (collect rounds fuel t) collected x
        ≡ (done (collected ++ rest), record s0 { transport = last })
  unfolding on_chunk drop_stream
  on_chunk-Yields rounds fuel collected rest left x again
        (chunk {x = bs} {rest' = tail} {reads} {o} some_here split fewer phase) =
      again (collected ++ bs) tail reads o phase
        (omega (arith, ap length split, length-append bs tail)) fewer
      ∙ ap (λ (b : Bytes). (done b, record s0 { transport = last }))
          (append_assoc collected bs tail ∙ ap (λ (b : Bytes). collected ++ b) (sym split))
  on_chunk-Yields rounds fuel collected rest left x again (over {o} nothing ended same) =
      rw (if_true _ _ ended, same, nothing, append-nil) refl

  collect-Phase :
      (rounds fuel : ℕ) (collected : Bytes) (o : Open S) (rest : Bytes) (reads : List Bytes)
      → Phase t c s0 last o rest reads
      → length rest < rounds
      → length reads + 1 < fuel
      → collect rounds fuel t collected o
        ≡ (done (collected ++ rest), record s0 { transport = last })
  unfolding collect
  collect-Phase zero fuel collected o rest reads phase many enough = absurd (omega arith)
  collect-Phase (suc rounds) fuel collected o rest reads phase many enough =
      on_chunk-Yields rounds fuel collected rest (length reads) _
        (λ more tail reads' o' phase' shorter fewer.
          collect-Phase rounds fuel more o' tail reads' phase' (omega arith) (omega arith))
        (next_chunk-Yields fuel o rest reads (length reads) phase enough (omega arith))

-- For every transport whose bulk reads are not empty and bring together the data container `c` of a
-- 32-bit transaction and the response `Ok` of its transaction, cut at any place, and which is below
-- the length that stands for an object over 4 GiB: `collect` on the stream that
-- `start_receive_stream` opens for that transaction returns the payload of `c`, as soon as it may
-- take more rounds than the payload has bytes and each of its loops two passes more than there are
-- reads. The session is left as it was, with all these reads behind it, so it owes no recovery that
-- it did not owe before.
pub collect-data_bytes :
    {S : Type 0} (t : Transport S) (c : DataContainer) (operation : OperationCode)
    (expected : Option ℕ) (s : Session S) (reads : List Bytes) (last : S) (rounds fuel : ℕ)
    → c.transaction_id < 2 ^ 32
    → 12 + length c.payload < 0xFFFFFFFF
    → Sends t last s.transport reads
    → all_of reads ≡ data_bytes c ++ build_response 0x2001 c.transaction_id []
    → length c.payload < rounds
    → length reads + 1 < fuel
    → collect rounds fuel t []
        (record { stream = fresh c.transaction_id operation expected; session = s })
      ≡ (done c.payload, record s { transport = last })
unfolding fresh
collect-data_bytes t c operation expected s reads last rounds fuel fits small comes sum many
      enough =
    collect-Phase t c s last fits small rounds fuel [] _ c.payload reads
      (before (record { alive = refl; own = refl; same = refl; comes = comes; sum = sum }) refl
        refl)
      many enough
