-- ===== src/Session/Stream/Closing.antt =====
-- `next_chunk` behind the payload: the response that closes the download is read.
use mtp_rs.Prelude.{
  ℕ, zero, suc, ◌^◌, ◌<◌, ◌≤◌, ◌≡◌, refl, ◌∙◌, ap, sym, false, List, [], ◌∷◌, ◌++◌, length, ltb,
  Bool-cases, inl, inr, length-append, append_assoc, append-nil, arith,
}
use mtp_rs.Pack.Slice.{Bytes}
use mtp_rs.Container.{header_bytes, build_response, DataContainer}
use mtp_rs.Session.{Session}
use mtp_rs.Session.Io.{Transport, Exit, Io}
use mtp_rs.Session.Stream.{Open, finish}
use mtp_rs.Session.Stream.Loop.{Chunk, at_header, on_header, at_payload, read_more, chunk_loop}
use mtp_rs.Session.Stream.Wire.{prefix-split}
use mtp_rs.Session.Stream.Front.{consume_reply}
use mtp_rs.Session.Stream.Chunks.{
  at_header_take, at_header_short, at_payload_outside, read_more_sent,
}
use mtp_rs.Session.Stream.Phases.{Sends, quiet, sends, all_of, closing, Ready, Yields, over}

module _ {S : Type 0} (t : Transport S) (c : DataContainer) (s0 : Session S) (last : S) where
  pub record Keeps (o o' : Open S) : Type 0 where
    pub in_payload : o'.stream.in_payload ≡ o.stream.in_payload
    pub large_object : o'.stream.large_object ≡ o.stream.large_object
    pub payload_remaining : o'.stream.payload_remaining ≡ o.stream.payload_remaining

  pub length-closing : length (closing c) ≡ 12
  unfolding build_response header_bytes mtp_rs.Pack.Word.le_bytes
  length-closing = refl

  -- When less is buffered than is pending, the transport has a read left.
  pub read_more_lem :
      (P : Exit Chunk × Open S → Type 0) (again : Io (Open S) Chunk) (o : Open S) (pending : Bytes)
      (reads : List Bytes)
      → Sends t last o.session.transport reads
      → Ready t c s0 last o pending reads
      → length o.stream.buffer < length pending
      → ((o' : Open S) (reads' : List Bytes)
          → Ready t c s0 last o' pending reads'
          → Keeps o o'
          → length reads' < length reads
          → P (again o'))
      → P (read_more t again o)
  read_more_lem P again o pending [] (quiet e) r less k =
      absurd (omega (arith, ap length r.sum, length-append o.stream.buffer []))
  read_more_lem P again o pending ([] ∷ reads) x r less k = elim x [ ]
  read_more_lem P again o pending ((b ∷ bs) ∷ reads) (sends {s' = s'} e comes) r less k =
      rw (read_more_sent o t again b bs s' e) (
        k _ reads
          (record {
            alive = r.alive;
            own = r.own;
            same = ap (λ (x : Session S). record x { transport = s' }) r.same;
            comes = comes;
            sum = append_assoc o.stream.buffer (b ∷ bs) (all_of reads) ∙ r.sum;
          })
          (record { in_payload = refl; large_object = refl; payload_remaining = refl })
          (omega arith))

  Sends-nothing : (s : S) (reads : List Bytes) → Sends t last s reads → all_of reads ≡ [] → s ≡ last
  Sends-nothing s [] (quiet e) h = e
  Sends-nothing s ([] ∷ reads) x h = elim x [ ]
  Sends-nothing s ((b ∷ bs) ∷ reads) (sends e comes) h = absurd cc

  append-eq-nil : (xs ys : Bytes) → xs ++ ys ≡ [] → ys ≡ []
  append-eq-nil [] ys e = e
  append-eq-nil (x ∷ xs) ys e = absurd cc

  -- The response is here: the stream is over, with no recovery owed.
  at_header-closing :
      (more : Io (Open S) Chunk) (o : Open S) (reads : List Bytes) (left : ℕ)
      → c.transaction_id < 2 ^ 32
      → Ready t c s0 last o (closing c) reads
      → o.stream.in_payload ≡ false
      → 12 ≤ length o.stream.buffer
      → Yields t c s0 last [] left (at_header more o)
  unfolding on_header finish
  at_header-closing more o reads left fits r out enough =
      let (d, e1, e2) =
        prefix-split o.stream.buffer (all_of reads) (closing c) []
          (r.sum ∙ sym (append-nil (closing c))) (omega (arith, length-closing)) in
      let seen =
        at_header_take o more out enough
          (consume_reply o.stream d c.transaction_id r.own e1 fits) in
      let ended : o.session.transport ≡ last =
        Sends-nothing _ reads r.comes (append-eq-nil d (all_of reads) e2) in
      rw seen (over refl refl (r.same ∙ ap (λ (x : S). record s0 { transport = x }) ended))

  pub chunk_loop-behind :
      (fuel : ℕ) (o : Open S) (reads : List Bytes) (left : ℕ)
      → c.transaction_id < 2 ^ 32
      → Ready t c s0 last o (closing c) reads
      → o.stream.in_payload ≡ false
      → length reads < fuel
      → Yields t c s0 last [] left (chunk_loop fuel t o)
  unfolding chunk_loop
  chunk_loop-behind zero o reads left fits r out enough = absurd (omega arith)
  chunk_loop-behind (suc fuel) o reads left fits r out enough =
      elim (Bool-cases (ltb (length o.stream.buffer) 12)) [
        | inl short ↦
            let again = chunk_loop fuel t in
            let skip =
              at_header_short o (at_payload again (read_more t again)) (ground arith)
              ∙ at_payload_outside o again (read_more t again) out in
            rw skip (
              read_more_lem (Yields t c s0 last [] left) again o (closing c) reads r.comes r
                (ground (arith, length-closing))
                λ o' reads' r' keeps fewer.
                  chunk_loop-behind fuel o' reads' left fits r' (keeps.in_payload ∙ out)
                    (omega arith))
        | inr here ↦ at_header-closing _ o reads left fits r out (ground arith)
      ]
