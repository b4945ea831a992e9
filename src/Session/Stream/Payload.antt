-- ===== src/Session/Stream/Payload.antt =====
-- `next_chunk` in the payload.
use mtp_rs.Prelude.{
  ℕ, zero, suc, ◌+◌, ◌-◌, ◌^◌, ◌<◌, ◌≤◌, ◌≡◌, refl, ◌∙◌, ap, sym, subst, true, false, List, [], ◌∷◌,
  ◌++◌, some, length, take, drop, ltb, Bool-cases, inl, inr, length-append, append-nil, take-append,
  drop-append, append-nil, arith,
}
use mtp_rs.Pack.Slice.{Bytes}
use mtp_rs.Container.{DataContainer}
use mtp_rs.Session.{Session}
use mtp_rs.Session.Io.{Transport}
use mtp_rs.Session.Stream.{ReceiveStream, Open}
use mtp_rs.Session.Stream.Loop.{
  at_payload, read_more, chunk_loop, capped, less, split_off, end_container, is_zero,
}
use mtp_rs.Session.Stream.Wire.{prefix-split}
use mtp_rs.Session.Stream.Chunks.{
  if_true, if_false, at_header_inside, at_payload_chunk, at_payload_over, at_payload_wait,
}
use mtp_rs.Session.Stream.Phases.{all_of, closing, Ready, Phase, inside, behind, Yields, chunk}
use mtp_rs.Session.Stream.Closing.{read_more_lem, chunk_loop-behind}

take_all : (xs : Bytes) → take (length xs) xs ≡ xs
take_all xs = ap (take (length xs)) (sym (append-nil xs)) ∙ take-append xs []

drop_all : (xs : Bytes) → drop (length xs) xs ≡ []
drop_all xs = ap (drop (length xs)) (sym (append-nil xs)) ∙ drop-append xs []

-- What a chunk of `n` bytes takes off the payload.
record Cut (n : ℕ) (rest tail buffer later : Bytes) : Type 0 where
  left : Bytes
  taken : rest ≡ take n buffer ++ left
  kept : drop n buffer ++ later ≡ left ++ tail
  size : length left ≡ length rest - n
  long : length (take n buffer) ≡ n

cut_whole :
    (rest tail d later : Bytes) → d ++ later ≡ tail → Cut (length rest) rest tail (rest ++ d) later
cut_whole rest tail d later e = record {
  left = [];
  taken = rw (take-append rest d) (sym (append-nil rest));
  kept = rw (drop-append rest d) e;
  size = omega arith;
  long = rw (take-append rest d) refl;
}

cut_part :
    (d tail buffer later : Bytes)
    → d ++ tail ≡ later
    → Cut (length buffer) (buffer ++ d) tail buffer later
cut_part d tail buffer later e = record {
  left = d;
  taken = rw (take_all buffer) refl;
  kept = rw (drop_all buffer) (sym e);
  size = omega (arith, length-append buffer d);
  long = rw (take_all buffer) refl;
}

cut :
    (rest tail buffer later : Bytes)
    → buffer ++ later ≡ rest ++ tail
    → Cut (capped (some (length rest)) (length buffer)) rest tail buffer later
cut rest tail buffer later e = elim (Bool-cases (ltb (length rest) (length buffer))) [
  | inl more ↦
      let (d, e1, e2) = prefix-split buffer later rest tail e (ground arith) in
      rw (more, e1) (cut_whole rest tail d later e2)
  | inr less ↦
      let (d, e1, e2) = prefix-split rest tail buffer later (sym e) (ground arith) in
      rw (less, e1) (cut_part d tail buffer later e2)
]

nil-of_length : (xs : Bytes) → is_zero (some (length xs)) ≡ true → xs ≡ []
nil-of_length [] e = refl
nil-of_length (x ∷ xs) e = absurd (ground arith)

waiting :
    (rest tail : Bytes) (size : ℕ)
    → ltb 0 (capped (some (length rest)) size) ≡ false
    → is_zero (some (length rest)) ≡ false
    → size < length (rest ++ tail)
waiting rest tail size none_here some_left = ground (arith, length-append rest tail)

-- The stream behind a chunk, before the end of the container is looked at.
abbrev shortened : ℕ → ReceiveStream → ReceiveStream
shortened n s = record s {
  buffer = drop n s.buffer;
  payload_yielded = s.payload_yielded + n;
  payload_remaining = less s.payload_remaining n;
}

module _ (n : ℕ) (s : ReceiveStream) where
  split_off_last :
      is_zero (less s.payload_remaining n) ≡ true → split_off n s ≡ end_container (shortened n s)
  unfolding split_off
  split_off_last e = if_true _ _ e

  split_off_within : is_zero (less s.payload_remaining n) ≡ false → split_off n s ≡ shortened n s
  unfolding split_off
  split_off_within e = if_false _ _ e

module _ {S : Type 0} (t : Transport S) (c : DataContainer) (s0 : Session S) (last : S) where
  -- A chunk is handed over.
  split_off-Phase :
      (o : Open S) (rest left : Bytes) (reads : List Bytes) (n : ℕ)
      → Ready t c s0 last o (rest ++ closing c) reads
      → o.stream.in_payload ≡ true
      → o.stream.large_object ≡ false
      → o.stream.payload_remaining ≡ some (length rest)
      → drop n o.stream.buffer ++ all_of reads ≡ left ++ closing c
      → length left ≡ length rest - n
      → Phase t c s0 last (record o { stream = split_off n o.stream }) left reads
  unfolding end_container
  split_off-Phase o rest [] reads n r inn small remaining kept size =
      let ends : is_zero (less o.stream.payload_remaining n) ≡ true =
        ap (λ x. is_zero (less x n)) remaining ∙ ground arith in
      rw (split_off_last n o.stream ends) (
        behind (record { alive = r.alive; own = r.own; same = r.same; comes = r.comes; sum = kept })
          refl refl)
  split_off-Phase o rest (x ∷ left) reads n r inn small remaining kept size =
      let on : is_zero (less o.stream.payload_remaining n) ≡ false =
        ap (λ x. is_zero (less x n)) remaining ∙ ground arith in
      rw (split_off_within n o.stream on) (
        inside (record { alive = r.alive; own = r.own; same = r.same; comes = r.comes; sum = kept })
          inn small (ap (λ x. less x n) remaining ∙ ap some (sym size)))

  pub chunk_loop-inside :
      (fuel : ℕ) (o : Open S)
      → o.stream.in_payload ≡ true
      → chunk_loop (suc fuel) t o
        ≡ at_payload (chunk_loop fuel t) (read_more t (chunk_loop fuel t)) o
  unfolding chunk_loop
  chunk_loop-inside fuel o inn = at_header_inside o _ inn

  pub at_payload-inside :
      (fuel : ℕ) (o : Open S) (rest : Bytes) (reads : List Bytes) (left : ℕ)
      → c.transaction_id < 2 ^ 32
      → Ready t c s0 last o (rest ++ closing c) reads
      → o.stream.in_payload ≡ true
      → o.stream.large_object ≡ false
      → o.stream.payload_remaining ≡ some (length rest)
      → length reads < fuel
      → length reads ≤ left
      → Yields t c s0 last rest left
          (at_payload (chunk_loop fuel t) (read_more t (chunk_loop fuel t)) o)
  unfolding end_container
  at_payload-inside zero o rest reads left fits r inn small remaining enough fewer =
      absurd (omega arith)
  at_payload-inside (suc fuel) o rest reads left fits r inn small remaining enough fewer =
      let again = chunk_loop (suc fuel) t in
      let count : ℕ = capped o.stream.payload_remaining (length o.stream.buffer) in
      let known : count ≡ capped (some (length rest)) (length o.stream.buffer) =
        ap (λ x. capped x (length o.stream.buffer)) remaining in
      elim (Bool-cases (ltb 0 (capped o.stream.payload_remaining (length o.stream.buffer)))) [
        | inl some_here ↦
            let k : Cut count rest (closing c) o.stream.buffer (all_of reads) =
              subst (λ n. Cut n rest (closing c) o.stream.buffer (all_of reads)) (sym known)
                (cut rest (closing c) o.stream.buffer (all_of reads) r.sum) in
            rw (at_payload_chunk o again (read_more t again) inn small some_here) (
              chunk (ground (arith, k.long)) k.taken fewer
                (split_off-Phase o rest k.left reads _ r inn small remaining k.kept k.size))
        | inr none_here ↦ elim (Bool-cases (is_zero o.stream.payload_remaining)) [
          | inl zero_left ↦
              let nothing : rest ≡ [] =
                nil-of_length rest (ap is_zero (sym remaining) ∙ zero_left) in
              let closed_next =
                chunk_loop-behind t c s0 last (suc fuel)
                  (record o { stream = end_container o.stream }) reads left fits
                  (record {
                    alive = r.alive;
                    own = r.own;
                    same = r.same;
                    comes = r.comes;
                    sum = r.sum ∙ ap (λ (x : Bytes). x ++ closing c) nothing;
                  })
                  refl enough in
              rw
                (at_payload_over o again (read_more t again) inn small none_here zero_left, nothing)
                closed_next
          | inr some_left ↦
              rw (at_payload_wait o again (read_more t again) inn small none_here some_left) (
                read_more_lem t c s0 last (Yields t c s0 last rest left) again o (rest ++ closing c)
                  reads r.comes r
                  (waiting rest (closing c) (length o.stream.buffer)
                    (ap (ltb 0) (sym known) ∙ none_here) (ap is_zero (sym remaining) ∙ some_left))
                  λ o' reads' r' keeps fewer'.
                    rw (chunk_loop-inside fuel o' (keeps.in_payload ∙ inn)) (
                      at_payload-inside fuel o' rest reads' left fits r' (keeps.in_payload ∙ inn)
                        (keeps.large_object ∙ small) (keeps.payload_remaining ∙ remaining)
                        (omega arith) (omega arith)))
        ]
      ]
