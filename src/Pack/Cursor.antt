-- ===== src/Pack/Cursor.antt =====
-- The reading pattern of every dataset parser: `unpack(&buf[offset..])?; offset += consumed;`.
use mtp_rs.Prelude.{ℕ, ◌+◌, ◌^◌, ◌≤◌, ◌<◌, ◌≡◌, ◌++◌, length, arith}
use mtp_rs.Error.{Result, ok, ◌>>=◌}
use mtp_rs.Error.Ensures.{Ensures, returns, Ensures-bind}
use mtp_rs.Pack.Slice.{Bytes, slice_from, slice_from-Ensures, At, At-add}
use mtp_rs.Pack.Word.{
  le_bytes, length-le_bytes, unpack_word, unpack_word-le_bytes, unpack_word-Ensures,
}

-- An integer of `width` bytes at `offset`, and the offset behind it.
unfoldable pub read_word : ℕ → Bytes → ℕ → Result (ℕ × ℕ)
read_word width buf offset = do
  rest ← slice_from buf offset
  v ← unpack_word width rest
  ok (v, offset + width)

-- A value whose unpacking function says how many bytes it took.
unfoldable pub read_sized {ℓ} : {A : Type ℓ} → (Bytes → Result (A × ℕ)) → Bytes → ℕ → Result (A × ℕ)
read_sized unpack buf offset = do
  rest ← slice_from buf offset
  (v, consumed) ← unpack rest
  ok (v, offset + consumed)

pub read_word-At :
    {buf : Bytes} {offset : ℕ} (width v : ℕ) (rest : Bytes)
    → v < 256 ^ width
    → At buf offset (le_bytes width v ++ rest)
    → (read_word width buf offset ≡ ok (v, offset + width)) × At buf (offset + width) rest
unfolding read_word
read_word-At {buf} {offset} width v rest h at = (
  rw (at.suffix, unpack_word-le_bytes width v rest h),
  rw (length-le_bytes width v) at (At-add (le_bytes width v) rest at),
)

pub read_sized-At {ℓ} :
    {A : Type ℓ} {buf : Bytes} {offset : ℕ} (unpack : Bytes → Result (A × ℕ)) (v : A)
    (enc rest : Bytes)
    → unpack (enc ++ rest) ≡ ok (v, length enc)
    → At buf offset (enc ++ rest)
    → (read_sized unpack buf offset ≡ ok (v, offset + length enc))
      × At buf (offset + length enc) rest
unfolding read_sized
read_sized-At {buf} {offset} unpack v enc rest e at = (rw (at.suffix, e), At-add enc rest at)

-- Reading from an offset within the buffer leaves one within the buffer.
pub read_word-Ensures :
    (width : ℕ) (buf : Bytes) (offset : ℕ)
    → offset ≤ length buf
    → Ensures (λ r. r.1 ≤ length buf) (read_word width buf offset)
unfolding read_word
read_word-Ensures width buf offset h =
    Ensures-bind (slice_from-Ensures buf offset h)
      λ rest e. Ensures-bind (unpack_word-Ensures width rest) λ v k. returns (omega arith)

-- An unpacking function takes no more than it is given.
abbrev pub StaysWithin {ℓ} : {A : Type ℓ} → (Bytes → Result (A × ℕ)) → Type ℓ
StaysWithin {A} unpack = (buf : Bytes) → Ensures (λ (r : A × ℕ). r.1 ≤ length buf) (unpack buf)

pub read_sized-Ensures {ℓ} :
    {A : Type ℓ} {unpack : Bytes → Result (A × ℕ)}
    → StaysWithin unpack
    → (buf : Bytes) (offset : ℕ) → offset ≤ length buf
    → Ensures (λ (r : A × ℕ). r.1 ≤ length buf) (read_sized unpack buf offset)
unfolding read_sized
read_sized-Ensures within buf offset h =
    Ensures-bind (slice_from-Ensures buf offset h)
      λ rest e. Ensures-bind (within rest) λ r k. returns (omega arith)
