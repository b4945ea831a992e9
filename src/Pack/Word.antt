-- ===== src/Pack/Word.antt =====
-- The integers of crates/mtp-rs/src/ptp/pack/mod.rs, little-endian.
use mtp_rs.Prelude.{
  false, ℕ, zero, suc, ◌+◌, ◌*◌, ◌/◌, ◌%◌, ◌^◌, ◌≤◌, ◌<◌, ◌≡◌, refl, List, [], ◌∷◌, ◌++◌, length,
  flat, take, ltb, ltb→le, le→ltb, if◌then◌else◌, length-append, take-append, All, arith,
}
use mtp_rs.Prelude.Int.{ℤ, to_pattern, of_pattern}
use mtp_rs.Error.{Result, ok, err, invalid_data, insufficient_bytes, ◌>>=◌}
use mtp_rs.Error.Ensures.{Ensures, returns, fails, Ensures-if}
use mtp_rs.Pack.Slice.{Bytes}
use native.Mathlib.Nat.{pow-suc}

-- `to_le_bytes` of an integer of `width` bytes.
unfoldable pub le_bytes : ℕ → ℕ → Bytes
le_bytes zero v = []
le_bytes (suc width) v = v % 256 ∷ le_bytes width (v / 256)

-- `from_le_bytes`
unfoldable pub from_le : Bytes → ℕ
from_le [] = 0
from_le (b ∷ bs) = b + 256 * from_le bs

abbrev pub pack_u8 : ℕ → Bytes
pack_u8 = le_bytes 1

abbrev pub pack_u16 : ℕ → Bytes
pack_u16 = le_bytes 2

abbrev pub pack_u32 : ℕ → Bytes
pack_u32 = le_bytes 4

abbrev pub pack_u64 : ℕ → Bytes
pack_u64 = le_bytes 8

abbrev pub pack_i8 : ℤ → Bytes
pack_i8 v = le_bytes 1 (to_pattern (2 ^ 7) v)

abbrev pub pack_i16 : ℤ → Bytes
pack_i16 v = le_bytes 2 (to_pattern (2 ^ 15) v)

abbrev pub pack_i32 : ℤ → Bytes
pack_i32 v = le_bytes 4 (to_pattern (2 ^ 31) v)

abbrev pub pack_i64 : ℤ → Bytes
pack_i64 v = le_bytes 8 (to_pattern (2 ^ 63) v)

-- The common body of the unpacking functions, for an integer of `width` bytes.
unfoldable pub unpack_word : ℕ → Bytes → Result ℕ
unpack_word width buf =
    if ltb (length buf) width
    then err (invalid_data (insufficient_bytes width (length buf)))
    else ok (from_le (take width buf))

abbrev pub unpack_u8 : Bytes → Result ℕ
unpack_u8 = unpack_word 1

abbrev pub unpack_u16 : Bytes → Result ℕ
unpack_u16 = unpack_word 2

abbrev pub unpack_u32 : Bytes → Result ℕ
unpack_u32 = unpack_word 4

abbrev pub unpack_u64 : Bytes → Result ℕ
unpack_u64 = unpack_word 8

abbrev pub unpack_i8 : Bytes → Result ℤ
unpack_i8 buf = do w ← unpack_word 1 buf; ok (of_pattern (2 ^ 7) w)

abbrev pub unpack_i16 : Bytes → Result ℤ
unpack_i16 buf = do w ← unpack_word 2 buf; ok (of_pattern (2 ^ 15) w)

abbrev pub unpack_i32 : Bytes → Result ℤ
unpack_i32 buf = do w ← unpack_word 4 buf; ok (of_pattern (2 ^ 31) w)

abbrev pub unpack_i64 : Bytes → Result ℤ
unpack_i64 buf = do w ← unpack_word 8 buf; ok (of_pattern (2 ^ 63) w)

abbrev pub IsByte : ℕ → Type 0
IsByte b = b < 256

pub length-le_bytes : (width v : ℕ) → length (le_bytes width v) ≡ width
unfolding le_bytes
length-le_bytes zero v = refl
length-le_bytes (suc width) v = omega (arith, length-le_bytes width (v / 256))

pub length-flat_words :
    (width : ℕ) (arr : List ℕ) → length (flat (le_bytes width) arr) ≡ length arr * width
length-flat_words width [] = omega arith
length-flat_words width (v ∷ vs) = omega (
  arith,
  length-append (le_bytes width v) (flat (le_bytes width) vs),
  length-le_bytes width v,
  length-flat_words width vs,
)

pub le_bytes-IsByte : (width v : ℕ) → All IsByte (le_bytes width v)
unfolding le_bytes
le_bytes-IsByte zero v = tt
le_bytes-IsByte (suc width) v = (omega arith, le_bytes-IsByte width (v / 256))

pub from_le-le_bytes : (width v : ℕ) → v < 256 ^ width → from_le (le_bytes width v) ≡ v
unfolding le_bytes from_le
from_le-le_bytes zero v h = omega arith
from_le-le_bytes (suc width) v h =
    let below : v / 256 < 256 ^ width = omega (arith, pow-suc 256 width) in
    omega (arith, from_le-le_bytes width (v / 256) below)

-- Reading back a word, whatever follows it.
pub unpack_word-le_bytes :
    (width v : ℕ) (rest : Bytes)
    → v < 256 ^ width
    → unpack_word width (le_bytes width v ++ rest) ≡ ok v
unfolding unpack_word
unpack_word-le_bytes width v rest h = rw (long_enough, whole, from_le-le_bytes width v h)
  where
    long_enough : ltb (length (le_bytes width v ++ rest)) width ≡ false
    long_enough =
        le→ltb _ _ (omega (arith, length-append (le_bytes width v) rest, length-le_bytes width v))

    whole : take width (le_bytes width v ++ rest) ≡ le_bytes width v
    whole = rw (length-le_bytes width v) at (take-append (le_bytes width v) rest)

-- A word is read from any buffer that is long enough, and nothing panics.
pub unpack_word-Ensures :
    (width : ℕ) (buf : Bytes) → Ensures (λ v. width ≤ length buf) (unpack_word width buf)
unfolding unpack_word
unpack_word-Ensures width buf =
    Ensures-if (ltb (length buf) width) (λ _. fails) (λ e. returns (ltb→le _ _ e))
