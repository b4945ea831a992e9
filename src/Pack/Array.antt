-- ===== src/Pack/Array.antt =====
-- The counted arrays of crates/mtp-rs/src/ptp/pack/mod.rs.
use mtp_rs.Prelude.{
  ℕ, zero, suc, ◌+◌, ◌*◌, ◌%◌, ◌^◌, ◌≤◌, ◌<◌, ◌≡◌, refl, ap, List, [], ◌∷◌, ◌++◌, length, flat, ltb,
  ltb→le, le→ltb, false, length-append, append_assoc, All, arith,
}
use mtp_rs.Error.{Result, ok, insufficient_bytes, reject_if, ◌>>=◌, ◌>>◌}
use mtp_rs.Error.Ensures.{Ensures, returns, Ensures-bind, Ensures-reject_if}
use mtp_rs.Pack.Slice.{Bytes, slice_from, slice_from-Ensures, At, At-zero, At-add}
use mtp_rs.Pack.Cursor.{StaysWithin}
use mtp_rs.Pack.Word.{
  le_bytes, length-flat_words, length-le_bytes, unpack_word, pack_u32, unpack_u32,
  unpack_word-le_bytes, unpack_word-Ensures,
}

-- The common body of `pack_u16_array` and `pack_u32_array`, for elements of `width` bytes.
unfoldable pub pack_array : ℕ → List ℕ → Bytes
pack_array width arr = pack_u32 (length arr % 2 ^ 32) ++ flat (le_bytes width) arr

abbrev pub pack_u16_array : List ℕ → Bytes
pack_u16_array = pack_array 2

abbrev pub pack_u32_array : List ℕ → Bytes
pack_u32_array = pack_array 4

-- `for i in 0..count { result.push(unpack(&buf[base + i * width..])?) }`, with `left` rounds to go.
unfoldable pub unpack_elements : (width base : ℕ) → Bytes → (left i : ℕ) → Result (List ℕ)
unpack_elements width base buf zero i = ok []
unpack_elements width base buf (suc left) i = do
  rest ← slice_from buf (base + i * width)
  v ← unpack_word width rest
  vs ← unpack_elements width base buf left (i + 1)
  ok (v ∷ vs)

-- The common body of `unpack_u16_array` and `unpack_u32_array`, where a `usize` has 64 bits: the
-- count is below 2 ^ 32, so `required` does not wrap.
unfoldable pub unpack_array : ℕ → Bytes → Result (List ℕ × ℕ)
unpack_array width buf = do
  reject_if (ltb (length buf) 4) (insufficient_bytes 4 (length buf))
  count ← unpack_u32 buf
  let required = 4 + count * width
  reject_if (ltb (length buf) required) (insufficient_bytes required (length buf))
  result ← unpack_elements width 4 buf count 0
  ok (result, required)

abbrev pub unpack_u16_array : Bytes → Result (List ℕ × ℕ)
unpack_u16_array = unpack_array 2

abbrev pub unpack_u32_array : Bytes → Result (List ℕ × ℕ)
unpack_u32_array = unpack_array 4

-- What an array can carry: elements that fit, and a count that fits 32 bits.
pub record FitsArray (width : ℕ) (arr : List ℕ) : Type 0 where
  pub count_fits : length arr < 2 ^ 32
  pub elements_fit : All (λ v. v < 256 ^ width) arr

pub length-pack_array :
    (width : ℕ) (arr : List ℕ) → length (pack_array width arr) ≡ 4 + length arr * width
unfolding pack_array
length-pack_array width arr = omega (
  arith,
  length-append (pack_u32 (length arr % 2 ^ 32)) (flat (le_bytes width) arr),
  length-le_bytes 4 (length arr % 2 ^ 32),
  length-flat_words width arr,
)

pub unpack_elements-flat :
    (width base : ℕ) (buf rest : Bytes) (arr : List ℕ) (i : ℕ)
    → All (λ v. v < 256 ^ width) arr
    → At buf (base + i * width) (flat (le_bytes width) arr ++ rest)
    → unpack_elements width base buf (length arr) i ≡ ok arr
unfolding unpack_elements
unpack_elements-flat width base buf rest [] i h at = refl
unpack_elements-flat width base buf rest (v ∷ vs) i h at =
    let first : At buf (base + i * width) (le_bytes width v ++ (flat (le_bytes width) vs ++ rest)) =
      rw append_assoc at at in
    let next : base + i * width + length (le_bytes width v) ≡ base + (i + 1) * width =
      omega (arith, length-le_bytes width v) in
    let later =
      unpack_elements-flat width base buf rest vs (i + 1) h.1
        (rw next at (At-add (le_bytes width v) (flat (le_bytes width) vs ++ rest) first)) in
    rw (first.suffix, unpack_word-le_bytes width v _ h.0, later)

pack_array_shape :
    (width : ℕ) (arr : List ℕ) (rest : Bytes)
    → FitsArray width arr
    → pack_array width arr ++ rest ≡ le_bytes 4 (length arr) ++ (flat (le_bytes width) arr ++ rest)
unfolding pack_array
pack_array_shape width arr rest fits =
    let e : length arr % 2 ^ 32 ≡ length arr = omega arith in rw e (append_assoc _ _ rest)

-- An array of elements that fit their width, fewer than 2^32 of them, is packed, and unpacking the
-- bytes gives it back and takes exactly them, whatever follows.
pub unpack_array-pack_array :
    (width : ℕ) (arr : List ℕ) (rest : Bytes)
    → FitsArray width arr
    → unpack_array width (pack_array width arr ++ rest) ≡ ok (arr, length (pack_array width arr))
unfolding unpack_array
unpack_array-pack_array width arr rest fits = rw (
  short 4 (omega arith),
  count_is,
  short (4 + length arr * width) (omega arith),
  elements,
  length-pack_array,
)
  where
    buf : Bytes
    buf = pack_array width arr ++ rest

    whole : length buf ≡ 4 + length arr * width + length rest
    whole = omega (arith, length-append (pack_array width arr) rest, length-pack_array width arr)

    short : (n : ℕ) → n ≤ 4 + length arr * width → ltb (length buf) n ≡ false
    short n h = le→ltb _ _ (omega (arith, whole))

    count_is : unpack_u32 buf ≡ ok (length arr)
    count_is =
        rw (pack_array_shape width arr rest fits)
          (unpack_word-le_bytes 4 (length arr) _ fits.count_fits)

    tail : At buf (4 + 0 * width) (flat (le_bytes width) arr ++ rest)
    tail =
        let start : 0 + length (le_bytes 4 (length arr)) ≡ 4 + 0 * width =
          omega (arith, length-le_bytes 4 (length arr)) in
        rw (pack_array_shape width arr rest fits) (
          rw start at
            (At-add (le_bytes 4 (length arr)) (flat (le_bytes width) arr ++ rest) (At-zero _)))

    elements : unpack_elements width 4 buf (length arr) 0 ≡ ok arr
    elements = unpack_elements-flat width 4 buf rest arr 0 fits.elements_fit tail

pub unpack_elements-Ensures :
    (width base : ℕ) (buf : Bytes) (left i : ℕ)
    → base + (i + left) * width ≤ length buf
    → Ensures (λ vs. length vs ≡ left) (unpack_elements width base buf left i)
unfolding unpack_elements
unpack_elements-Ensures width base buf zero i h = returns refl
unpack_elements-Ensures width base buf (suc left) i h =
    Ensures-bind (slice_from-Ensures buf (base + i * width) (grind arith)) λ rest e.
      Ensures-bind (unpack_word-Ensures width rest) λ v k.
        Ensures-bind (unpack_elements-Ensures width base buf left (i + 1) (grind arith))
          λ vs l. returns (ap suc l)

-- Any buffer is an array or an error, and no more is consumed than is there.
pub unpack_array-Ensures : (width : ℕ) → StaysWithin (unpack_array width)
unfolding unpack_array
unpack_array-Ensures width buf = Ensures-reject_if (ltb (length buf) 4) _ λ e.
    Ensures-bind (unpack_word-Ensures 4 buf) λ count k.
      Ensures-reject_if (ltb (length buf) (4 + count * width)) _ λ e'.
        Ensures-bind (unpack_elements-Ensures width 4 buf count 0 (omega (arith, ltb→le _ _ e')))
          λ vs l. returns (ltb→le _ _ e')
