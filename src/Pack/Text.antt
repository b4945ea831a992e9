-- ===== src/Pack/Text.antt =====
-- `pack_string` and `unpack_string` of crates/mtp-rs/src/ptp/pack/mod.rs.
use mtp_rs.Prelude.{
  ℕ, zero, suc, ◌+◌, ◌*◌, ◌/◌, ◌%◌, ◌^◌, ◌≤◌, ◌<◌, ◌≡◌, refl, subst, false, List, [], ◌∷◌, ◌++◌,
  length, flat, is_empty, ltb, ltb→le, le→ltb, ◌==◌, if◌then◌else◌, All, length-append,
  append_assoc, arith,
}
use mtp_rs.Error.{
  Result, ok, err, invalid_data, string_too_long, insufficient_bytes, missing_string_length,
  reject_if, ◌>>=◌, ◌>>◌,
}
use mtp_rs.Error.Ensures.{Ensures, returns, fails, Ensures-bind, Ensures-if, Ensures-reject_if}
use mtp_rs.Pack.Slice.{Bytes, index, index-Ensures, At, At-zero, index-At, At-next}
use mtp_rs.Pack.Cursor.{StaysWithin}
use mtp_rs.Pack.Word.{le_bytes, from_le, length-flat_words, from_le-le_bytes}
use mtp_rs.Pack.Utf16.{
  Str, IsChar, encode_utf16, from_utf16_lossy, encode_utf16-lt, encode_utf16_pos,
  from_utf16_lossy-encode_utf16,
}

abbrev pub max_string_units : ℕ
max_string_units = 254

unfoldable pub pack_string : Str → Result Bytes
pack_string s =
    if is_empty s
    then ok (0 ∷ [])
    else let utf16 = encode_utf16 s in
      let len = length utf16 + 1 in
      if ltb max_string_units (length utf16)
      then err (string_too_long (length utf16))
      else ok (len % 256 ∷ (flat (le_bytes 2) utf16 ++ (0 ∷ 0 ∷ [])))

-- The loop over `0..len`, with `left` rounds to go: it stops at the first NUL.
unfoldable pub code_units : Bytes → (left i : ℕ) → Result (List ℕ)
code_units buf zero i = ok []
code_units buf (suc left) i = do
  low ← index buf (1 + i * 2)
  high ← index buf (1 + i * 2 + 1)
  let code_unit = from_le (low ∷ high ∷ [])
  let more = code_units buf left (i + 1)
  if code_unit == 0 then ok [] else (do us ← more; ok (code_unit ∷ us))

unfoldable pub unpack_string : Bytes → Result (Str × ℕ)
unpack_string [] = err (invalid_data missing_string_length)
unpack_string (len ∷ bytes) = if len == 0 then ok ([], 1) else do
  let buf : Bytes = len ∷ bytes
  let required = 1 + len * 2
  reject_if (ltb (length buf) required) (insufficient_bytes required (length buf))
  units ← code_units buf len 0
  ok (from_utf16_lossy units, required)

code_units-Ensures :
    (buf : Bytes) (left i : ℕ)
    → 1 + (i + left) * 2 ≤ length buf
    → Ensures (λ us. Unit {0}) (code_units buf left i)
unfolding code_units
code_units-Ensures buf zero i h = returns tt
code_units-Ensures buf (suc left) i h =
    Ensures-bind (index-Ensures buf (1 + i * 2) (omega arith)) λ low _.
      Ensures-bind (index-Ensures buf (1 + i * 2 + 1) (omega arith)) λ high _.
        Ensures-if (from_le (low ∷ high ∷ []) == 0) (λ _. returns tt)
          λ _. Ensures-bind (code_units-Ensures buf left (i + 1) (omega arith)) λ us _. returns tt

-- Any buffer is a string or an error, and no more is consumed than is there.
pub unpack_string-Ensures : StaysWithin unpack_string
unfolding unpack_string
unpack_string-Ensures [] = fails
unpack_string-Ensures (len ∷ bytes) =
    Ensures-if (len == 0) (λ _. returns (omega arith))
      λ _. Ensures-reject_if (ltb (suc (length bytes)) (1 + len * 2)) _ λ e.
        Ensures-bind (code_units-Ensures (len ∷ bytes) len 0 (omega (arith, ltb→le _ _ e)))
          λ us _. returns (ltb→le _ _ e)

-- A string that a PTP string carries whole: characters, no NUL, at most 254 units.
pub record FitsString (s : Str) : Type 0 where
  pub chars : All IsChar s
  pub no_nul : All (λ c. 0 < c) s
  pub units_fit : length (encode_utf16 s) ≤ max_string_units

-- The bytes of a packed string.
unfoldable pub string_bytes : Str → Bytes
string_bytes [] = 0 ∷ []
string_bytes (c ∷ s) =
    let units = encode_utf16 (c ∷ s) in
    suc (length units) ∷ (flat (le_bytes 2) units ++ (0 ∷ 0 ∷ []))

pub pack_string-string_bytes :
    (s : Str) → length (encode_utf16 s) ≤ max_string_units → pack_string s ≡ ok (string_bytes s)
unfolding pack_string string_bytes
pack_string-string_bytes [] h = refl
pack_string-string_bytes (c ∷ s) h = ground arith

-- The units that stand at round `i`, ended by a NUL, are read back.
code_units-flat :
    (buf rest : Bytes) (us : List ℕ) (i : ℕ)
    → All (λ u. u < 2 ^ 16) us
    → All (λ u. 0 < u) us
    → At buf (1 + i * 2) (flat (le_bytes 2) us ++ (0 ∷ 0 ∷ rest))
    → code_units buf (suc (length us)) i ≡ ok us
unfolding code_units le_bytes
code_units-flat buf rest [] i h p at =
    rw (index-At at, index-At (At-next at)) (unfold from_le in refl)
code_units-flat buf rest (u ∷ us) i h p at =
    let unit : from_le (u % 256 ∷ u / 256 % 256 ∷ []) ≡ u = from_le-le_bytes 2 u h.0 in
    let nonzero : u == 0 ≡ false = ground arith in
    let next : 1 + i * 2 + 1 + 1 ≡ 1 + (i + 1) * 2 = omega arith in
    let later = code_units-flat buf rest us (i + 1) h.1 p.1 (rw next at (At-next (At-next at))) in
    rw (index-At at, index-At (At-next at), unit, nonzero, later)

-- Reading back a string, whatever follows it.
pub unpack_string-string_bytes :
    (s : Str) (rest : Bytes)
    → FitsString s
    → unpack_string (string_bytes s ++ rest) ≡ ok (s, length (string_bytes s))
unfolding unpack_string string_bytes
unpack_string-string_bytes [] rest fits = refl
unpack_string-string_bytes (c ∷ s) rest fits =
    rw (short, found, from_utf16_lossy-encode_utf16 (c ∷ s) fits.chars) (ground (arith, count))
  where
    units : List ℕ
    units = encode_utf16 (c ∷ s)

    tail : Bytes
    tail = flat (le_bytes 2) units ++ (0 ∷ 0 ∷ [])

    buf : Bytes
    buf = suc (length units) ∷ (tail ++ rest)

    count : length tail ≡ length units * 2 + 2
    count =
        omega
          (arith, length-append (flat (le_bytes 2) units) (0 ∷ 0 ∷ []), length-flat_words 2 units)

    short : ltb (length buf) (1 + suc (length units) * 2) ≡ false
    short = le→ltb _ _ (omega (arith, count, length-append tail rest))

    start : At buf (1 + 0 * 2) (flat (le_bytes 2) units ++ (0 ∷ 0 ∷ rest))
    start =
        subst (λ later. At buf (1 + 0 * 2) later)
          (append_assoc (flat (le_bytes 2) units) (0 ∷ 0 ∷ []) rest) (At-next (At-zero buf))

    found : code_units buf (suc (length units)) 0 ≡ ok units
    found =
        code_units-flat buf rest units 0 (encode_utf16-lt (c ∷ s) fits.chars)
          (encode_utf16_pos (c ∷ s) fits.no_nul) start

-- A string that PTP can carry is packed, and unpacking the bytes gives it back and takes exactly
-- them, whatever follows.
pub unpack_string-pack_string :
    (s : Str) (rest : Bytes)
    → FitsString s
    → (bytes : Bytes) × (pack_string s ≡ ok bytes)
      × (unpack_string (bytes ++ rest) ≡ ok (s, length bytes))
unpack_string-pack_string s rest fits = (
  string_bytes s,
  pack_string-string_bytes s fits.units_fit,
  unpack_string-string_bytes s rest fits,
)
