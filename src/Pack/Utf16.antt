-- ===== src/Pack/Utf16.antt =====
-- Rust strings as lists of Unicode scalar values, `str::encode_utf16`, `String::from_utf16_lossy`.
use mtp_rs.Prelude.{
  ℕ, ◌+◌, ◌-◌, ◌*◌, ◌/◌, ◌%◌, ◌^◌, ◌≤◌, ◌<◌, ◌≡◌, refl, ap, ◌∙◌, Bool, ◌&&◌, List, [], ◌∷◌, ◌++◌,
  flat, ltb, leb, if◌then◌else◌, All, All-append, ◌⊎◌, arith,
}

-- A `String` or `&str`.
abbrev pub Str : Type 0
Str = List ℕ

-- A Unicode scalar value, `char`.
abbrev pub IsChar : ℕ → Type 0
IsChar c = (c < 0xD800) ⊎ ((0xE000 ≤ c) × (c < 0x110000))

abbrev pub is_high : ℕ → Bool
is_high u = leb 0xD800 u && ltb u 0xDC00

abbrev pub is_low : ℕ → Bool
is_low u = leb 0xDC00 u && ltb u 0xE000

unfoldable pub encode_char : ℕ → List ℕ
encode_char c =
    if ltb c 0x10000
    then c ∷ []
    else (0xD800 + (c - 0x10000) / 0x400) ∷ (0xDC00 + (c - 0x10000) % 0x400) ∷ []

unfoldable pub encode_utf16 : Str → List ℕ
unfolding encode_char
encode_utf16 s = flat encode_char s

abbrev pub replacement : ℕ
replacement = 0xFFFD

abbrev pub join : ℕ → ℕ → ℕ
join high low = 0x10000 + (high - 0xD800) * 0x400 + (low - 0xDC00)

-- A lone surrogate becomes U+FFFD; the unit behind a lone high surrogate is read again.
unfoldable pub from_utf16_lossy : List ℕ → Str
from_utf16_lossy [] = []
from_utf16_lossy (u ∷ []) =
    (if is_high u then replacement else if is_low u then replacement else u) ∷ []
from_utf16_lossy (u ∷ v ∷ us) =
    let paired = join u v ∷ from_utf16_lossy us in
    let single = from_utf16_lossy (v ∷ us) in
    if is_high u
    then (if is_low v then paired else replacement ∷ single)
    else (if is_low u then replacement else u) ∷ single

encode_char-lt : (c : ℕ) → IsChar c → All (λ u. u < 2 ^ 16) (encode_char c)
unfolding encode_char
encode_char-lt c h = ground arith

-- Every UTF-16 unit of a string of characters is a u16.
pub encode_utf16-lt : (s : Str) → All IsChar s → All (λ u. u < 2 ^ 16) (encode_utf16 s)
unfolding encode_utf16
encode_utf16-lt [] h = tt
encode_utf16-lt (c ∷ s) h =
    All-append _ (encode_char c) (flat encode_char s) (encode_char-lt c h.0) (encode_utf16-lt s h.1)

decode_char :
    (c : ℕ) (us : List ℕ)
    → IsChar c
    → from_utf16_lossy (encode_char c ++ us) ≡ c ∷ from_utf16_lossy us
unfolding encode_char from_utf16_lossy
decode_char c [] h = ground arith
decode_char c (u ∷ us) h = ground arith

-- Decoding undoes encoding.
pub from_utf16_lossy-encode_utf16 : (s : Str) → All IsChar s → from_utf16_lossy (encode_utf16 s) ≡ s
unfolding encode_utf16
from_utf16_lossy-encode_utf16 [] h = unfold from_utf16_lossy in refl
from_utf16_lossy-encode_utf16 (c ∷ s) h =
    decode_char c (encode_utf16 s) h.0 ∙ ap (◌∷◌ c) (from_utf16_lossy-encode_utf16 s h.1)

encode_char_pos : (c : ℕ) → 0 < c → All (λ u. 0 < u) (encode_char c)
unfolding encode_char
encode_char_pos c h = ground arith

-- A string without NUL has no zero unit.
pub encode_utf16_pos : (s : Str) → All (λ c. 0 < c) s → All (λ u. 0 < u) (encode_utf16 s)
unfolding encode_utf16
encode_utf16_pos [] h = tt
encode_utf16_pos (c ∷ s) h =
    All-append _ (encode_char c) (flat encode_char s) (encode_char_pos c h.0)
      (encode_utf16_pos s h.1)
