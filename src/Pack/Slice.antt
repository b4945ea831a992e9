-- ===== src/Pack/Slice.antt =====
-- Rust's slice expressions on a byte buffer. An offset or an index out of range panics.
use Prim.Native.Nat.add
use mtp_rs.Prelude.{
  ℕ, zero, suc, ◌+◌, ◌-◌, ◌≤◌, ◌<◌, ◌≡◌, refl, ◌∙◌, ◌&&◌, List, [], ◌∷◌, ◌++◌, length, take, drop,
  take-append, drop-append, length-append, true, leb, if◌then◌else◌, arith,
}
use mtp_rs.Error.{Result, ok, panic}
use mtp_rs.Error.Ensures.{Ensures, returns, Ensures-if, Ensures-weaken}

abbrev pub Bytes : Type 0
Bytes = List ℕ

-- `&buf[offset..]`
unfoldable pub slice_from {ℓ} : {A : Type ℓ} → List A → ℕ → Result (List A)
slice_from buf zero = ok buf
slice_from [] (suc offset) = panic
slice_from (b ∷ bs) (suc offset) = slice_from bs offset

-- `&buf[from..to]`
unfoldable pub slice {ℓ} : {A : Type ℓ} → List A → ℕ → ℕ → Result (List A)
slice buf from to =
    if leb from to && leb to (length buf) then ok (take (to - from) (drop from buf)) else panic

-- `buf[i]`
unfoldable pub index {ℓ} : {A : Type ℓ} → List A → ℕ → Result A
index [] i = panic
index (b ∷ bs) zero = ok b
index (b ∷ bs) (suc i) = index bs i

pub length-take {ℓ} : {A : Type ℓ} (n : ℕ) (xs : List A) → n ≤ length xs → length (take n xs) ≡ n
length-take zero xs h = refl
length-take (suc n) [] h = absurd (omega arith)
length-take (suc n) (x ∷ xs) h = omega (arith, length-take n xs)

pub length-drop {ℓ} : {A : Type ℓ} (n : ℕ) (xs : List A) → length (drop n xs) ≡ length xs - n
length-drop zero xs = omega arith
length-drop (suc n) [] = omega arith
length-drop (suc n) (x ∷ xs) = omega (arith, length-drop n xs)

module _ {ℓ} {A : Type ℓ} where
  -- A suffix that starts at or before the end is what is left there.
  pub slice_from-Ensures :
      (buf : List A) (offset : ℕ)
      → offset ≤ length buf
      → Ensures (λ rest. length rest + offset ≡ length buf) (slice_from buf offset)
  unfolding slice_from
  slice_from-Ensures buf zero h = returns (omega arith)
  slice_from-Ensures [] (suc offset) h = absurd (omega arith)
  slice_from-Ensures (b ∷ bs) (suc offset) h =
      Ensures-weaken (λ rest e. omega arith) (slice_from-Ensures bs offset (omega arith))

  pub slice-Ensures :
      (buf : List A) (from to : ℕ)
      → from ≤ to
      → to ≤ length buf
      → Ensures (λ part. length part ≡ to - from) (slice buf from to)
  unfolding slice
  slice-Ensures buf from to h k =
      Ensures-if (leb from to && leb to (length buf))
        (λ _.
          returns (length-take (to - from) (drop from buf) (omega (arith, length-drop from buf))))
        (λ e. absurd (ground arith))

  -- The slice of a middle part.
  pub slice_middle :
      (xs ys rest : List A) (from to : ℕ)
      → from ≡ length xs
      → to ≡ length xs + length ys
      → slice (xs ++ (ys ++ rest)) from to ≡ ok ys
  unfolding slice
  slice_middle xs ys rest from to hf ht =
      rw (hf, ht, drop-append xs (ys ++ rest), in_range, width, take-append ys rest)
    where
      in_range :
          (leb (length xs) (length xs + length ys)
            && leb (length xs + length ys) (length (xs ++ (ys ++ rest))))
          ≡ true
      in_range = ground (arith, length-append xs (ys ++ rest), length-append ys rest)

      width : length xs + length ys - length xs ≡ length ys
      width = omega arith

  pub index-Ensures :
      (buf : List A) (i : ℕ) → i < length buf → Ensures (λ b. Unit {0}) (index buf i)
  unfolding index
  index-Ensures [] i h = absurd (omega arith)
  index-Ensures (b ∷ bs) zero h = returns tt
  index-Ensures (b ∷ bs) (suc i) h = index-Ensures bs i (omega arith)

  -- `offset` points at `rest` in `buf`.
  pub record At (buf : List A) (offset : ℕ) (rest : List A) : Type ℓ where
    pub suffix : slice_from buf offset ≡ ok rest

  pub At-zero : (buf : List A) → At buf 0 buf
  At-zero buf = record { suffix = unfold slice_from in refl }

  slice_from-append : (xs rest : List A) → slice_from (xs ++ rest) (length xs) ≡ ok rest
  unfolding slice_from
  slice_from-append [] rest = refl
  slice_from-append (x ∷ xs) rest = slice_from-append xs rest

  slice_from-add :
      (buf rest : List A) (offset k : ℕ)
      → slice_from buf offset ≡ ok rest
      → slice_from buf (offset + k) ≡ slice_from rest k
  unfolding slice_from
  slice_from-add buf rest zero k e = rw add.zero (cc)
  slice_from-add [] rest (suc offset) k e = cc
  slice_from-add (b ∷ bs) rest (suc offset) k e = rw add.suc (slice_from-add bs rest offset k e)

  pub At-add :
      {buf : List A} {offset : ℕ} (xs rest : List A)
      → At buf offset (xs ++ rest)
      → At buf (offset + length xs) rest
  At-add {buf} {offset} xs rest at = record {
    suffix =
        slice_from-add buf (xs ++ rest) offset (length xs) at.suffix ∙ slice_from-append xs rest;
  }

  index-suffix :
      (buf : List A) (offset : ℕ) {a : A} {rest : List A}
      → slice_from buf offset ≡ ok (a ∷ rest)
      → index buf offset ≡ ok a
  unfolding slice_from index
  index-suffix [] zero e = cc
  index-suffix (b ∷ bs) zero e = cc
  index-suffix [] (suc offset) e = cc
  index-suffix (b ∷ bs) (suc offset) e = index-suffix bs offset e

  pub index-At :
      {buf : List A} {offset : ℕ} {a : A} {rest : List A}
      → At buf offset (a ∷ rest)
      → index buf offset ≡ ok a
  index-At {buf} {offset} at = index-suffix buf offset at.suffix

  pub At-next :
      {buf : List A} {offset : ℕ} {a : A} {rest : List A}
      → At buf offset (a ∷ rest)
      → At buf (offset + 1) rest
  At-next {a = a} {rest} at = At-add (a ∷ []) rest at
