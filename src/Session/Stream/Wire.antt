-- ===== src/Session/Stream/Wire.antt =====
-- A download on the wire: a data container and the response that closes it, cut into transfers.
use mtp_rs.Prelude.{
  ℕ, ◌%◌, ◌^◌, some, ◌≤◌, ◌<◌, ◌≡◌, refl, ◌∙◌, ap, List, [], ◌∷◌, ◌++◌, length, arith,
}
use mtp_rs.Error.{ok}
use mtp_rs.Pack.Slice.{Bytes, slice}
use mtp_rs.Pack.Word.{le_bytes, from_le, unpack_word, from_le-le_bytes}
use mtp_rs.Container.{header_bytes, container_type, ContainerType, from_type_code}
use mtp_rs.Session.Stream.{front_length}

-- What stands at the front of a sequence stands at the front of every part of it that is long enough.
pub prefix-split {ℓ} :
    {A : Type ℓ} (xs ys h zs : List A)
    → xs ++ ys ≡ h ++ zs
    → length h ≤ length xs
    → (d : List A) × (xs ≡ h ++ d) × (d ++ ys ≡ zs)
prefix-split xs ys [] zs e le = (xs, refl, e)
prefix-split [] ys (a ∷ h) zs e le = absurd (omega arith)
prefix-split (x ∷ xs) ys (a ∷ h) zs e le =
    let same : x ≡ a = cc in
    let rest : xs ++ ys ≡ h ++ zs = cc in
    let (d, e1, e2) = prefix-split xs ys h zs rest (omega arith) in (d, cc (same, e1), e2)

container_type-cons :
    (b0 b1 b2 b3 b4 b5 b6 b7 b8 b9 b10 b11 : ℕ) (rest : Bytes) (t : ContainerType)
    → from_type_code (from_le (b4 ∷ b5 ∷ [])) ≡ some t
    → container_type (b0 ∷ b1 ∷ b2 ∷ b3 ∷ b4 ∷ b5 ∷ b6 ∷ b7 ∷ b8 ∷ b9 ∷ b10 ∷ b11 ∷ rest) ≡ ok t
unfolding container_type slice unpack_word
container_type-cons b0 b1 b2 b3 b4 b5 b6 b7 b8 b9 b10 b11 rest t e = ground (arith, e)

-- The type and the length that a header was written with.
pub container_type-header_bytes :
    (n k c t : ℕ) (rest : Bytes) (kind : ContainerType)
    → k < 2 ^ 16
    → from_type_code k ≡ some kind
    → container_type (header_bytes n k c t ++ rest) ≡ ok kind
unfolding header_bytes
container_type-header_bytes n k c t rest kind hk e =
    unfold le_bytes in
    container_type-cons _ _ _ _ _ _ _ _ _ _ _ _ rest kind
      (ap from_type_code (from_le-le_bytes 2 k hk) ∙ e)

front_length-cons :
    (b0 b1 b2 b3 : ℕ) (rest : Bytes)
    → front_length (b0 ∷ b1 ∷ b2 ∷ b3 ∷ rest) ≡ ok (from_le (b0 ∷ b1 ∷ b2 ∷ b3 ∷ []))
unfolding front_length slice unpack_word
front_length-cons b0 b1 b2 b3 rest = ground arith

pub front_length-header_bytes :
    (n k c t : ℕ) (rest : Bytes) → n < 2 ^ 32 → front_length (header_bytes n k c t ++ rest) ≡ ok n
unfolding header_bytes
front_length-header_bytes n k c t rest hn =
    let below : n % 2 ^ 32 ≡ n = omega arith in
    rw below (unfold le_bytes in front_length-cons _ _ _ _ _ ∙ ap ok (from_le-le_bytes 4 n hn))
