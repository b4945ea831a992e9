-- ===== src/Prelude/Int.antt =====
-- Signed integers by their two's complement patterns.
use Prim.Native.Nat.{ℕ, suc, ◌+◌, ◌-◌, ◌*◌, ◌/◌, ◌%◌, ◌<◌}
use mathlib.Core.Path.{◌≡◌, refl}
use mathlib.Core.Logic.{◌⊎◌, inl, inr}
use native.Mathlib.Nat.{mod-eq_of_lt}
use native.Mathlib.Omega.{arith}
use mathlib.Core.Bool.{Bool}
use mtp_rs.Prelude.Tests.{ltb, leb, if◌then◌else◌}

-- `negsuc n` is -(n + 1).
pub data ℤ : Type 0 where
  pos : ℕ → ℤ
  negsuc : ℕ → ℤ

-- `v as uN` for a signed `v`, with `half` = 2 ^ (N - 1): the pattern of `v`.
abbrev pub to_pattern : ℕ → ℤ → ℕ
to_pattern half (pos n) = n % (2 * half)
to_pattern half (negsuc n) = 2 * half - 1 - n % (2 * half)

-- `w as iN` for a pattern `w` below 2 * half.
abbrev pub of_pattern : ℕ → ℕ → ℤ
of_pattern half w = if ltb w half then pos w else negsuc (2 * half - 1 - w)

-- A value of `iN`.
abbrev pub IsSigned : ℕ → ℤ → Type 0
IsSigned half (pos n) = n < half
IsSigned half (negsuc n) = n < half

pub of_pattern-to_pattern :
    (half : ℕ) (v : ℤ) → IsSigned half v → of_pattern half (to_pattern half v) ≡ v
of_pattern-to_pattern half (pos n) h =
    let e : n % (2 * half) ≡ n = mod-eq_of_lt (omega arith) in rw e (ground arith)
of_pattern-to_pattern half (negsuc n) h =
    let e : n % (2 * half) ≡ n = mod-eq_of_lt (omega arith) in rw e (ground arith)

pub to_pattern-lt : (half : ℕ) (v : ℤ) → IsSigned half v → to_pattern half v < 2 * half
to_pattern-lt half (pos n) h =
    let e : n % (2 * half) ≡ n = mod-eq_of_lt (omega arith) in rw e (omega arith)
to_pattern-lt half (negsuc n) h =
    let e : n % (2 * half) ≡ n = mod-eq_of_lt (omega arith) in rw e (omega arith)

abbrev pub pos_part : ℤ → ℕ
pos_part (pos n) = n
pos_part (negsuc n) = 0

abbrev pub neg_part : ℤ → ℕ
neg_part (pos n) = 0
neg_part (negsuc n) = suc n

-- a - b, as an integer.
abbrev pub sub_ℕ : ℕ → ℕ → ℤ
sub_ℕ a b = if leb b a then pos (a - b) else negsuc (b - a - 1)

infixl 65 ◌+ℤ◌ ◌-ℤ◌
infixl 70 ◌*ℤ◌
unfoldable pub ◌+ℤ◌ : ℤ → ℤ → ℤ
a +ℤ b = sub_ℕ (pos_part a + pos_part b) (neg_part a + neg_part b)

unfoldable pub ◌-ℤ◌ : ℤ → ℤ → ℤ
a -ℤ b = sub_ℕ (pos_part a + neg_part b) (neg_part a + pos_part b)

-- The product with a positive number.
unfoldable pub ◌*ℤ◌ : ℤ → ℕ → ℤ
a *ℤ n = sub_ℕ (pos_part a * n) (neg_part a * n)

abbrev pub leb_ℤ : ℤ → ℤ → Bool
leb_ℤ a b = leb (pos_part a + neg_part b) (pos_part b + neg_part a)

-- `div_euclid` and `rem_euclid` by a positive number.
unfoldable pub div_euclid : ℤ → ℕ → ℤ
div_euclid (pos a) n = pos (a / n)
div_euclid (negsuc a) n = negsuc (a / n)

unfoldable pub rem_euclid : ℤ → ℕ → ℕ
rem_euclid (pos a) n = a % n
rem_euclid (negsuc a) n = n - 1 - a % n

-- The two parts of a result, as equations that linear arithmetic reads.
pub sub_ℕ_parts : (a b : ℕ) → pos_part (sub_ℕ a b) + b ≡ neg_part (sub_ℕ a b) + a
sub_ℕ_parts a b = ground arith

pub +ℤ_parts :
    (a b : ℤ)
    → pos_part (a +ℤ b) + neg_part a + neg_part b ≡ neg_part (a +ℤ b) + pos_part a + pos_part b
unfolding ◌+ℤ◌
+ℤ_parts a b = ground arith

pub -ℤ_parts :
    (a b : ℤ)
    → pos_part (a -ℤ b) + neg_part a + pos_part b ≡ neg_part (a -ℤ b) + pos_part a + neg_part b
unfolding ◌-ℤ◌
-ℤ_parts a b = ground arith

pub *ℤ_parts :
    (a : ℤ) (n : ℕ) → pos_part (a *ℤ n) + neg_part a * n ≡ neg_part (a *ℤ n) + pos_part a * n
unfolding ◌*ℤ◌
*ℤ_parts a n = sub_ℕ_parts (pos_part a * n) (neg_part a * n)

pub eq_of_parts : (a b : ℤ) → pos_part a + neg_part b ≡ pos_part b + neg_part a → a ≡ b
eq_of_parts a b h = ground arith

-- One of the two parts is 0.
pub one_part : (z : ℤ) → (pos_part z ≡ 0) ⊎ (neg_part z ≡ 0)
one_part (pos n) = inr refl
one_part (negsuc n) = inl refl
