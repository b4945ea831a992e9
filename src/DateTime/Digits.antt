-- ===== src/DateTime/Digits.antt =====
-- Printing a number in a fixed width and reading it back.
use mtp_rs.Prelude.{ℕ, ◌+◌, ◌/◌, ◌%◌, ◌<◌, ◌≡◌, [], ◌∷◌, some, arith}
use mtp_rs.Pack.Slice.{Bytes}
use mtp_rs.DateTime.{padded, parse_digits}

-- The ASCII digit of a number below 10.
abbrev pub digit : ℕ → ℕ
digit n = b'0' + n

abbrev pub two_digits : ℕ → Bytes
two_digits n = digit (n / 10) ∷ digit (n % 10) ∷ []

abbrev pub four_digits : ℕ → Bytes
four_digits n = digit (n / 1000) ∷ digit (n / 100 % 10) ∷ digit (n / 10 % 10) ∷ digit (n % 10) ∷ []

pub padded-two_digits : (n : ℕ) → n < 100 → padded 2 n ≡ two_digits n
unfolding padded
padded-two_digits n h = ground arith

pub padded-four_digits : (n : ℕ) → n < 10000 → padded 4 n ≡ four_digits n
unfolding padded
padded-four_digits n h = ground arith

pub parse_digits-two_digits : (n : ℕ) → n < 100 → parse_digits 2 (two_digits n) ≡ some n
unfolding parse_digits
parse_digits-two_digits n h = ground arith

pub parse_digits-four_digits : (n : ℕ) → n < 10000 → parse_digits 4 (four_digits n) ≡ some n
unfolding parse_digits
parse_digits-four_digits n h = ground arith
