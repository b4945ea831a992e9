-- ===== src/DateTime/Unix/Euclid.antt =====
-- Euclidean division by the three divisors of the calendar.
use mtp_rs.Prelude.{ℕ, ◌+◌, ◌*◌, ◌<◌, ◌≡◌, arith}
use mtp_rs.Prelude.Int.{ℤ, pos, negsuc, pos_part, neg_part, div_euclid, rem_euclid}

-- `z` is `q * n + r`, by their parts.
abbrev pub Divides : (n : ℕ) (z q : ℤ) (r : ℕ) → Type 0
Divides n z q r = pos_part z + neg_part q * n ≡ neg_part z + pos_part q * n + r

pub divide_400 :
    (z q : ℤ) (r : ℕ)
    → r < 400
    → Divides 400 z q r
    → (div_euclid z 400 ≡ q) × (rem_euclid z 400 ≡ r)
unfolding div_euclid rem_euclid
divide_400 (pos a) (pos b) r h e = ground arith
divide_400 (pos a) (negsuc b) r h e = absurd (omega arith)
divide_400 (negsuc a) (pos b) r h e = absurd (omega arith)
divide_400 (negsuc a) (negsuc b) r h e = ground arith

pub divide_146097 :
    (z q : ℤ) (r : ℕ)
    → r < 146097
    → Divides 146097 z q r
    → (div_euclid z 146097 ≡ q) × (rem_euclid z 146097 ≡ r)
unfolding div_euclid rem_euclid
divide_146097 (pos a) (pos b) r h e = ground arith
divide_146097 (pos a) (negsuc b) r h e = absurd (omega arith)
divide_146097 (negsuc a) (pos b) r h e = absurd (omega arith)
divide_146097 (negsuc a) (negsuc b) r h e = ground arith

pub divide_86400 :
    (z q : ℤ) (r : ℕ)
    → r < 86400
    → Divides 86400 z q r
    → (div_euclid z 86400 ≡ q) × (rem_euclid z 86400 ≡ r)
unfolding div_euclid rem_euclid
divide_86400 (pos a) (pos b) r h e = ground arith
divide_86400 (pos a) (negsuc b) r h e = absurd (omega arith)
divide_86400 (negsuc a) (pos b) r h e = absurd (omega arith)
divide_86400 (negsuc a) (negsuc b) r h e = ground arith

-- The quotient and the remainder make up the number again.
pub division_400 :
    (z : ℤ) → (rem_euclid z 400 < 400) × Divides 400 z (div_euclid z 400) (rem_euclid z 400)
unfolding div_euclid rem_euclid
division_400 (pos a) = omega arith
division_400 (negsuc a) = omega arith

pub division_146097 :
    (z : ℤ)
    → (rem_euclid z 146097 < 146097) × Divides 146097 z (div_euclid z 146097) (rem_euclid z 146097)
unfolding div_euclid rem_euclid
division_146097 (pos a) = omega arith
division_146097 (negsuc a) = omega arith

pub division_86400 :
    (z : ℤ)
    → (rem_euclid z 86400 < 86400) × Divides 86400 z (div_euclid z 86400) (rem_euclid z 86400)
unfolding div_euclid rem_euclid
division_86400 (pos a) = omega arith
division_86400 (negsuc a) = omega arith
