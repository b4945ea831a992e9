-- ===== src/Error/Ensures.antt =====
-- What a fallible computation ensures: no panic, and a postcondition on what it returns.
use mtp_rs.Prelude.{◌≡◌, ◌≢◌, refl, if◌then◌else◌, Bool, true, false}
use mtp_rs.Error.{Message, PtpError, Result, ok, err, panic, ◌>>=◌, reject_if}

-- An error is always allowed, a panic never.
pub data Ensures {ℓ κ} {A : Type ℓ} (Q : A → Type κ) : Result A → Type (ℓ ⊔ κ) where
  returns : {a : A} → Q a → Ensures Q (ok a)
  fails : {e : PtpError} → Ensures Q (err e)

pub Ensures-bind {ℓ κ ι μ} :
    {A : Type ℓ} {B : Type κ} {P : A → Type ι} {Q : B → Type μ} {m : Result A} {f : A → Result B}
    → Ensures P m
    → ((a : A) → P a → Ensures Q (f a))
    → Ensures Q (m >>= f)
Ensures-bind (returns p) k = k _ p
Ensures-bind fails k = fails

pub Ensures-reject_if {ℓ κ} :
    {B : Type ℓ} {Q : B → Type κ} (b : Bool) (m : Message) {k : Result B}
    → (b ≡ false → Ensures Q k)
    → Ensures Q (reject_if b m >>= λ _. k)
Ensures-reject_if true m h = fails
Ensures-reject_if false m h = h refl

pub Ensures-if {ℓ κ} :
    {B : Type ℓ} {Q : B → Type κ} (b : Bool) {k l : Result B}
    → (b ≡ true → Ensures Q k)
    → (b ≡ false → Ensures Q l)
    → Ensures Q (if b then k else l)
Ensures-if true h g = h refl
Ensures-if false h g = g refl

pub Ensures-ne-panic {ℓ κ} : {A : Type ℓ} {Q : A → Type κ} {m : Result A} → Ensures Q m → m ≢ panic
Ensures-ne-panic (returns q) e = cc
Ensures-ne-panic fails e = cc

pub Ensures-ok {ℓ κ} : {A : Type ℓ} {Q : A → Type κ} {a : A} → Ensures Q (ok a) → Q a
Ensures-ok (returns q) = q

pub Ensures-weaken {ℓ κ ι} :
    {A : Type ℓ} {P : A → Type κ} {Q : A → Type ι} {m : Result A}
    → ((a : A) → P a → Q a)
    → Ensures P m
    → Ensures Q m
Ensures-weaken h (returns p) = returns (h _ p)
Ensures-weaken h fails = fails
