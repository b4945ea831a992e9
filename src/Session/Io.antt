-- ===== src/Session/Io.antt =====
-- What the session awaits: `trait Transport` of crates/mtp-rs/src/transport/mod.rs, as a parameter,
-- and the operations on it with the ways in which they can end.
use mtp_rs.Prelude.{ℕ, ◌≡◌, refl, Bool, true, false, List, if◌then◌else◌}
use mtp_rs.Error.{PtpError, Result, ok, err, panic}
use mtp_rs.Error.Ensures.{Ensures, returns}
use mtp_rs.Pack.Slice.{Bytes}

-- What an `.await` of a transport call comes to: its `Ok`, its `Err`, or never, because the caller
-- drops the future at this point.
pub data Await {ℓ} (A : Type ℓ) : Type ℓ where
  resumed : A → Await A
  refused : PtpError → Await A
  abandoned : Await A

-- The transport: any device and any caller, with a state that the calls move on. A stream of chunks
-- is the list of what its `next` comes to.
pub record Transport (S : Type 0) : Type 0 where
  pub send_bulk : Bytes → S → Await (Unit {0}) × S
  pub send_bulk_streaming : List (Await Bytes) → S → Await (Unit {0}) × S
  pub receive_bulk : ℕ → S → Await Bytes × S
  pub receive_interrupt : S → Await Bytes × S
  pub cancel_transfer : ℕ → S → Await (Unit {0}) × S
  pub set_drain_on_cancel : Bool → S → S
  pub drain_bulk_in : S → Await ℕ × S

-- How an operation ends: `Ok`, `Err`, a panic, dropped at an `.await`, or still running when the
-- fuel of the model is used up.
pub data Exit {ℓ} (A : Type ℓ) : Type ℓ where
  done : A → Exit A
  failed : PtpError → Exit A
  panicked dropped running : Exit A

abbrev pub Io {ℓ} : Type 0 → Type ℓ → Type ℓ
Io S A = S → Exit A × S

abbrev pub after {ℓ κ} :
    {S : Type 0} {A : Type ℓ} {B : Type κ} → Exit A × S → (A → S → Exit B × S) → Exit B × S
after (done a, s) k = k a s
after (failed e, s) k = (failed e, s)
after (panicked, s) k = (panicked, s)
after (dropped, s) k = (dropped, s)
after (running, s) k = (running, s)

infixl 5 ◌>>=◌ ◌>>◌
abbrev pub ◌>>=◌ {ℓ κ} : {S : Type 0} {A : Type ℓ} {B : Type κ} → Io S A → (A → Io S B) → Io S B
(m >>= k) s = after (m s) k

abbrev pub ◌>>◌ {ℓ} : {S : Type 0} {B : Type ℓ} → Io S (Unit {0}) → Io S B → Io S B
m >> k = m >>= λ _. k

abbrev pub pure {ℓ} : {S : Type 0} {A : Type ℓ} → A → Io S A
pure a s = (done a, s)

-- `return Err(…)`
abbrev pub throw {ℓ} : {S : Type 0} {A : Type ℓ} → PtpError → Io S A
throw e s = (failed e, s)

-- The fuel of the model is used up.
abbrev pub run_on {ℓ} : {S : Type 0} {A : Type ℓ} → Io S A
run_on s = (running, s)

-- `….await?`
abbrev pub settle {ℓ} : {S : Type 0} {A : Type ℓ} → Await A × S → Exit A × S
settle (resumed a, s) = (done a, s)
settle (refused e, s) = (failed e, s)
settle (abandoned, s) = (dropped, s)

abbrev pub await {ℓ} : {S : Type 0} {A : Type ℓ} → (S → Await A × S) → Io S A
await call s = settle (call s)

-- A call that awaits nothing.
abbrev pub lift {ℓ} : {S : Type 0} {A : Type ℓ} → Result A → Io S A
lift (ok a) s = (done a, s)
lift (err e) s = (failed e, s)
lift panic s = (panicked, s)

-- An operation that neither panics nor runs on, with what holds when it returns and what holds
-- when it fails or is dropped.
pub data Settles {ℓ κ ι} {S : Type 0} {A : Type ℓ} (Q : A → S → Type κ) (E : S → Type ι)
    : Exit A × S → Type (ℓ ⊔ κ ⊔ ι) where
  completes : {a : A} {s : S} → Q a s → Settles Q E (done a, s)
  fails : {e : PtpError} {s : S} → E s → Settles Q E (failed e, s)
  drops : {s : S} → E s → Settles Q E (dropped, s)

abbrev pub Anywhere : {S : Type 0} → S → Type 0
Anywhere s = Unit

pub Settles-after {ℓ κ ι μ ν} :
    {S : Type 0} {A : Type ℓ} {B : Type κ} {P : A → S → Type ι} {Q : B → S → Type μ}
    {E : S → Type ν} {x : Exit A × S} {k : A → S → Exit B × S}
    → Settles P E x
    → ((a : A) (s : S) → P a s → Settles Q E (k a s))
    → Settles Q E (after x k)
Settles-after (completes p) h = h _ _ p
Settles-after (fails e) h = fails e
Settles-after (drops e) h = drops e

pub Settles-settle {ℓ} :
    {S : Type 0} {A : Type ℓ} (x : Await A × S)
    → Settles (λ (a : A) (s : S). Unit {0}) Anywhere (settle x)
Settles-settle (resumed a, s) = completes tt
Settles-settle (refused e, s) = fails tt
Settles-settle (abandoned, s) = drops tt

pub Settles-await {ℓ} :
    {S : Type 0} {A : Type ℓ} (call : S → Await A × S) (s : S)
    → Settles (λ (a : A) (s : S). Unit {0}) Anywhere (await call s)
Settles-await call s = Settles-settle (call s)

pub Settles-lift {ℓ κ} :
    {S : Type 0} {A : Type ℓ} {Q : A → Type κ} {m : Result A} (s : S)
    → Ensures Q m
    → Settles (λ a _. Q a) Anywhere (lift m s)
Settles-lift s (returns q) = completes q
Settles-lift s Ensures.fails = fails tt

pub Settles-if {ℓ κ ι} :
    {S : Type 0} {A : Type ℓ} {Q : A → S → Type κ} {E : S → Type ι} (b : Bool) (m k : Io S A)
    {s : S}
    → (b ≡ true → Settles Q E (m s))
    → (b ≡ false → Settles Q E (k s))
    → Settles Q E ((if b then m else k) s)
Settles-if true m k f g = f refl
Settles-if false m k f g = g refl

-- A call that awaits nothing leaves the state alone.
pub Settles-after-lift {ℓ κ ι μ} :
    {S : Type 0} {A : Type ℓ} {B : Type κ} {P : A → Type ι} {Q : B → S → Type μ} {m : Result A}
    {s : S} (k : A → S → Exit B × S)
    → Ensures P m
    → ((a : A) → P a → Settles Q Anywhere (k a s))
    → Settles Q Anywhere (after (lift m s) k)
Settles-after-lift k (returns p) h = h _ p
Settles-after-lift k Ensures.fails h = fails tt

pub Settles-weaken {ℓ κ ι μ ν} :
    {S : Type 0} {A : Type ℓ} {P : A → S → Type κ} {Q : A → S → Type ι} {E : S → Type μ}
    {F : S → Type ν} {x : Exit A × S}
    → ((a : A) (s : S) → P a s → Q a s)
    → ((s : S) → E s → F s)
    → Settles P E x
    → Settles Q F x
Settles-weaken f g (completes p) = completes (f _ _ p)
Settles-weaken f g (fails e) = fails (g _ e)
Settles-weaken f g (drops e) = drops (g _ e)
