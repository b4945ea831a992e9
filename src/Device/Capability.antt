-- ===== src/Device/Capability.antt =====
-- What the capability predicates of crates/mtp-rs/src/ptp/types/device.rs mean.
use mtp_rs.Prelude.{◌≡◌, refl, Bool, true, false, ◌&&◌, ◌||◌, List, [], ◌∷◌, ◌++◌, ap}
use mtp_rs.Codes.Operation.{OperationCode, OperationCode-discrete, send_object_info, send_object}
use mtp_rs.Device.{DeviceInfo, any, is_operation, supports_operation, supports_upload}

-- `x` stands somewhere in the list.
abbrev pub Listed {ℓ} : {A : Type ℓ} → A → List A → Type ℓ
Listed {A} x xs = (before : List A) × (behind : List A) × (xs ≡ before ++ (x ∷ behind))

sound : {A : Type 0} (d : Dec A) → elim d [ yes _ ↦ true | no _ ↦ false ] ≡ true → A
sound (yes p) e = p
sound (no n) e = cc

complete : {A : Type 0} (d : Dec A) → A → elim d [ yes _ ↦ true | no _ ↦ false ] ≡ true
complete (yes p) a = refl
complete (no n) a = absurd (n a)

is_operation_sound : (a b : OperationCode) → is_operation a b ≡ true → a ≡ b
unfolding is_operation
is_operation_sound a b e = sound (OperationCode-discrete a b) e

is_operation_complete : (a b : OperationCode) → a ≡ b → is_operation a b ≡ true
unfolding is_operation
is_operation_complete a b e = complete (OperationCode-discrete a b) e

any-Listed :
    (op : OperationCode) (xs : List OperationCode)
    → any (λ x. is_operation x op) xs ≡ true
    → Listed op xs
any-Listed op [] e = cc
any-Listed op (x ∷ xs) e = split (is_operation x op) refl (λ k. any-Listed op xs k) e
  where
    split :
        (b : Bool)
        → is_operation x op ≡ b
        → (any (λ y. is_operation y op) xs ≡ true → Listed op xs)
        → (b || any (λ y. is_operation y op) xs) ≡ true
        → Listed op (x ∷ xs)
    split true h later e' = ([], xs, ap (λ y. y ∷ xs) (is_operation_sound x op h))
    split false h later e' =
        let (before, behind, same) = later e' in (x ∷ before, behind, ap (λ ys. x ∷ ys) same)

Listed-any :
    (op : OperationCode) (before behind : List OperationCode)
    → any (λ x. is_operation x op) (before ++ (op ∷ behind)) ≡ true
Listed-any op [] behind = rw (is_operation_complete op op refl)
Listed-any op (x ∷ before) behind = or-true (is_operation x op) (Listed-any op before behind)
  where
    or-true : (b : Bool) {c : Bool} → c ≡ true → (b || c) ≡ true
    or-true true e = refl
    or-true false e = e

supports_operation-Listed :
    (d : DeviceInfo) (op : OperationCode)
    → supports_operation d op ≡ true
    → Listed op d.operations_supported
unfolding supports_operation
supports_operation-Listed d op e = any-Listed op d.operations_supported e

Listed-supports_operation :
    (d : DeviceInfo) (op : OperationCode)
    → Listed op d.operations_supported
    → supports_operation d op ≡ true
unfolding supports_operation
Listed-supports_operation d op h =
    let (before, behind, same) = h in rw same (Listed-any op before behind)

both : (a b : Bool) → (a && b) ≡ true → (a ≡ true) × (b ≡ true)
both true b e = (refl, e)
both false b e = cc

-- A device supports an upload exactly if it lists both `SendObjectInfo` and `SendObject` among its
-- operations.
pub supports_upload-Listed :
    (d : DeviceInfo)
    → (supports_upload d ≡ true
        → Listed send_object_info d.operations_supported
          × Listed send_object d.operations_supported)
      × (Listed send_object_info d.operations_supported
          → Listed send_object d.operations_supported
          → supports_upload d ≡ true)
unfolding supports_upload
supports_upload-Listed d = (
  (λ e.
      let (info, object) = both (supports_operation d send_object_info) _ e in
      (
        supports_operation-Listed d send_object_info info,
        supports_operation-Listed d send_object object,
      )),
  λ info object.
      rw (Listed-supports_operation d send_object_info info)
        (Listed-supports_operation d send_object object),
)
