-- ===== src/VirtualDevice/Builders/Supported.antt =====
-- The codes that the virtual device lists.
use mtp_rs.Prelude.{
  ℕ, ◌+◌, ◌^◌, ◌≤◌, ◌<◌, ◌≡◌, refl, ap, Bool, true, false, List, [], ◌∷◌, ◌++◌, length, map, All,
  take, arith, suc,
}
use mtp_rs.Codes.NumEnum.{IsCode}
use mtp_rs.Codes.Operation
use mtp_rs.Codes.Operation.{OperationCode}
use mtp_rs.Codes.Event
use mtp_rs.Codes.Event.{EventCode}
use mtp_rs.Codes.Format
use mtp_rs.Codes.Format.{ObjectFormatCode}
use mtp_rs.Device.RoundTrip.{FitsCodes}
use mtp_rs.VirtualDevice.Builders.{VirtualDeviceConfig, operations, push_if}

-- Codes that are named, in a list that fits.
codes_in_range :
    {A : Type 0} (to_code : A → ℕ) (from_code : ℕ → A) (xs : List A)
    → All (IsCode to_code from_code) xs
    → All (λ v. v < 256 ^ 2) (map to_code xs) × (length (map to_code xs) ≡ length xs)
codes_in_range to_code from_code [] h = (tt, refl)
codes_in_range to_code from_code (x ∷ xs) h =
    let (range, same) = codes_in_range to_code from_code xs h.1 in
    ((h.0.in_range, range), ap suc same)

pub codes-FitsCodes :
    {A : Type 0} (to_code : A → ℕ) (from_code : ℕ → A) (xs : List A)
    → All (IsCode to_code from_code) xs
    → length xs ≤ 100
    → FitsCodes to_code from_code xs
codes-FitsCodes to_code from_code xs h short =
    let (range, same) = codes_in_range to_code from_code xs h in
    record { array = record { count_fits = omega (arith, same); elements_fit = range }; codes = h }

op :
    (v : OperationCode)
    → Operation.is_named v ≡ true
    → IsCode Operation.to_code Operation.from_code v
op v h = record { in_range = Operation.to_code-lt v h; decodes = Operation.from_code-to_code v h }

pub event : (v : EventCode) → Event.is_named v ≡ true → IsCode Event.to_code Event.from_code v
event v h = record { in_range = Event.to_code-lt v h; decodes = Event.from_code-to_code v h }

pub format :
    (v : ObjectFormatCode) → Format.is_named v ≡ true → IsCode Format.to_code Format.from_code v
format v h = record { in_range = Format.to_code-lt v h; decodes = Format.from_code-to_code v h }

-- Operations that survive the wire, at most `n` of them.
record Sent (n : ℕ) (ops : List OperationCode) : Type 0 where
  codes : All (IsCode Operation.to_code Operation.from_code) ops
  short : length ops ≤ n

push_if-Sent :
    (b : Bool) (v : OperationCode) (n : ℕ) (ops : List OperationCode)
    → Operation.is_named v ≡ true
    → Sent n ops
    → Sent (n + 1) (push_if b v ++ ops)
push_if-Sent true v n ops h s =
    let short = s.short in record { codes = (op v h, s.codes); short = omega arith }
push_if-Sent false v n ops h s =
    let short = s.short in record { codes = s.codes; short = omega arith }

last-Sent : (b : Bool) (v : OperationCode) → Operation.is_named v ≡ true → Sent 1 (push_if b v)
last-Sent true v h = record { codes = (op v h, tt); short = omega arith }
last-Sent false v h = record { codes = tt; short = omega arith }

named-Sent :
    (named ops : List OperationCode) (n : ℕ)
    → All (λ v. Operation.is_named v ≡ true) named
    → Sent n ops
    → Sent (length named + n) (named ++ ops)
named-Sent [] ops n h s = let short = s.short in record { codes = s.codes; short = omega arith }
named-Sent (v ∷ named) ops n h s =
    let later = named-Sent named ops n h.1 s in
    let short = later.short in record { codes = (op v h.0, later.codes); short = omega arith }

pub operations-FitsCodes :
    (c : VirtualDeviceConfig) → FitsCodes Operation.to_code Operation.from_code (operations c)
unfolding operations
operations-FitsCodes c =
    let all =
      named-Sent (take 15 (operations c)) _ 4
        (
          refl,
          (
            refl,
            (
              refl,
              (
                refl,
                (
                  refl,
                  (
                    refl,
                    (refl, (refl, (refl, (refl, (refl, (refl, (refl, (refl, (refl, tt))))))))),
                  ),
                ),
              ),
            ),
          ),
        )
        (push_if-Sent c.supports_partial_object Operation.get_partial_object 3 _ refl (
          push_if-Sent c.supports_partial_object_64 Operation.get_partial_object64 2 _ refl (
            push_if-Sent c.supports_rename Operation.set_object_prop_value 1 _ refl
              (last-Sent c.supports_object_prop_list Operation.get_object_prop_list refl)))) in
    let short = all.short in
    codes-FitsCodes Operation.to_code Operation.from_code (operations c) all.codes (omega arith)
