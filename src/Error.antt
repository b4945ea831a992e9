-- ===== src/Error.antt =====
-- crates/mtp-rs/src/error.rs: `PtpError`, and what a fallible function returns.
pub mod Ensures
use mtp_rs.Prelude.{ℕ, List, [], ◌∷◌, Bool, true, false, Option, none, some}
use mtp_rs.Codes.Response.{ResponseCode}
use mtp_rs.Codes.Response
use mtp_rs.Codes.Operation.{OperationCode}

-- The `message` of `PtpError::InvalidData`: one constructor for each format string of the code
-- that is modelled, over the values that it prints.
pub data Message : Type 0 where
  -- "insufficient bytes for …: need {}, have {}"
  insufficient_bytes : ℕ → ℕ → Message
  -- "… container too small: need at least {} bytes, have {}"
  container_too_small : ℕ → ℕ → Message
  invalid_container_type : ℕ → Message
  -- "expected … container type ({}), got {}"
  wrong_container_type : ℕ → ℕ → Message
  -- "… container length too small: {} < header size {}"
  length_too_small : ℕ → ℕ → Message
  -- "… container length mismatch: header says {}, have {}"
  length_mismatch : ℕ → ℕ → Message
  params_not_aligned : ℕ → Message
  invalid_event_size : ℕ → Message
  event_buffer_too_small : ℕ → ℕ → Message
  -- "insufficient bytes for string length"
  missing_string_length : Message
  -- "DevicePropDesc: insufficient bytes for GetSet", "… for FormFlag"
  missing_get_set missing_form_flag : Message
  invalid_datetime : Message
  unsupported_data_type : Message
  unsupported_array_type : ℕ → Message
  array_too_long : Message
  truncated_property : Message
  empty_response : Message
  incomplete_data_container : Message
  unexpected_container_type : Message
  -- "SendObjectInfo response missing params", "CopyObject response missing handle"
  missing_params missing_handle : Message
  -- "Transaction ID mismatch: expected {}, got {}"
  transaction_mismatch : ℕ → ℕ → Message

-- The classification that the USB library gives a failure, `nusb::ErrorKind`: only whether it is
-- `Busy` is read.
pub data UsbErrorKind : Type 0 where
  busy not_busy : UsbErrorKind

pub data PtpError : Type 0 where
  usb : UsbErrorKind → PtpError
  protocol : ResponseCode → OperationCode → PtpError
  invalid_data : Message → PtpError
  io timeout disconnected session_not_open no_device cancelled : PtpError
  string_too_long : ℕ → PtpError
  device_reset : PtpError

-- `Result<A, PtpError>`, and a panic: a slice or an index out of range.
pub data Result {ℓ} (A : Type ℓ) : Type ℓ where
  ok : A → Result A
  err : PtpError → Result A
  panic : Result A

infixl 5 ◌>>=◌ ◌>>◌
abbrev pub ◌>>=◌ {ℓ κ} : {A : Type ℓ} {B : Type κ} → Result A → (A → Result B) → Result B
ok a >>= f = f a
err e >>= f = err e
panic >>= f = panic

abbrev pub ◌>>◌ {ℓ} : {B : Type ℓ} → Result (Unit {0}) → Result B → Result B
m >> k = m >>= λ _. k

-- `if test { return Err(PtpError::invalid_data(message)); }`
abbrev pub reject_if : Bool → Message → Result (Unit {0})
reject_if true m = err (invalid_data m)
reject_if false m = ok tt

-- `PtpError::is_retryable`
abbrev pub is_retryable : PtpError → Bool
is_retryable (protocol code operation) = Response.is_device_busy code
is_retryable timeout = true
is_retryable _ = false

-- `PtpError::response_code`
abbrev pub response_code : PtpError → Option ResponseCode
response_code (protocol code operation) = some code
response_code _ = none

-- `PtpError::is_exclusive_access`
abbrev pub is_exclusive_access : PtpError → Bool
is_exclusive_access (usb busy) = true
is_exclusive_access _ = false
