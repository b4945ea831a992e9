-- ===== src/Session/Operations.antt =====
-- The operations of crates/mtp-rs/src/ptp/session/operations.rs. Handles and storage IDs are the
-- numbers that they wrap.
pub mod Property
pub mod FullInfo
pub mod Answered
pub mod Received
pub mod Streamed
pub mod Upload
use mtp_rs.Prelude.{
  ℕ, ◌+◌, ◌*◌, ◌/◌, ◌%◌, ◌^◌, Bool, true, false, List, [], ◌∷◌, Option, none, some, ◌==◌,
  if◌then◌else◌,
}
use mtp_rs.Codes.Operation.{OperationCode}
use mtp_rs.Codes.Format
use mtp_rs.Codes.Format.{ObjectFormatCode}
use mtp_rs.Codes.ObjectProperty
use mtp_rs.Codes.ObjectProperty.{ObjectPropertyCode}
use mtp_rs.Error.{
  PtpError, Result, ok, err, panic, timeout, invalid_data, missing_params, missing_handle,
}
use mtp_rs.Pack.Slice.{Bytes}
use mtp_rs.Pack.Utf16.{Str}
use mtp_rs.Pack.Text.{pack_string}
use mtp_rs.Pack.Array.{unpack_u32_array}
use mtp_rs.Pack.Word.{unpack_u64}
use mtp_rs.Container.{ResponseContainer, EventContainer, parse_event}
use mtp_rs.Device.{
  DeviceInfo, parse_device_info, runs_android_mtp_server, StorageInfo, parse_storage_info,
}
use mtp_rs.Object.{ObjectInfo, parse_object_info, object_info_bytes, u32_max}
use mtp_rs.Session.{Session}
use mtp_rs.Session.Io.{
  Await, resumed, refused, abandoned, Transport, Exit, done, failed, panicked, dropped, running, Io,
  after, ◌>>=◌, ◌>>◌, pure, throw, await, lift,
}
use mtp_rs.Session.Execute.{execute, execute_with_send, execute_with_receive, check_response}

abbrev pub u32 : ℕ → ℕ
u32 n = n % 2 ^ 32

abbrev pub or_zero {ℓ} : {A : Type ℓ} → (A → ℕ) → ℕ → Option A → ℕ
or_zero f default none = default
or_zero f default (some a) = f a

-- The first three parameters of the response.
first_three : List ℕ → Result (ℕ × ℕ × ℕ)
first_three (a ∷ b ∷ c ∷ _) = ok (a, b, c)
first_three _ = err (invalid_data missing_params)

first_of : List ℕ → Result ℕ
first_of (a ∷ _) = ok a
first_of [] = err (invalid_data missing_handle)

-- `ObjectFormatCode::Undefined` asks for the default of the device.
capture_code : ObjectFormatCode → ℕ
capture_code ObjectFormatCode.undefined = 0
capture_code other = Format.to_code other

some_event : Result EventContainer → Exit (Option EventContainer)
some_event (ok e) = done (some e)
some_event (err e) = failed e
some_event panic = panicked

end_poll : {S : Type 0} → Session S → Await Bytes × S → Exit (Option EventContainer) × Session S
unfolding some_event
end_poll s (resumed bytes, t') = (some_event (parse_event bytes), record s { transport = t' })
end_poll s (refused timeout, t') = (done none, record s { transport = t' })
end_poll s (refused e, t') = (failed e, record s { transport = t' })
end_poll s (abandoned, t') = (dropped, record s { transport = t' })

module _ {S : Type 0} (t : Transport S) where
  -- The three ways in which the operations run a transaction, with `check_response` behind it.
  unfoldable pub ask : OperationCode → List ℕ → Io (Session S) ResponseContainer
  ask operation params = do
    r ← execute t operation params
    lift (check_response r operation)
    pure r

  unfoldable pub store : OperationCode → List ℕ → Bytes → Io (Session S) ResponseContainer
  store operation params payload = do
    r ← execute_with_send t operation params payload
    lift (check_response r operation)
    pure r

  unfoldable pub fetch : (fuel : ℕ) → OperationCode → List ℕ → Io (Session S) Bytes
  fetch fuel operation params = do
    received ← execute_with_receive fuel t operation params
    lift (check_response (received.0) operation)
    pure (received.1)

  -- A method of the transport that awaits nothing.
  unfoldable pub set_drain_on_cancel : Bool → Io (Session S) (Unit {0})
  set_drain_on_cancel enabled s =
      (done tt, record s { transport = t.set_drain_on_cancel enabled s.transport })

  unfoldable pub get_device_info : (fuel : ℕ) → Io (Session S) DeviceInfo
  get_device_info fuel = do
    bytes ← fetch fuel OperationCode.get_device_info []
    info ← lift (parse_device_info bytes)
    set_drain_on_cancel (runs_android_mtp_server info)
    pure info

  unfoldable pub get_storage_ids : (fuel : ℕ) → Io (Session S) (List ℕ)
  get_storage_ids fuel = do
    bytes ← fetch fuel OperationCode.get_storage_ids []
    ids ← lift (unpack_u32_array bytes)
    pure (ids.0)

  unfoldable pub get_storage_info : (fuel : ℕ) → ℕ → Io (Session S) StorageInfo
  get_storage_info fuel storage_id = do
    bytes ← fetch fuel OperationCode.get_storage_info (storage_id ∷ [])
    lift (parse_storage_info bytes)

  unfoldable pub get_object_handles :
      (fuel : ℕ) → ℕ → Option ObjectFormatCode → Option ℕ → Io (Session S) (List ℕ)
  get_object_handles fuel storage_id format parent = do
    bytes ←
        fetch fuel OperationCode.get_object_handles
          (storage_id ∷ or_zero Format.to_code 0 format ∷ or_zero (λ p. p) 0 parent ∷ [])
    handles ← lift (unpack_u32_array bytes)
    pure (handles.0)

  unfoldable pub get_object_info : (fuel : ℕ) → ℕ → Io (Session S) ObjectInfo
  get_object_info fuel handle = do
    bytes ← fetch fuel OperationCode.get_object_info (handle ∷ [])
    lift (parse_object_info bytes)

  unfoldable pub get_object_prop_value : (fuel : ℕ) → ℕ → ObjectPropertyCode → Io (Session S) Bytes
  get_object_prop_value fuel handle property =
      fetch fuel OperationCode.get_object_prop_value (handle ∷ ObjectProperty.to_code property ∷ [])

  unfoldable pub get_object : (fuel : ℕ) → ℕ → Io (Session S) Bytes
  get_object fuel handle = fetch fuel OperationCode.get_object (handle ∷ [])

  -- `offset as u32`
  unfoldable pub get_partial_object : (fuel : ℕ) → ℕ → (offset max_bytes : ℕ) → Io (Session S) Bytes
  get_partial_object fuel handle offset max_bytes =
      fetch fuel OperationCode.get_partial_object (handle ∷ u32 offset ∷ max_bytes ∷ [])

  unfoldable pub get_partial_object64 :
      (fuel : ℕ) → ℕ → (offset max_bytes : ℕ) → Io (Session S) Bytes
  get_partial_object64 fuel handle offset max_bytes =
      fetch fuel OperationCode.get_partial_object64
        (handle ∷ u32 offset ∷ u32 (offset / 2 ^ 32) ∷ max_bytes ∷ [])

  unfoldable pub get_thumb : (fuel : ℕ) → ℕ → Io (Session S) Bytes
  get_thumb fuel handle = fetch fuel OperationCode.get_thumb (handle ∷ [])

  unfoldable pub get_object_prop_list :
      (fuel : ℕ)
      → ℕ
      → Option ObjectFormatCode
      → Option ObjectPropertyCode
      → (group depth : ℕ) → Io (Session S) Bytes
  get_object_prop_list fuel handle format property group depth =
      fetch fuel OperationCode.get_object_prop_list (
        handle
        ∷ or_zero Format.to_code 0 format
        ∷ or_zero ObjectProperty.to_code 0xFFFFFFFF property
        ∷ group
        ∷ depth
        ∷ [])

  unfoldable pub send_object_info :
      (storage_id parent : ℕ) → ObjectInfo → Io (Session S) (ℕ × ℕ × ℕ)
  unfolding first_three
  send_object_info storage_id parent info = do
    bytes ← lift (object_info_bytes info)
    r ← store OperationCode.send_object_info (storage_id ∷ parent ∷ []) bytes
    lift (first_three r.params)

  unfoldable pub send_object : Bytes → Io (Session S) (Unit {0})
  send_object payload = do _ ← store OperationCode.send_object [] payload; pure tt

  unfoldable pub delete_object : ℕ → Io (Session S) (Unit {0})
  delete_object handle = do _ ← ask OperationCode.delete_object (handle ∷ 0 ∷ []); pure tt

  unfoldable pub move_object : (handle storage_id parent : ℕ) → Io (Session S) (Unit {0})
  move_object handle storage_id parent = do
    _ ← ask OperationCode.move_object (handle ∷ storage_id ∷ parent ∷ [])
    pure tt

  unfoldable pub copy_object : (handle storage_id parent : ℕ) → Io (Session S) ℕ
  unfolding first_of
  copy_object handle storage_id parent = do
    r ← ask OperationCode.copy_object (handle ∷ storage_id ∷ parent ∷ [])
    lift (first_of r.params)

  unfoldable pub set_object_prop_value : ℕ → ObjectPropertyCode → Bytes → Io (Session S) (Unit {0})
  set_object_prop_value handle property value = do
    _ ←
        store OperationCode.set_object_prop_value (handle ∷ ObjectProperty.to_code property ∷ [])
          value
    pure tt

  unfoldable pub rename_object : ℕ → Str → Io (Session S) (Unit {0})
  rename_object handle new_name = do
    name_bytes ← lift (pack_string new_name)
    set_object_prop_value handle ObjectPropertyCode.object_file_name name_bytes

  unfoldable pub initiate_capture : (storage_id : ℕ) → ObjectFormatCode → Io (Session S) (Unit {0})
  unfolding capture_code
  initiate_capture storage_id format = do
    _ ← ask OperationCode.initiate_capture (storage_id ∷ capture_code format ∷ [])
    pure tt

  -- `poll_event`, on the interrupt pipe: it takes no transaction.
  unfoldable pub poll_event : Io (Session S) (Option EventContainer)
  unfolding end_poll
  poll_event s = end_poll s (t.receive_interrupt s.transport)
