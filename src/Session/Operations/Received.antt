-- ===== src/Session/Operations/Received.antt =====
-- What the operations return when the device answers.
use mtp_rs.Prelude.{
  ℕ, ◌+◌, ◌<◌, ◌≡◌, refl, ◌∙◌, ap, sym, false, List, [], ◌∷◌, length, if◌then◌else◌, Bool-cases,
  inl, inr, arith,
}
use mtp_rs.Codes.Operation.{OperationCode}
use mtp_rs.Codes.Response
use mtp_rs.Codes.Response.{ResponseCode}
use mtp_rs.Error.{ok, protocol}
use mtp_rs.Pack.Slice.{Bytes}
use mtp_rs.Container.{command_bytes, DataContainer, ResponseContainer}
use mtp_rs.Container.RoundTrip.{FitsData, FitsResponse}
use mtp_rs.Object.{ObjectInfo, object_info_bytes, parse_object_info}
use mtp_rs.Object.RoundTrip.{FitsObjectInfo, received, parse_object_info-object_info_bytes}
use mtp_rs.Session.{Session, next}
use mtp_rs.Session.Io.{Transport, Exit, done, failed, after, lift}
use mtp_rs.Session.Execute.{check_response}
use mtp_rs.Session.Operations.{fetch, get_object_info}
use mtp_rs.Session.Operations.Answered.{Answers, execute_with_receive-Answers}

-- The outcome of a question: the payload, if the response code is `Ok`.
abbrev pub payload_or_refusal : OperationCode → ResponseCode → Bytes → Exit Bytes
payload_or_refusal operation code payload =
    if Response.is_ok code then done payload else failed (protocol code operation)

checked :
    {S : Type 0} (operation : OperationCode) (r : ResponseContainer) (payload : Bytes) (s : S)
    → after (lift (check_response r operation) s) (λ _ s'. (done payload, s'))
      ≡ (payload_or_refusal operation r.code payload, s)
checked operation r payload s = elim (Bool-cases (Response.is_ok r.code)) [
  | inl yes_ok ↦ rw yes_ok refl
  | inr not_ok ↦ rw not_ok refl
]

module _ {S : Type 0} (t : Transport S) (fuel : ℕ) (s : Session S) (c : DataContainer)
    (first : Bytes) (more : List Bytes) (last : S) where
  -- On a session that owes no recovery, with a device that takes the command and answers it by a
  -- data container of this transaction, in any reads of which the first holds the header, and by a
  -- response with any 16-bit code and 32-bit parameters: `fetch` returns the payload of the
  -- container when the code is `Ok` and fails with that code otherwise. Either way the session has
  -- read both, moved on to the next transaction ID and owes no recovery. The fuel is enough from
  -- two more than the number of reads.
  pub fetch-Answers :
      (operation : OperationCode) (params : List ℕ) (code : ℕ) (reply : List ℕ)
      → s.needed ≡ false
      → c.transaction_id ≡ s.transaction_id
      → FitsData c
      → FitsResponse code c.transaction_id reply
      → Answers t
          (command_bytes
            (record { code = operation; transaction_id = s.transaction_id; params = params }))
          c
          code
          reply
          first
          more
          s.transport
          last
      → length more + 1 < fuel
      → fetch t fuel operation params s ≡ (
        payload_or_refusal operation (Response.from_code code) c.payload,
        record s { transaction_id = next s.transaction_id; transport = last },
      )
  unfolding fetch
  fetch-Answers operation params code reply clean own fits fits_reply a enough =
      rw
        (execute_with_receive-Answers t fuel operation params s c code reply first more last clean
          own fits fits_reply a enough)
        (checked operation
          (record {
            code = Response.from_code code;
            transaction_id = s.transaction_id;
            params = reply;
          })
          c.payload _)

  -- The object info that a device sends is what `get_object_info` returns, with handle 0 and the size
  -- that its 32-bit field can hold: on a session that owes no recovery, when the device answers the
  -- command by a data container with the dataset of `o`, whose fields fit, in any reads of which the
  -- first holds the header, and by `Ok`. The session has then moved on to the next transaction ID
  -- and owes no recovery. The fuel is enough from two more than the number of reads.
  pub get_object_info-Answers :
      (handle : ℕ) (o : ObjectInfo)
      → s.needed ≡ false
      → c.transaction_id ≡ s.transaction_id
      → FitsData c
      → FitsObjectInfo o
      → object_info_bytes o ≡ ok c.payload
      → Answers t
          (command_bytes (record {
            code = OperationCode.get_object_info;
            transaction_id = s.transaction_id;
            params = handle ∷ [];
          }))
          c
          0x2001
          []
          first
          more
          s.transport
          last
      → length more + 1 < fuel
      → get_object_info t fuel handle s
        ≡ (done (received o), record s { transaction_id = next s.transaction_id; transport = last })
  unfolding get_object_info
  get_object_info-Answers handle o clean own fits fits_info wire a enough =
      let (bytes, e1, e2) = parse_object_info-object_info_bytes o fits_info in
      let parsed : parse_object_info c.payload ≡ ok (received o) =
        let same : bytes ≡ c.payload = cc in ap parse_object_info (sym same) ∙ e2 in
      let read =
        fetch-Answers OperationCode.get_object_info (handle ∷ []) 0x2001 [] clean own fits
          (record {
            code_fits = omega arith;
            transaction = fits.transaction;
            params_fit = tt;
            size = omega arith;
          })
          a enough in
      let fine : payload_or_refusal OperationCode.get_object_info (Response.from_code 0x2001)
            c.payload
          ≡ done c.payload =
        unfold Response.from_code in unfold Response.is_ok in refl in
      rw (read, fine, parsed) refl
