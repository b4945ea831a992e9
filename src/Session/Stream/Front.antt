-- ===== src/Session/Stream/Front.antt =====
-- What the header that stands at the front of the buffer makes of the stream.
use mtp_rs.Prelude.{
  ℕ, ◌-◌, ◌^◌, ◌<◌, ◌≤◌, ◌≡◌, refl, ◌∙◌, ap, true, false, [], ◌++◌, some, drop, ltb, ◌==◌, le→ltb,
  arith,
}
use mtp_rs.Codes.Response
use mtp_rs.Error.{Result, ok}
use mtp_rs.Pack.Slice.{Bytes}
use mtp_rs.Container.{
  header_bytes, from_type_code, build_response, ResponseContainer, data_container, response,
  parse_response,
}
use mtp_rs.Container.RoundTrip.{parse_response-build_response}
use mtp_rs.Session.Stream.{
  ReceiveStream, Header, payload_follows, closed, checked, consume_container_header,
  read_data_header, read_reply, large_object_length_sentinel,
}
use mtp_rs.Session.Stream.Wire.{container_type-header_bytes, front_length-header_bytes}

checked_ok {ℓ} :
    {A : Type ℓ} {m : Result A} {a : A} (s : ReceiveStream) (k : A → Result Header × ReceiveStream)
    → m ≡ ok a
    → checked m s k ≡ k a
checked_ok s k e = rw e

-- The stream behind the header of a data container of `n` bytes.
abbrev pub opened : ReceiveStream → ℕ → ReceiveStream
opened s n = record s {
  buffer = drop 12 s.buffer;
  large_object = false;
  payload_remaining = some (n - 12);
  payload_yielded = 0;
  in_payload = true;
  saw_data_container = true;
}

module _ (s : ReceiveStream) (d : Bytes) where
  pub consume_data :
      (n code tx : ℕ)
      → s.buffer ≡ header_bytes n 2 code tx ++ d
      → 12 ≤ n
      → n < 0xFFFFFFFF
      → consume_container_header s ≡ (ok payload_follows, opened s n)
  unfolding consume_container_header
  consume_data n code tx e low high =
      let kind =
        ap mtp_rs.Container.container_type e
        ∙ container_type-header_bytes n 2 code tx d data_container (omega arith)
            (unfold from_type_code in refl) in
      let size =
        ap mtp_rs.Session.Stream.front_length e
        ∙ front_length-header_bytes n 2 code tx d (omega arith) in
      let ordinary : n == large_object_length_sentinel ≡ false = ground arith in
      let enough : ltb n 12 ≡ false = le→ltb _ _ low in
      checked_ok s _ kind ∙ (checked_ok s _ size ∙ unfold read_data_header in rw (ordinary, enough))

  -- The sentinel: the length is the one that the caller expects.
  pub consume_large :
      (code tx : ℕ)
      → s.buffer ≡ header_bytes 0xFFFFFFFF 2 code tx ++ d
      → consume_container_header s ≡ (
        ok payload_follows,
        record s {
          buffer = drop 12 s.buffer;
          large_object = true;
          payload_remaining = s.expected_payload_len;
          payload_yielded = 0;
          in_payload = true;
          saw_data_container = true;
        },
      )
  unfolding consume_container_header read_data_header
  consume_large code tx e =
      let kind =
        ap mtp_rs.Container.container_type e
        ∙ container_type-header_bytes 0xFFFFFFFF 2 code tx d data_container (omega arith)
            (unfold from_type_code in refl) in
      let size =
        ap mtp_rs.Session.Stream.front_length e
        ∙ front_length-header_bytes 0xFFFFFFFF 2 code tx d (omega arith) in
      checked_ok s _ kind ∙ checked_ok s _ size

  -- A response that closes the transfer.
  pub consume_reply :
      (tx : ℕ)
      → s.transaction_id ≡ tx
      → s.buffer ≡ build_response 0x2001 tx [] ++ d
      → tx < 2 ^ 32
      → consume_container_header s ≡ (ok closed, s)
  unfolding consume_container_header build_response header_bytes mtp_rs.Container.container_type
      mtp_rs.Pack.Word.le_bytes
  consume_reply tx own e fits =
      let kind =
        ap mtp_rs.Container.container_type e
        ∙ container_type-header_bytes 12 3 0x2001 tx d response (omega arith)
            (unfold from_type_code in refl) in
      let parsed =
        ap parse_response e
        ∙ parse_response-build_response 0x2001 tx [] d (record {
          code_fits = omega arith;
          transaction = fits;
          params_fit = tt;
          size = omega arith;
        }) in
      let same : tx == s.transaction_id ≡ true = ground arith in
      checked_ok s _ kind
      ∙ (checked_ok s _ parsed
          ∙ unfold read_reply in unfold Response.from_code in unfold Response.is_ok in rw same)
