-- ===== src/Container/RoundTrip.antt =====
-- Parsing what the other side serialized.
use mtp_rs.Prelude.{
  ℕ, ◌+◌, ◌-◌, ◌*◌, ◌/◌, ◌%◌, ◌^◌, ◌<◌, ◌≡◌, refl, ◌∙◌, List, [], ◌∷◌, ◌++◌, length, flat, ltb,
  le→ltb, length-append, append_assoc, All, sym, false, arith,
}
use mtp_rs.Codes.Operation
use mtp_rs.Codes.Response
use mtp_rs.Codes.Response.{ResponseCode}
use mtp_rs.Codes.Event
use mtp_rs.Codes.Event.{EventCode}
use mtp_rs.Codes.NumEnum.{IsCode}
use mtp_rs.Container.{
  header_size, parse_header, header_bytes, DataContainer, data_bytes, parse_data, parse_response,
  parse_params, build_response, parse_event, event_param, build_event,
}
use mtp_rs.Error.{ok}
use mtp_rs.Pack.Slice.{Bytes, slice, slice_middle, At, At-zero, At-add}
use mtp_rs.Pack.Array.{unpack_elements-flat}
use mtp_rs.Pack.Word.{le_bytes, from_le, unpack_word, from_le-le_bytes, length-flat_words, pack_u32}

pub parse_header-cons :
    (b0 b1 b2 b3 b4 b5 b6 b7 b8 b9 b10 b11 : ℕ) (rest : Bytes)
    → parse_header (b0 ∷ b1 ∷ b2 ∷ b3 ∷ b4 ∷ b5 ∷ b6 ∷ b7 ∷ b8 ∷ b9 ∷ b10 ∷ b11 ∷ rest)
      ≡ ok (record {
        total_length = from_le (b0 ∷ b1 ∷ b2 ∷ b3 ∷ []);
        kind = from_le (b4 ∷ b5 ∷ []);
        code = from_le (b6 ∷ b7 ∷ []);
        transaction_id = from_le (b8 ∷ b9 ∷ b10 ∷ b11 ∷ []);
      })
unfolding parse_header slice unpack_word
parse_header-cons b0 b1 b2 b3 b4 b5 b6 b7 b8 b9 b10 b11 rest = ground arith

-- The header that was written is read, whatever follows it.
pub parse_header-header_bytes :
    (n k c t : ℕ) (rest : Bytes)
    → n < 2 ^ 32
    → k < 2 ^ 16
    → c < 2 ^ 16
    → t < 2 ^ 32
    → parse_header (header_bytes n k c t ++ rest)
      ≡ ok (record { total_length = n; kind = k; code = c; transaction_id = t })
unfolding header_bytes
parse_header-header_bytes n k c t rest hn hk hc ht =
    let below : n % 2 ^ 32 ≡ n = omega arith in
    rw below (
      unfold le_bytes in
      parse_header-cons _ _ _ _ _ _ _ _ _ _ _ _ rest
      ∙ cc (
        from_le-le_bytes 4 n hn,
        from_le-le_bytes 2 k hk,
        from_le-le_bytes 2 c hc,
        from_le-le_bytes 4 t ht,
      ))

pub length-header_bytes : (n k c t : ℕ) → length (header_bytes n k c t) ≡ 12
unfolding header_bytes le_bytes
length-header_bytes n k c t = refl

-- What a data container can carry: fields that fit, and a payload whose length fits 32 bits.
pub record FitsData (c : DataContainer) : Type 0 where
  pub code : IsCode Operation.to_code Operation.from_code c.code
  pub transaction : c.transaction_id < 2 ^ 32
  pub size : 12 + length c.payload < 2 ^ 32

-- A data container whose code and transaction ID fit and whose length fits 32 bits is serialized,
-- and parsing the bytes gives the container back, whatever follows them.
pub parse_data-data_bytes :
    (c : DataContainer) (rest : Bytes) → FitsData c → parse_data (data_bytes c ++ rest) ≡ ok c
unfolding parse_data data_bytes
parse_data-data_bytes c rest fits =
    rw (append_assoc header c.payload rest, head, size, enough, middle, fits.code.decodes)
  where
    header : Bytes
    header = header_bytes (12 + length c.payload) 2 (Operation.to_code c.code) c.transaction_id

    header_length : length header ≡ 12
    header_length = length-header_bytes _ _ _ _

    size : ltb (12 + length c.payload) header_size ≡ false
    size = le→ltb _ _ (omega arith)

    enough : ltb (length (header ++ (c.payload ++ rest))) (12 + length c.payload) ≡ false
    enough = le→ltb _ _ (
        omega (
          arith,
          length-append header (c.payload ++ rest),
          length-append c.payload rest,
          header_length,
        ))

    middle :
        slice (header ++ (c.payload ++ rest)) header_size (12 + length c.payload) ≡ ok c.payload
    middle =
        slice_middle header c.payload rest _ _ (sym header_length) (omega (arith, header_length))

    head :
        parse_header (header ++ (c.payload ++ rest))
        ≡ ok (record {
          total_length = 12 + length c.payload;
          kind = 2;
          code = Operation.to_code c.code;
          transaction_id = c.transaction_id;
        })
    head =
        parse_header-header_bytes _ _ _ _ _ fits.size (omega arith) fits.code.in_range
          fits.transaction

-- What a response can carry: parameters of 32 bits, and few enough that the length fits 32 bits.
pub record FitsResponse (code transaction_id : ℕ) (params : List ℕ) : Type 0 where
  pub code_fits : code < 2 ^ 16
  pub transaction : transaction_id < 2 ^ 32
  pub params_fit : All (λ p. p < 2 ^ 32) params
  pub size : 12 + length params * 4 < 2 ^ 32

-- A response that the virtual device builds, from a 16-bit code, a 32-bit transaction ID and
-- 32-bit parameters whose length fits 32 bits, is parsed to that code, ID and parameters, whatever
-- follows it.
pub parse_response-build_response :
    (code transaction_id : ℕ) (params : List ℕ) (rest : Bytes)
    → FitsResponse code transaction_id params
    → parse_response (build_response code transaction_id params ++ rest)
      ≡ ok (record {
        code = Response.from_code code;
        transaction_id = transaction_id;
        params = params;
      })
unfolding parse_response build_response
parse_response-build_response code transaction_id params rest fits =
    rw (append_assoc header words rest, head, size, enough, aligned, count, found)
  where
    header : Bytes
    header = header_bytes (12 + length params * 4) 3 code transaction_id

    words : Bytes
    words = flat pack_u32 params

    header_length : length header ≡ 12
    header_length = length-header_bytes _ _ _ _

    size : ltb (12 + length params * 4) header_size ≡ false
    size = le→ltb _ _ (omega arith)

    enough : ltb (length (header ++ (words ++ rest))) (12 + length params * 4) ≡ false
    enough = le→ltb _ _ (
        omega (
          arith,
          length-append header (words ++ rest),
          length-append words rest,
          length-flat_words 4 params,
          header_length,
        ))

    aligned : (12 + length params * 4 - header_size) % 4 ≡ 0
    aligned = omega arith

    count : (12 + length params * 4 - header_size) / 4 ≡ length params
    count = omega arith

    tail : At (header ++ (words ++ rest)) (header_size + 0 * 4) (words ++ rest)
    tail =
        let start : 0 + length header ≡ header_size + 0 * 4 = omega (arith, header_length) in
        rw start at (At-add header (words ++ rest) (At-zero (header ++ (words ++ rest))))

    found : parse_params (header ++ (words ++ rest)) (length params) 0 ≡ ok params
    found = unpack_elements-flat 4 header_size _ rest params 0 fits.params_fit tail

    head :
        parse_header (header ++ (words ++ rest))
        ≡ ok (record {
          total_length = 12 + length params * 4;
          kind = 3;
          code = code;
          transaction_id = transaction_id;
        })
    head =
        parse_header-header_bytes _ _ _ _ _ fits.size (omega arith) fits.code_fits fits.transaction

-- The first three parameters, 0 for a missing one.
abbrev pub first_three : List ℕ → ℕ × ℕ × ℕ
first_three [] = (0, 0, 0)
first_three (a ∷ []) = (a, 0, 0)
first_three (a ∷ b ∷ []) = (a, b, 0)
first_three (a ∷ b ∷ c ∷ _) = (a, b, c)

event_head :
    (n c : ℕ) (words : Bytes)
    → c < 2 ^ 16
    → n < 2 ^ 32
    → parse_header (header_bytes n 4 c 0 ++ words)
      ≡ ok (record { total_length = n; kind = 4; code = c; transaction_id = 0 })
event_head n c words h hn = parse_header-header_bytes n 4 c 0 words hn (omega arith) h (omega arith)

-- An event that the virtual device builds, from a code of its enumeration and any number of 32-bit
-- parameters, is parsed to that code, transaction 0 and the first three parameters, the missing
-- ones 0, whatever follows it.
pub parse_event-build_event :
    (code : EventCode) (params : List ℕ) (rest : Bytes)
    → IsCode Event.to_code Event.from_code code
    → All (λ p. p < 2 ^ 32) params
    → parse_event (build_event code params ++ rest)
      ≡ ok (record { code = code; transaction_id = 0; params = first_three params })
unfolding parse_event build_event event_param slice unpack_word header_bytes le_bytes
parse_event-build_event code [] rest h k =
    ground (arith, event_head 12 (Event.to_code code) rest h.in_range, h.decodes)
parse_event-build_event code (a ∷ []) rest h k = ground (
  arith,
  event_head 16 (Event.to_code code) (le_bytes 4 a ++ rest) h.in_range,
  h.decodes,
  from_le-le_bytes 4 a k.0,
)
parse_event-build_event code (a ∷ b ∷ []) rest h k = ground (
  arith,
  event_head 20 (Event.to_code code) (le_bytes 4 a ++ (le_bytes 4 b ++ rest)) h.in_range,
  h.decodes,
  from_le-le_bytes 4 a k.0,
  from_le-le_bytes 4 b k.1.0,
)
parse_event-build_event code (a ∷ b ∷ c ∷ more) rest h k = ground (
  arith,
  event_head 24 (Event.to_code code) (le_bytes 4 a ++ (le_bytes 4 b ++ (le_bytes 4 c ++ rest)))
      h.in_range,
  h.decodes,
  from_le-le_bytes 4 a k.0,
  from_le-le_bytes 4 b k.1.0,
  from_le-le_bytes 4 c k.1.1.0,
)
