-- ===== src/Container/Tests.antt =====
-- Concrete runs of the container code, and its theorems at concrete inputs.
use mtp_rs.Prelude.{◌≡◌, refl, [], ◌∷◌, ◌++◌, arith}
use mtp_rs.Codes.NumEnum.{IsCode}
use mtp_rs.Codes.Operation
use mtp_rs.Codes.Operation.{get_object}
use mtp_rs.Codes.Response
use mtp_rs.Codes.Event
use mtp_rs.Codes.Event.{object_added}
use mtp_rs.Error.{ok}
use mtp_rs.Error.Ensures.{Ensures}
use mtp_rs.Pack.Slice.{Bytes}
use mtp_rs.Container.{
  DataContainer, data_bytes, parse_data, build_response, parse_response, build_event, parse_event,
}
use mtp_rs.Container.RoundTrip.{
  FitsData, FitsResponse, parse_data-data_bytes, parse_response-build_response,
  parse_event-build_event,
}

abbrev chunk : DataContainer
chunk = record { code = get_object; transaction_id = 7; payload = 1 ∷ 2 ∷ 3 ∷ [] }

chunk-FitsData : FitsData chunk
chunk-FitsData = record {
  code = record {
    in_range = Operation.to_code-lt get_object refl;
    decodes = Operation.from_code-to_code get_object refl;
  };
  transaction = omega arith;
  size = omega arith;
}

parse_data-data_bytes_example : parse_data (data_bytes chunk ++ 9 ∷ []) ≡ ok chunk
parse_data-data_bytes_example = parse_data-data_bytes chunk (9 ∷ []) chunk-FitsData

reply-FitsResponse : FitsResponse 0x2001 7 (0x10001 ∷ [])
reply-FitsResponse = record {
  code_fits = omega arith;
  transaction = omega arith;
  params_fit = (omega arith, tt);
  size = omega arith;
}

parse_response-build_response_example :
    parse_response (build_response 0x2001 7 (0x10001 ∷ []) ++ 9 ∷ [])
    ≡ ok (record { code = Response.from_code 0x2001; transaction_id = 7; params = 0x10001 ∷ [] })
parse_response-build_response_example =
    parse_response-build_response 0x2001 7 (0x10001 ∷ []) (9 ∷ []) reply-FitsResponse

object_added-IsCode : IsCode Event.to_code Event.from_code object_added
object_added-IsCode = record {
  in_range = Event.to_code-lt object_added refl;
  decodes = Event.from_code-to_code object_added refl;
}

parse_event-build_event_example :
    parse_event (build_event object_added (5 ∷ 6 ∷ []) ++ 9 ∷ [])
    ≡ ok (record { code = object_added; transaction_id = 0; params = (5, 6, 0) })
parse_event-build_event_example =
    parse_event-build_event object_added (5 ∷ 6 ∷ []) (9 ∷ []) object_added-IsCode
      (omega arith, (omega arith, tt))

-- A response whose header announces more than is there.
abbrev cut : Bytes
cut = 16 ∷ 0 ∷ 0 ∷ 0 ∷ 3 ∷ 0 ∷ 1 ∷ 0x20 ∷ 7 ∷ 0 ∷ 0 ∷ 0 ∷ 1 ∷ []
