-- ===== src/Session/Tests/FullInfo.antt =====
-- The size of an object over 4 GiB, at a device that answers for it.
use mtp_rs.Prelude.{◌≡◌, refl, List, [], ◌∷◌, append-nil, arith}
use mtp_rs.Codes.Operation
use mtp_rs.Codes.Operation.{OperationCode}
use mtp_rs.Codes.Format
use mtp_rs.Codes.Format.{ObjectFormatCode}
use mtp_rs.Codes.Storage.Protection
use mtp_rs.Codes.Storage.Protection.{ProtectionStatus}
use mtp_rs.Codes.Storage.Association
use mtp_rs.Codes.Storage.Association.{AssociationType}
use mtp_rs.Error.{ok}
use mtp_rs.Pack.Slice.{Bytes}
use mtp_rs.Container.{DataContainer, data_bytes, build_response, command_bytes}
use mtp_rs.Container.RoundTrip.{FitsData}
use mtp_rs.Object.{ObjectInfo, object_info_bytes}
use mtp_rs.Session.{Session, new, next}
use mtp_rs.Session.Io.{done}
use mtp_rs.Session.Stream.Phases.{quiet}
use mtp_rs.Session.Operations.{get_object_info}
use mtp_rs.Session.Operations.Answered.{Answers}
use mtp_rs.Session.Operations.Received.{get_object_info-Answers}
use mtp_rs.Session.Tests.{queue, fifth}
use mtp_rs.Session.Operations.FullInfo.{
  Resolves, get_object_info_full, get_object_info_full-Resolves,
}
use mtp_rs.Session.Operations.{get_object_prop_value}
use mtp_rs.Codes.ObjectProperty.{ObjectPropertyCode}
use mtp_rs.Session.Tests.Operations.{sized, sized-FitsObjectInfo}

abbrev movie_wire : Bytes
movie_wire =
    1 ∷ 0 ∷ 1 ∷ 0 ∷ 1 ∷ 48 ∷ 0 ∷ 0 ∷ 255 ∷ 255 ∷ 255 ∷ 255 ∷ 0 ∷ 48 ∷ 0 ∷ 0 ∷ 0 ∷ 0 ∷ 0 ∷ 0 ∷ 0 ∷ 0
    ∷ 0 ∷ 0 ∷ 0 ∷ 0 ∷ 0 ∷ 0 ∷ 0 ∷ 0 ∷ 0 ∷ 0 ∷ 0 ∷ 0 ∷ 0 ∷ 0 ∷ 0 ∷ 0 ∷ 0 ∷ 0 ∷ 0 ∷ 0 ∷ 1 ∷ 0 ∷ 0 ∷ 0
    ∷ 0 ∷ 0 ∷ 0 ∷ 0 ∷ 0 ∷ 0 ∷ 0 ∷ 0 ∷ 0 ∷ 0 ∷ []

movie-wire : object_info_bytes (sized 0xFFFFFFFF) ≡ ok movie_wire
unfolding object_info_bytes mtp_rs.Object.fixed_bytes mtp_rs.Pack.Word.le_bytes
    mtp_rs.Pack.Text.pack_string mtp_rs.Codes.Format.to_code mtp_rs.Codes.Storage.Protection.to_code
    mtp_rs.Codes.Storage.Association.to_code
movie-wire = refl

abbrev movie_container : DataContainer
movie_container = record {
  code = OperationCode.get_object_info;
  transaction_id = 5;
  payload = movie_wire;
}

movie_container-FitsData : FitsData movie_container
unfolding Operation.from_code
movie_container-FitsData = record {
  code = Operation.from_code-IsCode 0x1008 (omega arith);
  transaction = omega arith;
  size = omega arith;
}

-- The answer to the question for the size: 2^32.
abbrev size_replies : List Bytes
size_replies =
    data_bytes (record {
      code = OperationCode.get_object_prop_value;
      transaction_id = 6;
      payload = 0 ∷ 0 ∷ 0 ∷ 0 ∷ 1 ∷ 0 ∷ 0 ∷ 0 ∷ [];
    })
    ∷ build_response 0x2001 6 []
    ∷ []

abbrev describing : Session (List Bytes)
describing = fifth (data_bytes movie_container ∷ build_response 0x2001 5 [] ∷ size_replies)

describing-Answers :
    (sent : Bytes)
    → Answers queue sent movie_container 0x2001 []
        (data_bytes movie_container)
        []
        describing.transport
        size_replies
unfolding new data_bytes mtp_rs.Container.header_bytes mtp_rs.Pack.Word.le_bytes
describing-Answers sent = record {
  behind_command = data_bytes movie_container ∷ build_response 0x2001 5 [] ∷ size_replies;
  behind_first = build_response 0x2001 5 [] ∷ size_replies;
  behind_data = build_response 0x2001 5 [] ∷ size_replies;
  takes = refl;
  begins = refl;
  goes_on = quiet refl;
  replies = refl;
  holds_header = omega arith;
  whole = append-nil _;
}

abbrev described : Session (List Bytes)
described = record (fifth size_replies) { transaction_id = 6 }

get_object_info_movie : get_object_info queue 2 7 describing ≡ (done (sized 0xFFFFFFFF), described)
unfolding new next
get_object_info_movie =
    get_object_info-Answers queue 2 describing movie_container (data_bytes movie_container) []
      size_replies 7 (sized 0xFFFFFFFF) refl refl movie_container-FitsData
      (sized-FitsObjectInfo 0xFFFFFFFF) movie-wire (describing-Answers _) (omega arith)

get_object_info_full-Resolves_example :
    Resolves
      (sized 0xFFFFFFFF)
      described
      (get_object_prop_value queue 2 7 ObjectPropertyCode.object_size described)
      (get_object_info_full 2 queue 7 describing)
get_object_info_full-Resolves_example =
    get_object_info_full-Resolves 2 queue 7 describing described (sized 0xFFFFFFFF)
      get_object_info_movie
