-- ===== src/Session/Tests/Operations.antt =====
-- Operations against the queue of replies.
use mtp_rs.Prelude.{ℕ, ◌^◌, ◌<◌, ◌≡◌, refl, List, [], ◌∷◌, ◌++◌, map, none, some, append-nil, arith}
use mtp_rs.Codes.Operation
use mtp_rs.Codes.Operation.{OperationCode}
use mtp_rs.Codes.Response
use mtp_rs.Codes.Response.{ResponseCode}
use mtp_rs.Codes.Format
use mtp_rs.Codes.Format.{ObjectFormatCode}
use mtp_rs.Codes.Storage.Protection
use mtp_rs.Codes.Storage.Protection.{ProtectionStatus}
use mtp_rs.Codes.Storage.Association
use mtp_rs.Codes.Storage.Association.{AssociationType}
use mtp_rs.Error.{ok, protocol}
use mtp_rs.Pack.Slice.{Bytes}
use mtp_rs.Pack.Samples.{empty-FitsString}
use mtp_rs.Container.{DataContainer, data_bytes, build_response, command_bytes}
use mtp_rs.Container.RoundTrip.{FitsData, FitsResponse}
use mtp_rs.Object.{ObjectInfo, object_info_bytes}
use mtp_rs.Object.RoundTrip.{FitsObjectInfo}
use mtp_rs.Session.{Session, new, next}
use mtp_rs.Session.Io.{done, failed, resumed}
use mtp_rs.Session.Stream.Phases.{quiet}
use mtp_rs.Session.Operations.{fetch, get_object_info}
use mtp_rs.Session.Operations.Answered.{Answers}
use mtp_rs.Session.Operations.Received.{fetch-Answers, get_object_info-Answers}
use mtp_rs.Session.Execute.{execute_with_send}
use mtp_rs.Session.Stream.{ReceiveStream, fresh}
use mtp_rs.Session.Operations.Upload.{execute_with_send_stream, stream_header}
use mtp_rs.Session.Operations.Streamed.{execute_with_send_stream-execute_with_send}
use mtp_rs.Session.Tests.{queue, fifth}

abbrev pub sized : ℕ → ObjectInfo
sized size = record {
  handle = 0;
  storage_id = 0x10001;
  format = ObjectFormatCode.association;
  protection_status = ProtectionStatus.none;
  size = size;
  thumb_format = ObjectFormatCode.undefined;
  thumb_size = 0;
  thumb_width = 0;
  thumb_height = 0;
  image_width = 0;
  image_height = 0;
  image_bit_depth = 0;
  parent = 0;
  association_type = AssociationType.generic_folder;
  association_desc = 0;
  sequence_number = 0;
  filename = [];
  created = none;
  modified = none;
  keywords = [];
}

abbrev folder : ObjectInfo
folder = sized 0

abbrev folder_wire : Bytes
folder_wire =
    1 ∷ 0 ∷ 1 ∷ 0 ∷ 1 ∷ 48 ∷ 0 ∷ 0 ∷ 0 ∷ 0 ∷ 0 ∷ 0 ∷ 0 ∷ 48 ∷ 0 ∷ 0 ∷ 0 ∷ 0 ∷ 0 ∷ 0 ∷ 0 ∷ 0 ∷ 0 ∷ 0
    ∷ 0 ∷ 0 ∷ 0 ∷ 0 ∷ 0 ∷ 0 ∷ 0 ∷ 0 ∷ 0 ∷ 0 ∷ 0 ∷ 0 ∷ 0 ∷ 0 ∷ 0 ∷ 0 ∷ 0 ∷ 0 ∷ 1 ∷ 0 ∷ 0 ∷ 0 ∷ 0 ∷ 0
    ∷ 0 ∷ 0 ∷ 0 ∷ 0 ∷ 0 ∷ 0 ∷ 0 ∷ 0 ∷ []

folder-wire : object_info_bytes folder ≡ ok folder_wire
unfolding object_info_bytes mtp_rs.Object.fixed_bytes mtp_rs.Pack.Word.le_bytes
    mtp_rs.Pack.Text.pack_string mtp_rs.Codes.Format.to_code mtp_rs.Codes.Storage.Protection.to_code
    mtp_rs.Codes.Storage.Association.to_code
folder-wire = refl

pub sized-FitsObjectInfo : (size : ℕ) → FitsObjectInfo (sized size)
unfolding Format.from_code Protection.from_code Association.from_code
sized-FitsObjectInfo size = record {
  storage_id = omega arith;
  format = Format.from_code-IsCode 0x3001 (omega arith);
  protection_status = Protection.from_code-IsCode 0 (omega arith);
  thumb_format = Format.from_code-IsCode 0x3000 (omega arith);
  thumb_size = omega arith;
  thumb_width = omega arith;
  thumb_height = omega arith;
  image_width = omega arith;
  image_height = omega arith;
  image_bit_depth = omega arith;
  parent = omega arith;
  association_type = Association.from_code-IsCode 1 (omega arith);
  association_desc = omega arith;
  sequence_number = omega arith;
  filename = empty-FitsString;
  created = tt;
  modified = tt;
  keywords = empty-FitsString;
}

abbrev folder_container : DataContainer
folder_container = record {
  code = OperationCode.get_object_info;
  transaction_id = 5;
  payload = folder_wire;
}

folder_container-FitsData : FitsData folder_container
unfolding Operation.from_code
folder_container-FitsData = record {
  code = Operation.from_code-IsCode 0x1008 (omega arith);
  transaction = omega arith;
  size = omega arith;
}

-- The device sends the container in one read, and then a response with `code`.
abbrev answering : ℕ → Session (List Bytes)
answering code = fifth (data_bytes folder_container ∷ build_response code 5 [] ∷ [])

answering-Answers :
    (code : ℕ) (sent : Bytes)
    → Answers queue sent folder_container code []
        (data_bytes folder_container)
        []
        (answering code).transport
        []
unfolding new data_bytes mtp_rs.Container.header_bytes mtp_rs.Pack.Word.le_bytes
answering-Answers code sent = record {
  behind_command = data_bytes folder_container ∷ build_response code 5 [] ∷ [];
  behind_first = build_response code 5 [] ∷ [];
  behind_data = build_response code 5 [] ∷ [];
  takes = refl;
  begins = refl;
  goes_on = quiet refl;
  replies = refl;
  holds_header = omega arith;
  whole = append-nil _;
}

pub empty-FitsResponse : (code : ℕ) → code < 2 ^ 16 → FitsResponse code 5 []
empty-FitsResponse code h = record {
  code_fits = h;
  transaction = omega arith;
  params_fit = tt;
  size = omega arith;
}

-- The device refuses with `GeneralError`.
fetch-Answers_example : fetch queue 2 OperationCode.get_object_info (7 ∷ []) (answering 0x2002) ≡ (
  failed (protocol ResponseCode.general_error OperationCode.get_object_info),
  record (fifth []) { transaction_id = 6 },
)
unfolding new next Response.from_code Response.is_ok
fetch-Answers_example =
    fetch-Answers queue 2 (answering 0x2002) folder_container (data_bytes folder_container) [] []
      OperationCode.get_object_info (7 ∷ []) 0x2002 [] refl refl folder_container-FitsData
      (empty-FitsResponse 0x2002 (omega arith)) (answering-Answers 0x2002 _) (omega arith)

get_object_info-Answers_example :
    get_object_info queue 2 7 (answering 0x2001)
    ≡ (done folder, record (fifth []) { transaction_id = 6 })
unfolding new next
get_object_info-Answers_example =
    get_object_info-Answers queue 2 (answering 0x2001) folder_container
      (data_bytes folder_container) [] [] 7 folder refl refl folder_container-FitsData
      (sized-FitsObjectInfo 0) folder-wire (answering-Answers 0x2001 _) (omega arith)

execute_with_send_stream-execute_with_send_example :
    execute_with_send_stream queue OperationCode.send_object [] 3
      (map resumed ((1 ∷ 2 ∷ []) ∷ (3 ∷ []) ∷ []))
      (answering 0x2001)
    ≡ execute_with_send queue OperationCode.send_object [] (1 ∷ 2 ∷ 3 ∷ []) (answering 0x2001)
unfolding new
execute_with_send_stream-execute_with_send_example =
    execute_with_send_stream-execute_with_send queue (λ chunks s. refl) OperationCode.send_object []
      ((1 ∷ 2 ∷ []) ∷ (3 ∷ []) ∷ []) (1 ∷ 2 ∷ 3 ∷ []) (answering 0x2001) (omega arith) refl

abbrev upload : ReceiveStream
upload = record (fresh 5 OperationCode.get_object (some 5000000000)) {
  buffer = stream_header OperationCode.send_object 5 5000000000 ++ (1 ∷ 2 ∷ []);
}
