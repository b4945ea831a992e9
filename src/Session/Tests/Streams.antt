-- ===== src/Session/Tests/Streams.antt =====
-- Downloads from the queue of replies.
use mtp_rs.Prelude.{◌≡◌, refl, List, [], ◌∷◌, ◌++◌, none, arith}
use mtp_rs.Codes.Operation.{OperationCode}
use mtp_rs.Pack.Slice.{Bytes}
use mtp_rs.Container.{DataContainer, data_bytes, build_response, header_bytes}
use mtp_rs.Session.{new}
use mtp_rs.Session.Io.{done}
use mtp_rs.Session.Stream.{fresh}
use mtp_rs.Session.Stream.Loop.{collect, next_chunk}
use mtp_rs.Session.Stream.Phases.{Sends, quiet, sends, all_of}
use mtp_rs.Session.Stream.Collect.{collect-data_bytes}
use mtp_rs.Session.Stream.Guarded.{Guarded, next_chunk-Guarded}
use mtp_rs.Session.Tests.{queue, fifth}

-- Three bytes of an object, in transaction 5.
abbrev three_bytes : DataContainer
three_bytes = record {
  code = OperationCode.get_object;
  transaction_id = 5;
  payload = 10 ∷ 11 ∷ 12 ∷ [];
}

-- The header is cut, and the last read holds a part of the payload and the response.
abbrev cut_reads : List Bytes
cut_reads =
    (15 ∷ 0 ∷ 0 ∷ 0 ∷ 2 ∷ [])
    ∷ (0 ∷ 9 ∷ 16 ∷ 5 ∷ 0 ∷ 0 ∷ 0 ∷ 10 ∷ [])
    ∷ (11 ∷ 12 ∷ 12 ∷ 0 ∷ 0 ∷ 0 ∷ 3 ∷ 0 ∷ 1 ∷ 32 ∷ 5 ∷ 0 ∷ 0 ∷ 0 ∷ [])
    ∷ []

cut_reads_whole : all_of cut_reads ≡ data_bytes three_bytes ++ build_response 0x2001 5 []
unfolding data_bytes build_response header_bytes mtp_rs.Pack.Word.le_bytes
    mtp_rs.Codes.Operation.to_code
cut_reads_whole = refl

cut_reads_sent : Sends queue [] (fifth cut_reads).transport cut_reads
unfolding new
cut_reads_sent = sends refl (sends refl (sends refl (quiet refl)))

collect-data_bytes_example :
    collect 4 5 queue []
      (record { stream = fresh 5 OperationCode.get_object none; session = fifth cut_reads })
    ≡ (done (10 ∷ 11 ∷ 12 ∷ []), record (fifth cut_reads) { transport = [] })
collect-data_bytes_example =
    collect-data_bytes queue three_bytes OperationCode.get_object none (fifth cut_reads) cut_reads
      [] 4 5 (omega arith) (omega arith) cut_reads_sent cut_reads_whole (omega arith) (omega arith)

-- One read, and then the device is gone.
next_chunk-Guarded_example : Guarded 5 (
    next_chunk 3 queue (record {
      stream = fresh 5 OperationCode.get_object none;
      session = fifth ((15 ∷ 0 ∷ []) ∷ []);
    }))
unfolding fresh
next_chunk-Guarded_example =
    next_chunk-Guarded 3 queue
      (record {
        stream = fresh 5 OperationCode.get_object none;
        session = fifth ((15 ∷ 0 ∷ []) ∷ []);
      })
      refl
