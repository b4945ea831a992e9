-- ===== src/Session/Operations/Answered.antt =====
-- A transaction with a device that answers the command by a data container and a response.
use mtp_rs.Prelude.{
  ℕ, zero, suc, ◌+◌, ◌*◌, ◌%◌, ◌^◌, ◌<◌, ◌≤◌, ◌≡◌, refl, ◌∙◌, ap, sym, true, false, List, [], ◌∷◌,
  ◌++◌, length, flat, is_empty, leb, ◌==◌, length-append, append_assoc, append-nil, arith,
}
use mtp_rs.Codes.Operation
use mtp_rs.Codes.Operation.{OperationCode}
use mtp_rs.Codes.Response
use mtp_rs.Error.{ok}
use mtp_rs.Pack.Slice.{Bytes, slice, slice_middle}
use mtp_rs.Pack.Word.{pack_u32, unpack_u32, le_bytes, unpack_word-le_bytes}
use mtp_rs.Container.{
  header_bytes, data_bytes, build_response, command_bytes, container_type, data_container, response,
  parse_data, parse_response, from_type_code, DataContainer,
}
use mtp_rs.Container.RoundTrip.{
  FitsData, FitsResponse, length-header_bytes, parse_data-data_bytes, parse_response-build_response,
}
use mtp_rs.Session.{Session, next, next_transaction_id}
use mtp_rs.Session.Io.{resumed, Transport, done, Io}
use mtp_rs.Session.Receive.{receive_data, complete}
use mtp_rs.Session.Execute.{transact, recover_if_needed, scoped, send_command, execute_with_receive}
use mtp_rs.Session.Stream.Chunks.{if_false}
use mtp_rs.Session.Stream.Phases.{Sends, quiet, sends, all_of}
use mtp_rs.Session.Stream.Wire.{container_type-header_bytes, prefix-split}

recover_clean :
    {S : Type 0} (t : Transport S) (s : Session S)
    → s.needed ≡ false
    → recover_if_needed t s ≡ (done tt, s)
unfolding recover_if_needed
recover_clean t s clean = if_false _ _ clean

-- A transaction on a session that owes no recovery, with a body that succeeds.
pub transact-done {ℓ} :
    {S : Type 0} {A : Type ℓ} (t : Transport S) (body : ℕ → Io S A) (s : Session S) {a : A}
    {last : S}
    → s.needed ≡ false
    → body s.transaction_id s.transport ≡ (done a, last)
    → transact t body s
      ≡ (done a, record s { transaction_id = next s.transaction_id; transport = last })
unfolding transact next_transaction_id scoped
transact-done t body s clean e = rw (recover_clean t s clean, e) refl

not_empty : (bytes : Bytes) → 0 < length bytes → is_empty bytes ≡ false
not_empty [] h = absurd (omega arith)
not_empty (b ∷ bs) h = refl

length-data_bytes : (c : DataContainer) → length (data_bytes c) ≡ 12 + length c.payload
unfolding data_bytes
length-data_bytes c =
    length-append
      (header_bytes (12 + length c.payload) 2 (Operation.to_code c.code) c.transaction_id) c.payload
    ∙ omega (
      arith,
      length-header_bytes (12 + length c.payload) 2 (Operation.to_code c.code) c.transaction_id,
    )

-- What a device answers from state `s0` on: it takes the command `sent`, sends the data container
-- `c` in the reads `first ∷ more`, of which the first holds the header, and then the response.
pub record Answers {S : Type 0} (t : Transport S) (sent : Bytes) (c : DataContainer) (code : ℕ)
    (params : List ℕ) (first : Bytes) (more : List Bytes) (s0 last : S) : Type 0 where
  pub behind_command : S
  pub behind_first : S
  pub behind_data : S
  pub takes : t.send_bulk sent s0 ≡ (resumed tt, behind_command)
  pub begins : t.receive_bulk 0x10000 behind_command ≡ (resumed first, behind_first)
  pub goes_on : Sends t behind_data behind_first more
  pub replies :
      t.receive_bulk 0x10000 behind_data
      ≡ (resumed (build_response code c.transaction_id params), last)
  pub holds_header : 12 ≤ length first
  pub whole : first ++ all_of more ≡ data_bytes c

length_field :
    (n k c t : ℕ) (d : Bytes) → slice (header_bytes n k c t ++ d) 0 4 ≡ ok (le_bytes 4 (n % 2 ^ 32))
unfolding header_bytes
length_field n k c t d =
    rw (append_assoc (le_bytes 4 (n % 2 ^ 32)) (le_bytes 2 k ++ (le_bytes 2 c ++ le_bytes 4 t)) d)
      (slice_middle [] (le_bytes 4 (n % 2 ^ 32)) _ 0 4 refl (unfold le_bytes in refl))

module _ {S : Type 0} (t : Transport S) where
  -- The reads that are left complete the container.
  complete-Sends :
      (fuel : ℕ) (mid s : S) (more : List Bytes) (bytes whole : Bytes)
      → Sends t mid s more
      → bytes ++ all_of more ≡ whole
      → length more < fuel
      → complete fuel t (length whole) bytes s ≡ (done whole, mid)
  unfolding complete
  complete-Sends zero mid s more bytes whole reads e enough = absurd (omega arith)
  complete-Sends (suc fuel) mid s [] bytes whole (quiet here) e enough =
      let all : bytes ≡ whole = sym (append-nil bytes) ∙ e in
      let full : leb (length whole) (length bytes) ≡ true = ground (arith, ap length all) in
      rw full (ap (λ b. (done b, s)) all ∙ ap (λ x. (done whole, x)) here)
  complete-Sends (suc fuel) mid s ([] ∷ more) bytes whole x e enough = elim x [ ]
  complete-Sends (suc fuel) mid s ((b ∷ bs) ∷ more) bytes whole (sends read reads) e enough =
      let size = length-append bytes ((b ∷ bs) ++ all_of more) in
      let part : leb (length whole) (length bytes) ≡ false = ground (arith, ap length e, size) in
      rw (part, read)
        (complete-Sends fuel mid _ more (bytes ++ (b ∷ bs)) whole reads
          (append_assoc bytes (b ∷ bs) (all_of more) ∙ e) (omega arith))

  -- The first read of the data phase.
  data_read :
      (fuel : ℕ) (mid s s' : S) (operation : OperationCode) (c : DataContainer) (bytes : Bytes)
      (more : List Bytes)
      → FitsData c
      → 12 ≤ length bytes
      → bytes ++ all_of more ≡ data_bytes c
      → t.receive_bulk 0x10000 s ≡ (resumed bytes, s')
      → Sends t mid s' more
      → length more < fuel
      → receive_data (suc fuel) t c.transaction_id operation [] 0 s
        ≡ receive_data fuel t c.transaction_id operation c.payload 0 mid
  unfolding receive_data data_bytes
  data_read fuel mid s s' operation c bytes more fits long e read reads enough =
      let n = 12 + length c.payload in
      let header = header_bytes n 2 (Operation.to_code c.code) c.transaction_id in
      let (d, e1, _) =
        prefix-split bytes (all_of more) header c.payload e
          (omega (arith, length-header_bytes n 2 (Operation.to_code c.code) c.transaction_id)) in
      let some_here : is_empty bytes ≡ false = not_empty bytes (omega arith) in
      let kind : container_type bytes ≡ ok data_container =
        ap container_type e1
        ∙ container_type-header_bytes n 2 _ _ d data_container (omega arith)
            (unfold from_type_code in refl) in
      let field : slice bytes 0 4 ≡ ok (le_bytes 4 (n % 2 ^ 32)) =
        ap (λ b. slice b 0 4) e1 ∙ length_field n 2 _ _ d in
      let number : unpack_u32 (le_bytes 4 (n % 2 ^ 32)) ≡ ok (length (data_bytes c)) =
        ap unpack_u32 (sym (append-nil (le_bytes 4 (n % 2 ^ 32))))
        ∙ unpack_word-le_bytes 4 (n % 2 ^ 32) [] (omega arith)
        ∙ ap ok (omega (arith, fits.size, length-data_bytes c)) in
      let all : complete fuel t (length (data_bytes c)) bytes s' ≡ (done (data_bytes c), mid) =
        complete-Sends fuel mid s' more bytes (data_bytes c) reads e enough in
      let parsed : parse_data (data_bytes c) ≡ ok c =
        ap parse_data (sym (append-nil (data_bytes c))) ∙ parse_data-data_bytes c [] fits in
      rw (read, some_here, kind, field, number, all, parsed) refl

  -- The reply that closes the transaction.
  reply_read :
      (fuel : ℕ) (s last : S) (operation : OperationCode) (code tx : ℕ) (params : List ℕ)
      (collected : Bytes)
      → FitsResponse code tx params
      → t.receive_bulk 0x10000 s ≡ (resumed (build_response code tx params), last)
      → receive_data (suc fuel) t tx operation collected 0 s ≡ (
        done (
          record { code = Response.from_code code; transaction_id = tx; params = params },
          collected,
        ),
        last,
      )
  unfolding receive_data
  reply_read fuel s last operation code tx params collected fits read =
      let reply = build_response code tx params in
      let some_here : is_empty reply ≡ false =
        unfold build_response in unfold header_bytes in unfold le_bytes in refl in
      let kind : container_type reply ≡ ok response =
        unfold build_response in
        container_type-header_bytes (12 + length params * 4) 3 code tx (flat pack_u32 params)
          response (omega arith) (unfold from_type_code in refl) in
      let parsed : parse_response reply
          ≡ ok (record { code = Response.from_code code; transaction_id = tx; params = params }) =
        ap parse_response (sym (append-nil reply))
        ∙ parse_response-build_response code tx params [] fits in
      let own : tx == tx ≡ true = ground arith in rw (read, some_here, kind, parsed, own) refl

-- A transaction with a device that answers: the payload is the container's and the response the
-- device's, and the session moves on to the next ID with no recovery owed.
pub execute_with_receive-Answers :
    {S : Type 0} (t : Transport S) (fuel : ℕ) (operation : OperationCode) (params : List ℕ)
    (s : Session S) (c : DataContainer) (code : ℕ) (reply : List ℕ) (first : Bytes)
    (more : List Bytes) (last : S)
    → s.needed ≡ false
    → c.transaction_id ≡ s.transaction_id
    → FitsData c
    → FitsResponse code c.transaction_id reply
    → Answers t
        (command_bytes
          (record { code = operation; transaction_id = s.transaction_id; params = params }))
        c
        code
        reply
        first
        more
        s.transport
        last
    → length more + 1 < fuel
    → execute_with_receive fuel t operation params s ≡ (
      done (
        record {
          code = Response.from_code code;
          transaction_id = s.transaction_id;
          params = reply;
        },
        c.payload,
      ),
      record s { transaction_id = next s.transaction_id; transport = last },
    )
unfolding execute_with_receive send_command
execute_with_receive-Answers t zero operation params s c code reply first more last clean own fits
      fits_reply a enough =
    absurd (omega arith)
execute_with_receive-Answers t (suc zero) operation params s c code reply first more last clean own
      fits fits_reply a enough =
    absurd (omega arith)
execute_with_receive-Answers t (suc (suc fuel)) operation params s c code reply first more last
      clean own fits fits_reply a enough =
    transact-done t _ s clean (
      rw (a.takes, sym own)
        (data_read t (suc fuel) a.behind_data a.behind_command a.behind_first operation c first more
            fits a.holds_header a.whole a.begins a.goes_on (omega arith)
          ∙ reply_read t fuel a.behind_data last operation code c.transaction_id reply c.payload
              fits_reply a.replies))
