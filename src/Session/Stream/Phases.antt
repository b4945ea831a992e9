-- ===== src/Session/Stream/Phases.antt =====
-- The phases of a download from a device that sends a data container and the response that closes
-- it, cut into transfers at any place.
use mtp_rs.Prelude.{ℕ, ◌<◌, ◌≤◌, ◌≡◌, true, false, List, [], ◌∷◌, ◌++◌, none, some, length, flat}
use mtp_rs.Error.{ok}
use mtp_rs.Pack.Slice.{Bytes}
use mtp_rs.Container.{data_bytes, build_response, DataContainer}
use mtp_rs.Session.{Session}
use mtp_rs.Session.Io.{resumed, Transport, Exit, done}
use mtp_rs.Session.Stream.{Open, receive_chunk}
use mtp_rs.Session.Stream.Loop.{Chunk}

-- The bulk reads that the transport answers from one state on, up to a last state.
pub data Sends {S : Type 0} (t : Transport S) (last : S) : S → List Bytes → Type 0 where
  quiet : {s : S} → s ≡ last → Sends t last s []
  sends :
      {s s' : S} {b : ℕ} {bs : Bytes} {reads : List Bytes}
      → t.receive_bulk receive_chunk s ≡ (resumed (b ∷ bs), s')
      → Sends t last s' reads
      → Sends t last s ((b ∷ bs) ∷ reads)

abbrev pub all_of : List Bytes → Bytes
all_of = flat (λ (x : Bytes). x)

-- The response with which the device closes the transfer.
abbrev pub closing : DataContainer → Bytes
closing c = build_response 0x2001 c.transaction_id []

module _ {S : Type 0} (t : Transport S) (c : DataContainer) (s0 : Session S) (last : S) where
  -- What the stream still has to read, when `pending` is not consumed yet.
  pub record Ready (o : Open S) (pending : Bytes) (reads : List Bytes) : Type 0 where
    pub alive : o.stream.is_done ≡ false
    pub own : o.stream.transaction_id ≡ c.transaction_id
    pub same : o.session ≡ record s0 { transport = o.session.transport }
    pub comes : Sends t last o.session.transport reads
    pub sum : o.stream.buffer ++ all_of reads ≡ pending

  pub data Phase (o : Open S) (rest : Bytes) (reads : List Bytes) : Type 0 where
    before :
        Ready o (data_bytes c ++ closing c) reads
        → o.stream.in_payload ≡ false
        → rest ≡ c.payload
        → Phase o rest reads
    inside :
        Ready o (rest ++ closing c) reads
        → o.stream.in_payload ≡ true
        → o.stream.large_object ≡ false
        → o.stream.payload_remaining ≡ some (length rest)
        → Phase o rest reads
    behind :
        Ready o (closing c) reads → o.stream.in_payload ≡ false → rest ≡ [] → Phase o rest reads

  -- What a call of `next_chunk` comes to, with `rest` of the payload still to come in at most
  -- `left` reads.
  pub data Yields (rest : Bytes) (left : ℕ) : Exit Chunk × Open S → Type 0 where
    chunk :
        {x rest' : Bytes} {reads : List Bytes} {o : Open S}
        → 0 < length x
        → rest ≡ x ++ rest'
        → length reads ≤ left
        → Phase o rest' reads
        → Yields rest left (done (some (ok x)), o)
    over :
        {o : Open S}
        → rest ≡ []
        → o.stream.is_done ≡ true
        → o.session ≡ record s0 { transport = last }
        → Yields rest left (done none, o)
