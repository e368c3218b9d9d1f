-- ===== src/Transfer/Sender.antt =====
-- TransferSender of src/core/transfer.cpp. The file is its contents, with what has not been read yet.
-- `garbage` and `stale_*` are what uninitialised structures hold when their deserializer, whose result
-- is not looked at, returns false.
pub mod Chunks
pub mod Acknowledged
use net_transfer.Base.{
  ℕ, ◌+◌, ◌-◌, ◌%◌, ◌^◌, Bool, true, false, List, [], ◌∷◌, ◌++◌, Option, none, some, ◌==◌, ltb, leb,
  if◌then◌else◌, length, take, drop,
}
use net_transfer.Protocol.{
  BaseHeader, MessageType, OfferPayload, AckPayload, transfer_offer, transfer_accept,
  transfer_reject, transfer_done, transfer_ack, data_chunk, header_size,
}
use net_transfer.Protocol.Reader.{Outcome, ok, refused, fault}
use net_transfer.Protocol.Header.{build_header, serialize_header, deserialize_header}
use net_transfer.Protocol.Offer.{serialize_offer}
use net_transfer.Protocol.Payload.{serialize_done, deserialize_ack}
use net_transfer.Transfer.Platform.{Hash, Paths}
use net_transfer.Transfer.Digest.{max_buffer_size, file_digest}

-- The operation whose completion the sender waits for. `finished`: none is pending, and none will be.
-- `terminated`: an exception left a handler, and the thread that runs the handlers.
-- `undefined`: memory outside of `buffer` was written or read.
pub data Pending : Type 0 where
  connecting handshaking reading_reply : Pending
  clearing reading_reject : ℕ → Pending
  writing_chunk : ℕ → Pending
  reading_ack_header : Pending
  reading_ack : ℕ → Pending
  finished terminated undefined : Pending

pub record TransferSender : Type 0 where
  pub file_path : List ℕ
  pub device_name : List ℕ
  pub session_id : ℕ
  pub sha256 : List ℕ
  pub file_size : ℕ
  pub bytes_sent : ℕ
  -- the part of the file behind the read position
  pub unread : List ℕ
  pub pending : Pending

pub data Event : Type 0 where
  wrote : List ℕ → Event
  progress : ℕ → ℕ → Event
  complete : Bool → List ℕ → Event

-- A read or write that completes with an error code, or with the bytes that were read.
pub data Completion : Type 0 where
  failed : Completion
  done : List ℕ → Completion

-- A header read into the buffer, or what the structure held before.
unfoldable pub header_or : BaseHeader → Outcome BaseHeader → BaseHeader
header_or garbage (ok h) = h
header_or garbage refused = garbage
header_or garbage fault = garbage

unfoldable pub with_payload : MessageType → ℕ → List ℕ → List ℕ
with_payload msg_type session_id payload =
    serialize_header (build_header msg_type session_id (length payload % 2 ^ 32)) ++ payload

abbrev pub chunk_max : ℕ
chunk_max = max_buffer_size - header_size

-- TransferSender::start, on the contents of the file; `none` if it does not open. `file_size` is what
-- tellg says at the end of the file, and `random` the session id.
unfoldable pub start : Hash → List ℕ → List ℕ → ℕ → Option (List ℕ) → Bool × Option TransferSender
start hash file_path device_name random none = (false, none)
start hash file_path device_name random (some contents) = (
  true,
  some (record {
    file_path = file_path;
    device_name = device_name;
    session_id = random;
    sha256 = file_digest hash contents;
    file_size = length contents;
    bytes_sent = 0;
    unread = contents;
    pending = connecting;
  }),
)

unfoldable pub offer : Paths → TransferSender → OfferPayload
offer paths s = record {
  file_size = s.file_size;
  resume_offset = 0;
  sha256 = s.sha256;
  file_name = paths.filename s.file_path;
  device_name = s.device_name;
}

-- The offer is written synchronously; `write_ok` is false where asio::write throws, here and below.
unfoldable pub send_offer : Paths → Bool → TransferSender → TransferSender × List Event
unfolding offer with_payload
send_offer paths write_ok s =
    if write_ok
    then (
      record s { pending = reading_reply },
      wrote (with_payload transfer_offer s.session_id (serialize_offer (offer paths s))) ∷ [],
    )
    else (record s { pending = terminated }, [])

unfoldable pub on_connect : TransferSender → Bool → TransferSender × List Event
on_connect s true = (record s { pending = handshaking }, [])
on_connect s false = (record s { pending = finished }, complete false [] ∷ [])

unfoldable pub on_handshake : Paths → Bool → TransferSender → Bool → TransferSender × List Event
unfolding send_offer
on_handshake paths write_ok s true = send_offer paths write_ok s
on_handshake paths write_ok s false =
    (record s { pending = finished }, complete false s.file_path ∷ [])

-- The next block of the file in a DATA_CHUNK, or TRANSFER_DONE at its end, which is written
-- synchronously.
unfoldable pub send_next_chunk : Bool → TransferSender → TransferSender × List Event
unfolding with_payload
send_next_chunk write_ok s =
    let block = take chunk_max s.unread in
    let last =
      with_payload transfer_done s.session_id (serialize_done (record { sha256 = s.sha256 })) in
    if ltb 0 (length block)
    then (
      record s { unread = drop chunk_max s.unread; pending = writing_chunk (length block) },
      wrote (with_payload data_chunk s.session_id block) ∷ [],
    )
    else if write_ok
    then (record s { pending = reading_ack_header }, wrote last ∷ [])
    else (record s { pending = terminated }, [])

-- The payloads of answers are read to the buffer's front, and their lengths not checked. `arrived` bytes
-- of one stand there, and async_read waits for the others: behind the end they overwrite other memory.
unfoldable pub on_part : ℕ → TransferSender → TransferSender
on_part arrived s = if leb arrived max_buffer_size then s else record s { pending = undefined }

-- What follows when the payload is complete, or the connection has ended before.
unfoldable pub into_buffer :
    TransferSender → Completion → TransferSender × List Event → TransferSender × List Event
into_buffer s failed next = next
into_buffer s (done bytes) next =
    if leb (length bytes) max_buffer_size then next else (record s { pending = undefined }, [])

unfoldable pub on_reply_type : Bool → TransferSender → ℕ → MessageType → TransferSender × List Event
unfolding send_next_chunk
on_reply_type write_ok s payload_len transfer_accept =
    if payload_len == 0
    then send_next_chunk write_ok s
    else (record s { pending = clearing payload_len }, [])
on_reply_type write_ok s payload_len transfer_reject =
    (record s { pending = reading_reject payload_len }, [])
on_reply_type write_ok s payload_len _ = (record s { pending = finished }, [])

-- The answer to the offer.
unfoldable pub on_reply :
    BaseHeader → Bool → TransferSender → Completion → TransferSender × List Event
unfolding on_reply_type header_or
on_reply garbage write_ok s failed =
    (record s { pending = finished }, complete false s.file_path ∷ [])
on_reply garbage write_ok s (done bytes) =
    let header = header_or garbage (deserialize_header bytes) in
    on_reply_type write_ok s header.payload_len header.msg_type

-- After an accept with a payload: the error code is not looked at.
unfoldable pub on_cleared : Bool → TransferSender → Completion → TransferSender × List Event
unfolding send_next_chunk into_buffer
on_cleared write_ok s completion = into_buffer s completion (send_next_chunk write_ok s)

-- The reason is logged only.
unfoldable pub on_reject : TransferSender → Completion → TransferSender × List Event
unfolding into_buffer
on_reject s completion =
    into_buffer s completion (record s { pending = finished }, complete false s.file_path ∷ [])

-- A chunk of `n` payload bytes was written: `bytes` counts its header too.
unfoldable pub on_chunk_written : Bool → TransferSender → ℕ → Bool → TransferSender × List Event
unfolding send_next_chunk
on_chunk_written write_ok s n false =
    (record s { pending = finished }, complete false s.file_path ∷ [])
on_chunk_written write_ok s n true =
    let sent = (s.bytes_sent + (header_size + n - header_size)) % 2 ^ 64 in
    let (s', events) = send_next_chunk write_ok (record s { bytes_sent = sent }) in
    (s', progress sent s.file_size ∷ events)

unfoldable pub on_ack_type : TransferSender → ℕ → MessageType → TransferSender × List Event
on_ack_type s payload_len transfer_ack = (record s { pending = reading_ack payload_len }, [])
on_ack_type s payload_len _ = (record s { pending = finished }, [])

unfoldable pub on_ack_header :
    BaseHeader → TransferSender → Completion → TransferSender × List Event
unfolding on_ack_type header_or
on_ack_header garbage s failed = (record s { pending = finished }, complete false s.file_path ∷ [])
on_ack_header garbage s (done bytes) =
    let header = header_or garbage (deserialize_header bytes) in
    on_ack_type s header.payload_len header.msg_type

unfoldable pub ack_or : AckPayload → Outcome AckPayload → AckPayload
ack_or garbage (ok a) = a
ack_or garbage refused = garbage
ack_or garbage fault = garbage

-- The acknowledgement: a failed check is logged, and `onComplete` is not called.
unfoldable pub on_ack : AckPayload → TransferSender → ℕ → Completion → TransferSender × List Event
unfolding ack_or into_buffer
on_ack garbage s payload_len failed =
    (record s { pending = finished }, complete false s.file_path ∷ [])
on_ack garbage s payload_len (done bytes) =
    let ap = ack_or garbage (deserialize_ack bytes payload_len) in
    into_buffer s (done bytes) (
      if ap.checksum_ok
      then (record s { pending = finished }, complete true s.file_path ∷ [])
      else (record s { pending = finished }, []))

-- TransferSender::stop closes the socket and the file, from which nothing more is read then.
unfoldable pub stop : TransferSender → Bool → Bool × TransferSender
stop s true = (true, record s { unread = [] })
stop s false = (false, s)
