-- ===== src/Transfer/Receiver/Chunks.antt =====
-- TransferReceiver::receiveNextChunk and cleanupFailedTransfer of src/core/transfer.cpp: the chunks of an
-- accepted file, and how the transfer ends.
use net_transfer.Base.{
  ℕ, ◌+◌, ◌%◌, ◌^◌, Bool, false, List, [], ◌∷◌, Option, none, some, leb, same, if◌then◌else◌,
  length,
}
use net_transfer.Protocol.{
  BaseHeader, MessageType, transfer_done, transfer_ack, data_chunk, header_size,
}
use net_transfer.Protocol.Header.{deserialize_header}
use net_transfer.Protocol.Payload.{serialize_ack}
use net_transfer.Transfer.Platform.{Hash, Paths, Disk, contents_of, put, append_to}
use net_transfer.Transfer.Platform
use net_transfer.Transfer.Digest.{max_buffer_size, file_digest}
use net_transfer.Transfer.Sender.{
  wrote, progress, complete, Completion, failed, done, with_payload, header_or,
}
use net_transfer.Transfer.Receiver.Files.{cleaned}
use net_transfer.Transfer.Receiver.{
  TransferReceiver, Notice, event, listen, store, reading_chunk_header, reading_chunk, terminated,
  undefined,
}

-- cleanupFailedTransfer, onComplete(false, "") and listenForConnections.
unfoldable pub fail_transfer : TransferReceiver → TransferReceiver × List Notice
unfolding listen cleaned
fail_transfer r = (
  listen (record r { file = none; disk = cleaned r.disk r.file_path; file_path = [] }),
  event (complete false []) ∷ [],
)

-- The whole file is read again and hashed; the acknowledgement is written synchronously, and an
-- exception of that write (`write_ok` is false) is not caught.
unfoldable pub finish_transfer : Hash → Bool → TransferReceiver → TransferReceiver × List Notice
unfolding listen with_payload
finish_transfer hash write_ok r =
    let digest = file_digest hash (contents_of (r.disk r.file_path)) in
    let good = same digest r.pending_offer.sha256 in
    let message =
      with_payload transfer_ack r.pending_session_id
        (serialize_ack (record { checksum_ok = good })) in
    if write_ok
    then (
      listen (record r {
        file = none;
        disk = if good then r.disk else Platform.remove r.disk r.file_path;
      }),
      event (wrote message) ∷ event (complete good r.file_path) ∷ [],
    )
    else (record r { file = some r.file_path; pending = terminated }, [])

-- The payload of a DATA_CHUNK is read behind the header; its length is not checked against the buffer.
unfoldable pub on_chunk_type :
    Hash → Bool → TransferReceiver → ℕ → MessageType → TransferReceiver × List Notice
unfolding finish_transfer fail_transfer
on_chunk_type hash write_ok r to_read data_chunk =
    (record r { pending = reading_chunk to_read }, [])
on_chunk_type hash write_ok r to_read transfer_done = finish_transfer hash write_ok r
on_chunk_type hash write_ok r to_read _ = fail_transfer r

unfoldable pub on_chunk_header :
    Hash → Bool → BaseHeader → TransferReceiver → Completion → TransferReceiver × List Notice
unfolding on_chunk_type header_or store fail_transfer
on_chunk_header hash write_ok garbage r failed = fail_transfer r
on_chunk_header hash write_ok garbage r (done bytes) =
    let buffer = store 0 bytes r.buffer in
    let header = header_or garbage (deserialize_header buffer) in
    on_chunk_type hash write_ok (record r { buffer = buffer }) header.payload_len header.msg_type

-- `arrived` bytes of the payload stand behind the header, and async_read waits for the others. Behind
-- the buffer's end they overwrite other memory.
unfoldable pub on_part : ℕ → TransferReceiver → TransferReceiver
on_part arrived r =
    if leb (header_size + arrived) max_buffer_size then r else record r { pending = undefined }

-- `file.write`, which does nothing on a stream that is not open. It fails silently: `kept` is what the
-- disk takes of the bytes, fewer than all of them where it is full.
unfoldable pub file_write : (List ℕ → List ℕ) → Disk → Option (List ℕ) → List ℕ → Disk
file_write kept disk none bytes = disk
file_write kept disk (some path) bytes = append_to disk path (kept bytes)

-- The payload is complete, or the connection has ended before.
unfoldable pub on_chunk :
    (List ℕ → List ℕ) → TransferReceiver → Completion → TransferReceiver × List Notice
unfolding store fail_transfer file_write
on_chunk kept r failed = fail_transfer r
on_chunk kept r (done bytes) =
    let sent = (r.bytes_sent + length bytes) % 2 ^ 64 in
    if leb (header_size + length bytes) max_buffer_size
    then (
      record r {
        disk = file_write kept r.disk r.file bytes;
        bytes_sent = sent;
        buffer = store header_size bytes r.buffer;
        pending = reading_chunk_header;
      },
      event (progress sent r.file_size) ∷ [],
    )
    else (record r { pending = undefined }, [])
