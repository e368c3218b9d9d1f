-- ===== src/Transfer/Tests.antt =====
-- The theorems on transfers at a small file.
use net_transfer.Base.{
  ℕ, ◌+◌, ◌≡◌, refl, sym, arith, true, false, List, [], ◌∷◌, ◌++◌, append_assoc, append-nil, none,
  some, same, if◌then◌else◌, leb, replicate, length, length-replicate,
}
use net_transfer.Protocol.{BaseHeader, AckPayload, keepalive, data_chunk, transfer_ack}
use net_transfer.Protocol.Payload.{serialize_ack}
use net_transfer.Transfer.Sender.Acknowledged.{on_ack-serialize_ack}
use net_transfer.Transfer.Platform.{Hash, Paths, Disk, exists, put}
use net_transfer.Transfer.Digest.{file_digest, file_digest_lem, max_buffer_size}
use net_transfer.Transfer.Sender.{
  TransferSender, writing_chunk, complete, done, failed, reading_ack, finished, on_ack_header,
  on_ack,
}
use net_transfer.Transfer.Sender.Chunks.Bounds.{Climbs, send_file-Climbs}
use net_transfer.Transfer.Sender.Chunks.{send_file}
use net_transfer.Transfer.Receiver.{
  TransferReceiver, reading_chunk_header, reading_chunk, accepting, undefined,
}
use net_transfer.Transfer.Receiver.Chunks.{on_chunk_header, on_part, on_chunk}
use net_transfer.Transfer.Receiver.Stream.{Holds, message_header, same_bytes}
use net_transfer.Transfer.Receiver.Overflow.{on_chunk_header_overflow}
use net_transfer.Transfer.Receiver.Finish.{ReceivedBy}
use net_transfer.Transfer.Receiver.Files.{numbered, resolve_file_path, resolve_file_path_lem}
use net_transfer.Transfer.Complete.{transfer, transfer-Received}

-- A hash that keeps all that it is given.
abbrev pub keep_all : Hash
keep_all = record {
  State = List ℕ;
  start = [];
  update = λ s xs. s ++ xs;
  finish = λ s. s;
  update_append = λ s xs ys. append_assoc s xs ys;
  update_nil = λ s. append-nil s;
}

abbrev pub flat_paths : Paths
flat_paths = record {
  join = λ a b. a ++ 0x2F ∷ b;
  stem = λ p. 0x61 ∷ [];
  extension = λ p. 0x2E ∷ 0x62 ∷ [];
  filename = λ p. 0x61 ∷ 0x2E ∷ 0x62 ∷ [];
  to_string = λ n. (0x30 + n) ∷ [];
}

abbrev text : List ℕ
text = 1 ∷ 2 ∷ 3 ∷ []

abbrev text_path : List ℕ
text_path = 0x61 ∷ []

abbrev sender : TransferSender
sender = record {
  file_path = text_path;
  device_name = [];
  session_id = 7;
  sha256 = text;
  file_size = 3;
  bytes_sent = 0;
  unread = text;
  pending = writing_chunk 0;
}

abbrev pub receiver : TransferReceiver
receiver = record {
  listen_port = 50000;
  pending_offer = record {
    file_size = 3;
    resume_offset = 0;
    sha256 = text;
    file_name = text_path;
    device_name = [];
  };
  pending_session_id = 7;
  file = some text_path;
  file_path = text_path;
  file_size = 3;
  bytes_sent = 0;
  disk = put (λ p. none) text_path [];
  buffer = replicate max_buffer_size 0;
  pending = reading_chunk_header;
}

abbrev pub blank : BaseHeader
blank = record {
  magic = 0;
  version = 0;
  msg_type = keepalive;
  session_id = 0;
  payload_len = 0;
  header_crc = 0;
}

receiver-Holds : Holds receiver []
unfolding same
receiver-Holds = record { reading = refl; opened = refl; stored = refl }

text_digest : text ≡ file_digest keep_all text
text_digest = sym (file_digest_lem keep_all text)

send_file-Climbs_example : Climbs 0 3 (send_file 2 sender).1
send_file-Climbs_example = send_file-Climbs 2 sender refl (omega arith)

transfer-Received_example :
    ReceivedBy keep_all receiver text (transfer keep_all blank 4 7 sender receiver)
transfer-Received_example =
    transfer-Received keep_all blank 4 7 sender receiver (omega arith) (omega arith) receiver-Holds
      (omega arith) (omega arith)

-- A directory "d" in which "d/a.b" is taken and "d/a (1).b" is not.
abbrev pub taken_path : List ℕ
taken_path = 0x64 ∷ 0x2F ∷ 0x61 ∷ 0x2E ∷ 0x62 ∷ []

abbrev pub free_path : List ℕ
free_path = 0x64 ∷ 0x2F ∷ 0x61 ∷ 0x20 ∷ 0x28 ∷ 0x31 ∷ 0x29 ∷ 0x2E ∷ 0x62 ∷ []

abbrev pub one_file : Disk
one_file = put (λ p. none) taken_path text

resolve_file_path_lem_example :
    (path : List ℕ) × (resolve_file_path flat_paths one_file 3 (0x64 ∷ []) (0x61 ∷ 0x2E ∷ 0x62 ∷ [])
      ≡ some path)
    × (exists one_file path ≡ false)
resolve_file_path_lem_example =
    resolve_file_path_lem flat_paths one_file 3 0 (0x64 ∷ []) (0x61 ∷ 0x2E ∷ 0x62 ∷ [])
      (omega arith) (unfold numbered same in refl)

-- One byte more than fits.
unfoldable long_payload : List ℕ
long_payload = replicate 32747 0

length-long_payload : length long_payload ≡ 32747
unfolding long_payload
length-long_payload = length-replicate {A = ℕ} 32747 0

abbrev overlong : TransferReceiver
overlong =
    (on_chunk_header keep_all true blank receiver
      (done (message_header data_chunk 7 long_payload))).0

on_chunk_header_overflow_example :
    (overlong.pending ≡ reading_chunk (length long_payload))
    × (on_part 32747 overlong
        ≡ (if leb 32747 32746 then overlong else record overlong { pending = undefined }))
    × ((on_chunk same_bytes overlong failed).0.pending ≡ accepting)
    × ((on_chunk same_bytes overlong failed).0.file ≡ none)
    × ((on_chunk same_bytes overlong (done long_payload)).0.pending ≡ undefined)
on_chunk_header_overflow_example =
    on_chunk_header_overflow keep_all blank receiver 7 long_payload 32747 same_bytes (omega arith)
      (omega (arith, length-long_payload)) (omega (arith, length-long_payload))

abbrev pub intact : AckPayload
intact = record { checksum_ok = true }

on_ack-serialize_ack_example :
    (on_ack_header blank sender (done (message_header transfer_ack 7 (serialize_ack intact)))
      ≡ (record sender { pending = reading_ack 1 }, []))
    × (on_ack intact sender 1 (done (serialize_ack intact)) ≡ (
      record sender { pending = finished },
      if true then complete true sender.file_path ∷ [] else [],
    ))
on_ack-serialize_ack_example = on_ack-serialize_ack blank intact intact sender 7 (omega arith)
