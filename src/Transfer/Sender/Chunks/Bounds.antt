-- ===== src/Transfer/Sender/Chunks/Bounds.antt =====
-- How large the sender's messages are, and what it reports as progress.
use net_transfer.Base.{
  ℕ, zero, suc, ◌+◌, ◌-◌, ◌%◌, ◌^◌, ◌≤◌, ◌<◌, ◌≡◌, refl, arith, true, List, [], ◌∷◌, ltb, ltb→lt,
  length, length-append, length-take, take, Bool-cases, inl, inr,
}
use net_transfer.Protocol.{MessageType, data_chunk, transfer_done, header_size}
use net_transfer.Protocol.Payload.{serialize_done}
use net_transfer.Protocol.Header.{serialize_header}
use net_transfer.Protocol.Header.RoundTrip.{length-serialize_header}
use net_transfer.Transfer.Digest.{max_buffer_size}
use net_transfer.Transfer.Sender.{
  TransferSender, Event, wrote, progress, complete, with_payload, chunk_max, send_next_chunk,
}
use net_transfer.Transfer.Sender.Chunks.{
  send_file, drive, drive_on, block, behind, length-block, length-behind, send_file-block,
  send_file-end, chunk_message, done_message,
}

-- Each message fits the receiver's buffer, and each progress is above the one before and at most the size
-- of the file, which is reported with it.
abbrev pub Climbs : ℕ → ℕ → List Event → Type 0
Climbs low top [] = Unit {0}
Climbs low top (wrote message ∷ es) = (length message ≤ max_buffer_size) × Climbs low top es
Climbs low top (progress count total ∷ es) =
    (low < count) × (count ≤ top) × (total ≡ top) × Climbs count top es
Climbs low top (complete good path ∷ es) = Climbs low top es

length-with_payload :
    (t : MessageType) (session_id : ℕ) (payload : List ℕ)
    → length (with_payload t session_id payload) ≡ 22 + length payload
unfolding with_payload
length-with_payload t session_id payload =
    omega (arith, length-append (serialize_header _) payload, length-serialize_header _)

block-le : (s : TransferSender) → length (block s) ≤ chunk_max
block-le s = omega (arith, length-block s)

chunk_message-le :
    (s : TransferSender) → length (chunk_message s.session_id (block s)) ≤ max_buffer_size
chunk_message-le s =
    omega (arith, length-with_payload data_chunk s.session_id (block s), block-le s)

done_message-le :
    (session_id : ℕ) (sha256 : List ℕ) → length (done_message session_id sha256) ≤ max_buffer_size
unfolding serialize_done
done_message-le session_id sha256 =
    omega
      (arith, length-with_payload transfer_done session_id (take 32 sha256), length-take 32 sha256)

-- The count behind a block.
behind_count :
    (s : TransferSender)
    → s.bytes_sent + length s.unread ≡ s.file_size
    → s.file_size < 2 ^ 64
    → ((behind s).bytes_sent ≡ s.bytes_sent + length (block s))
      × ((behind s).bytes_sent + length (behind s).unread ≡ (behind s).file_size)
unfolding behind block
behind_count s counted small =
    let fits : s.bytes_sent + length (block s) < 2 ^ 64 = omega (arith, length-block s) in
    let moved : (s.bytes_sent + (header_size + length (block s) - header_size)) % 2 ^ 64
        ≡ s.bytes_sent + length (block s) =
      omega (arith, fits) in
    (moved, omega (arith, moved, length-block s, length-behind s))

send_file-first :
    (s : TransferSender)
    → ltb 0 (length (block s)) ≡ true
    → (send_file 0 s).1 ≡ wrote (chunk_message s.session_id (block s)) ∷ []
unfolding send_file drive drive_on send_next_chunk block
send_file-first s more = rw (more, send_next_chunk) refl

-- From a sender that has counted what it has read of its file, a file of less than 2^64 bytes: however
-- many chunks are written, each message is at most MAX_BUFFER_SIZE bytes long, and the progress rises
-- with each chunk, never above the size of the file.
pub send_file-Climbs :
    (fuel : ℕ) (s : TransferSender)
    → s.bytes_sent + length s.unread ≡ s.file_size
    → s.file_size < 2 ^ 64
    → Climbs s.bytes_sent s.file_size (send_file fuel s).1
unfolding behind
send_file-Climbs zero s counted small = elim (Bool-cases (ltb 0 (length (block s)))) [
  | inl more ↦ rw (send_file-first s more) (chunk_message-le s, tt)
  | inr last ↦ rw (send_file-end s 0 last) (done_message-le s.session_id s.sha256, tt)
]
send_file-Climbs (suc fuel) s counted small = elim (Bool-cases (ltb 0 (length (block s)))) [
  | inl more ↦
      let (moved, counted') = behind_count s counted small in
      let some_left : 0 < length (block s) = ltb→lt 0 (length (block s)) more in
      rw (send_file-block s fuel more) (
        chunk_message-le s,
        (
          omega (arith, moved, some_left),
          omega (arith, counted'),
          refl,
          send_file-Climbs fuel (behind s) counted' small,
        ),
      )
  | inr last ↦ rw (send_file-end s (suc fuel) last) (done_message-le s.session_id s.sha256, tt)
]
