-- ===== src/Transfer/Receiver/Overflow.antt =====
-- A DATA_CHUNK that is longer than the receiver's buffer.
use net_transfer.Base.{
  ℕ, ◌+◌, ◌^◌, ◌<◌, ◌≡◌, refl, arith, true, false, List, none, inl, inr, Bool-cases, leb,
  if◌then◌else◌, length,
}
use net_transfer.Protocol.{BaseHeader, data_chunk, header_size, type_of, type_code}
use net_transfer.Transfer.Platform.{Hash}
use net_transfer.Transfer.Digest.{max_buffer_size}
use net_transfer.Transfer.Sender.{failed, done}
use net_transfer.Transfer.Receiver.{TransferReceiver, reading_chunk, accepting, undefined, listen}
use net_transfer.Transfer.Receiver.Chunks.{
  on_chunk_header, on_chunk_type, on_part, on_chunk, fail_transfer,
}
use net_transfer.Transfer.Receiver.Stream.{message_header, on_chunk_header-message}

fits_or_not : (len : ℕ) → leb (header_size + len) max_buffer_size ≡ leb len 32746
fits_or_not len = ground arith

too_long : (len : ℕ) → 32746 < len → leb (header_size + len) max_buffer_size ≡ false
too_long len h = ground arith

-- While parts arrive.
on_part_lem :
    (arrived : ℕ) (r : TransferReceiver)
    → on_part arrived r ≡ (if leb arrived 32746 then r else record r { pending = undefined })
unfolding on_part
on_part_lem arrived r = elim (Bool-cases (leb arrived 32746)) [
  | inl fits ↦ rw (fits_or_not arrived, fits, on_part) refl
  | inr long ↦ rw (fits_or_not arrived, long, on_part) refl
]

-- A peer whose offer was accepted can make the receiver write outside of its buffer. After the header of a
-- DATA_CHUNK with more than 32746 bytes and fewer than 2^32, with a right checksum, the receiver reads
-- them all: while at most 32746 have arrived it waits for the others, in the same state, and if the
-- connection ends in that, it closes the file and accepts connections again; when more have arrived,
-- or the whole payload, memory behind the buffer is overwritten.
pub on_chunk_header_overflow :
    (hash : Hash) (garbage : BaseHeader) (r : TransferReceiver) (session_id : ℕ) (payload : List ℕ)
    (arrived : ℕ) (kept : List ℕ → List ℕ)
    → session_id < 2 ^ 64
    → 32746 < length payload
    → length payload < 2 ^ 32
    → let r' =
        (on_chunk_header hash true garbage r
          (done (message_header data_chunk session_id payload))).0 in
      (r'.pending ≡ reading_chunk (length payload))
      × (on_part arrived r' ≡ (if leb arrived 32746 then r' else record r' { pending = undefined }))
      × ((on_chunk kept r' failed).0.pending ≡ accepting)
      × ((on_chunk kept r' failed).0.file ≡ none)
      × ((on_chunk kept r' (done payload)).0.pending ≡ undefined)
unfolding on_chunk_type on_chunk fail_transfer listen
on_chunk_header_overflow hash garbage r session_id payload arrived kept hs long hp =
    let named : type_of (type_code data_chunk) ≡ data_chunk = unfold type_of type_code in refl in
    let read = on_chunk_header-message hash garbage data_chunk session_id r payload named hs hp in
    rw read
      (refl, on_part_lem arrived _, refl, refl, rw (too_long (length payload) long, on_chunk) refl)
