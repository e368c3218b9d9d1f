-- ===== src/Transfer/Receiver/Stream.antt =====
-- The receiver reads the sender's messages from a byte stream.
use net_transfer.Base.{
  ℕ, zero, suc, ◌+◌, ◌%◌, ◌^◌, ◌<◌, ◌≡◌, refl, ap, arith, true, List, [], ◌∷◌, ◌++◌, append_assoc,
  some, leb, le→leb, if◌then◌else◌, length, length-append, take, drop, take-append, drop-append,
}
use net_transfer.Protocol.{
  BaseHeader, IsWire, MessageType, data_chunk, header_size, type_of, type_code,
}
use net_transfer.Protocol.Reader.{ok}
use net_transfer.Protocol.Crc.{crc32}
use net_transfer.Protocol.Header.{build_header, serialize_header, deserialize_header, header_front}
use net_transfer.Protocol.Header.RoundTrip.{
  deserialize_header-serialize_header, length-serialize_header,
}
use net_transfer.Transfer.Platform.{Hash}
use net_transfer.Transfer.Digest.{max_buffer_size}
use net_transfer.Transfer.Sender.{Completion, failed, done, progress, header_or, with_payload}
use net_transfer.Transfer.Sender.Chunks.{IsBlock, chunk_message}
use net_transfer.Transfer.Receiver.{
  TransferReceiver, Notice, event, Pending, reading_chunk_header, reading_chunk, store,
}
use net_transfer.Transfer.Receiver.Chunks.{on_chunk_header, on_chunk, on_chunk_type, file_write}

-- async_read of `n` bytes from a stream that then ends.
unfoldable pub read : ℕ → List ℕ → Completion
read n stream = if leb n (length stream) then done (take n stream) else failed

-- A disk that takes everything.
abbrev pub same_bytes : List ℕ → List ℕ
same_bytes bytes = bytes

module _ (hash : Hash) (garbage : BaseHeader) where
  unfoldable pub serve_on :
      (TransferReceiver → List ℕ → TransferReceiver × List Notice)
      → TransferReceiver
      → List ℕ
      → Pending
      → TransferReceiver × List Notice
  serve_on go r stream reading_chunk_header =
      let (r', notices) = on_chunk_header hash true garbage r (read header_size stream) in
      let (r'', more) = go r' (drop header_size stream) in (r'', notices ++ more)
  serve_on go r stream (reading_chunk n) =
      let (r', notices) = on_chunk same_bytes r (read n stream) in
      let (r'', more) = go r' (drop n stream) in (r'', notices ++ more)
  serve_on go r stream _ = (r, [])

  -- At most `fuel` reads of a transfer, from the bytes that the peer sends.
  unfoldable pub serve : ℕ → TransferReceiver → List ℕ → TransferReceiver × List Notice
  unfolding serve_on
  serve zero r stream = (r, [])
  serve (suc fuel) r stream = serve_on (serve fuel) r stream r.pending

-- Where the receiver has got to: the file at `file_path` is open and holds `contents`.
pub record Holds (r : TransferReceiver) (contents : List ℕ) : Type 0 where
  pub reading : r.pending ≡ reading_chunk_header
  pub opened : r.file ≡ some r.file_path
  pub stored : r.disk r.file_path ≡ some contents

-- A header of a payload that fits the receiver's buffer.
pub header_read :
    (t : MessageType) (session_id : ℕ) (payload junk : List ℕ)
    → type_of (type_code t) ≡ t
    → session_id < 2 ^ 64
    → length payload < 2 ^ 32
    → (h : BaseHeader) × (deserialize_header
          (serialize_header (build_header t session_id (length payload % 2 ^ 32)) ++ junk)
        ≡ ok h)
      × (h.msg_type ≡ t)
      × (h.payload_len ≡ length payload)
      × (h.session_id ≡ session_id)
unfolding build_header
header_read t session_id payload junk named hs hp =
    let len : length payload % 2 ^ 32 ≡ length payload = omega arith in
    let h : BaseHeader = build_header t session_id (length payload % 2 ^ 32) in
    let wire : IsWire h = record {
      type_named = named;
      session_fits = hs;
      payload_len_fits = omega arith;
    } in
    (
      record h { header_crc = crc32 (header_front h) 18 },
      deserialize_header-serialize_header h junk refl refl wire,
      refl,
      len,
      refl,
    )

abbrev pub message_header : MessageType → ℕ → List ℕ → List ℕ
message_header t session_id payload =
    serialize_header (build_header t session_id (length payload % 2 ^ 32))

-- The receiver behind one block.
abbrev pub took : TransferReceiver → List ℕ → List ℕ → TransferReceiver
took r header block = record r {
  disk = file_write same_bytes r.disk r.file block;
  bytes_sent = (r.bytes_sent + length block) % 2 ^ 64;
  buffer = store header_size block (store 0 header r.buffer);
  pending = reading_chunk_header;
}

pub read-append : (n : ℕ) (xs ys : List ℕ) → length xs ≡ n → read n (xs ++ ys) ≡ done xs
unfolding read
read-append n xs ys e =
    rw
      (
        ← e,
        le→leb (length xs) (length (xs ++ ys)) (omega (arith, length-append xs ys)),
        take-append xs ys,
      )
      refl

pub drop-message : (n : ℕ) (xs ys : List ℕ) → length xs ≡ n → drop n (xs ++ ys) ≡ ys
drop-message n xs ys e = rw (← e) (drop-append xs ys)

pub store-front :
    (bytes buffer : List ℕ) → store 0 bytes buffer ≡ bytes ++ drop (length bytes) buffer
unfolding store
store-front bytes buffer = ap (λ n. bytes ++ drop n buffer) (omega arith)

module _ (hash : Hash) (garbage : BaseHeader) where
  pub on_chunk_header-message :
      (t : MessageType) (session_id : ℕ) (r : TransferReceiver) (payload : List ℕ)
      → type_of (type_code t) ≡ t
      → session_id < 2 ^ 64
      → length payload < 2 ^ 32
      → let header = message_header t session_id payload in
        on_chunk_header hash true garbage r (done header)
        ≡ on_chunk_type hash true (record r { buffer = store 0 header r.buffer }) (length payload) t
  unfolding on_chunk_header header_or
  on_chunk_header-message t session_id r payload named hs hp =
      let header : List ℕ = message_header t session_id payload in
      let (h, e, et, en, es) =
        header_read t session_id payload (drop (length header) r.buffer) named hs hp in
      rw (on_chunk_header, store-front header r.buffer, e, et, en) refl

  pub serve-header :
      (fuel : ℕ) (r : TransferReceiver) (header rest : List ℕ)
      → r.pending ≡ reading_chunk_header
      → length header ≡ header_size
      → let (r', notices) = on_chunk_header hash true garbage r (done header) in
        let next = serve hash garbage fuel r' rest in
        serve hash garbage (suc fuel) r (header ++ rest) ≡ (next.0, notices ++ next.1)
  unfolding serve serve_on
  serve-header fuel r header rest waiting n =
      rw
        (
          serve,
          waiting,
          read-append header_size header rest n,
          drop-message header_size header rest n,
        )
        refl

  serve-block :
      (fuel : ℕ) (r : TransferReceiver) (block rest : List ℕ)
      → r.pending ≡ reading_chunk (length block)
      → let (r', notices) = on_chunk same_bytes r (done block) in
        let next = serve hash garbage fuel r' rest in
        serve hash garbage (suc fuel) r (block ++ rest) ≡ (next.0, notices ++ next.1)
  unfolding serve serve_on
  serve-block fuel r block rest waiting =
      rw (serve, waiting, read-append (length block) block rest refl, drop-append block rest) refl

  -- One DATA_CHUNK takes two reads.
  pub serve-chunk :
      (fuel session_id : ℕ) (r : TransferReceiver) (block rest : List ℕ)
      → r.pending ≡ reading_chunk_header
      → IsBlock block
      → session_id < 2 ^ 64
      → let header = message_header data_chunk session_id block in
        let r' = took r header block in
        let next = serve hash garbage fuel r' rest in
        serve hash garbage (suc (suc fuel)) r (chunk_message session_id block ++ rest)
        ≡ (next.0, event (progress r'.bytes_sent r.file_size) ∷ next.1)
  unfolding on_chunk_type on_chunk with_payload
  serve-chunk fuel session_id r block rest waiting fits hs =
      let header : List ℕ = message_header data_chunk session_id block in
      let named : type_of (type_code data_chunk) ≡ data_chunk = unfold type_of type_code in refl in
      let small : leb (header_size + length block) max_buffer_size ≡ true =
        le→leb _ _ (omega (arith, fits.1)) in
      rw
        (
          append_assoc header block rest,
          serve-header (suc fuel) r header (block ++ rest) waiting (length-serialize_header _),
          on_chunk_header-message data_chunk session_id r block named hs (omega (arith, fits.1)),
          serve-block fuel
              (record r {
                buffer = store 0 header r.buffer;
                pending = reading_chunk (length block);
              })
              block rest refl,
          small,
        )
        refl
