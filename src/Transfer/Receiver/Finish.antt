-- ===== src/Transfer/Receiver/Finish.antt =====
-- The receiver at the end of a transfer.
use net_transfer.Base.{
  ℕ, zero, suc, ◌*◌, ◌^◌, ◌<◌, ◌≡◌, refl, ap, arith, Bool, true, false, List, [], ◌∷◌, ◌++◌, map,
  append_assoc, append-nil, none, some, same, same_refl, if◌then◌else◌, length, take, length-take,
  All,
}
use net_transfer.Protocol.{
  BaseHeader, OfferPayload, data_chunk, transfer_done, transfer_ack, type_of, type_code,
}
use net_transfer.Protocol.Header.RoundTrip.{length-serialize_header}
use net_transfer.Protocol.Payload.{serialize_ack, serialize_done}
use net_transfer.Transfer.Platform.{Hash, Disk, contents_of}
use net_transfer.Transfer.Platform
use net_transfer.Transfer.Digest.{file_digest}
use net_transfer.Transfer.Sender.{wrote, complete, progress, with_payload}
use net_transfer.Transfer.Sender.Chunks.{IsBlock, chunk_message, done_message, flatten}
use net_transfer.Transfer.Receiver.{
  TransferReceiver, Notice, event, offer, accepting, listen, store,
}
use net_transfer.Transfer.Receiver.Chunks.{on_chunk_type, finish_transfer, file_write}
use net_transfer.Transfer.Receiver.Stream.{
  serve, serve_on, serve-chunk, serve-header, on_chunk_header-message, message_header, took, Holds,
}

-- The messages among the notices.
abbrev pub written : List Notice → List (List ℕ)
written [] = []
written (event (wrote m) ∷ ns) = m ∷ written ns
written (event (progress a b) ∷ ns) = written ns
written (event (complete b p) ∷ ns) = written ns
written (offer op ∷ ns) = written ns

module _ (hash : Hash) where
  -- The checksum of what arrived is the one of the offer.
  abbrev pub is_intact : OfferPayload → List ℕ → Bool
  is_intact op contents = same (file_digest hash contents) op.sha256

  -- What a finished transfer leaves: an intact file is kept and a damaged one removed, the sender and
  -- the user are told which, in this order, and the receiver accepts again.
  pub record Received (path : List ℕ) (op : OfferPayload) (session_id : ℕ) (contents : List ℕ)
      (out : TransferReceiver × List Notice) : Type 0 where
    pub stored : out.0.disk path ≡ (if is_intact op contents then some contents else none)
    pub before : List Notice
    pub told :
        out.1
        ≡ before
          ++ event (
              wrote (
                with_payload transfer_ack session_id
                  (serialize_ack (record { checksum_ok = is_intact op contents }))))
            ∷ event (complete (is_intact op contents) path)
            ∷ []
    pub quiet : written before ≡ []
    pub closed : out.0.file ≡ none
    pub ready : out.0.pending ≡ accepting

  abbrev pub ReceivedBy : TransferReceiver → List ℕ → TransferReceiver × List Notice → Type 0
  ReceivedBy r = Received r.file_path r.pending_offer r.pending_session_id

  kept_or_removed :
      (disk : Disk) (path contents : List ℕ) (good : Bool)
      → disk path ≡ some contents
      → (if good then disk else Platform.remove disk path) path
        ≡ (if good then some contents else none)
  kept_or_removed disk path contents true e = e
  kept_or_removed disk path contents false e = rw (same_refl path) refl

  finish_transfer-Received :
      (r : TransferReceiver) (contents : List ℕ)
      → Holds r contents
      → ReceivedBy r contents (finish_transfer hash true r)
  unfolding finish_transfer listen
  finish_transfer-Received r contents v = record {
    stored =
        rw v.stored (
          kept_or_removed r.disk r.file_path contents (is_intact r.pending_offer contents)
            v.stored);
    before = [];
    told = rw v.stored refl;
    quiet = refl;
    closed = refl;
    ready = refl;
  }

module _ (hash : Hash) (garbage : BaseHeader) where
  serve-accepting :
      (fuel : ℕ) (r : TransferReceiver) (rest : List ℕ)
      → r.pending ≡ accepting
      → serve hash garbage fuel r rest ≡ (r, [])
  unfolding serve serve_on
  serve-accepting zero r rest e = refl
  serve-accepting (suc fuel) r rest e = rw (serve, e) refl

  -- What the receiver does not read yet changes nothing.
  Received-rest :
      (path : List ℕ) (op : OfferPayload) (session_id fuel : ℕ) (contents rest : List ℕ)
      (out : TransferReceiver × List Notice)
      → Received hash path op session_id contents out
      → let next = serve hash garbage fuel out.0 rest in
        Received hash path op session_id contents (next.0, out.1 ++ next.1)
  Received-rest path op session_id fuel contents rest out v =
      rw (serve-accepting fuel out.0 rest v.ready, append-nil out.1) v

  serve-done :
      (fuel session_id : ℕ) (sha256 : List ℕ) (r : TransferReceiver) (contents : List ℕ)
      → Holds r contents
      → session_id < 2 ^ 64
      → ReceivedBy hash r contents
          (serve hash garbage (suc fuel) r (done_message session_id sha256))
  unfolding with_payload on_chunk_type serialize_done
  serve-done fuel session_id sha256 r contents v hs =
      let payload : List ℕ = take 32 sha256 in
      let header : List ℕ = message_header transfer_done session_id payload in
      let named : type_of (type_code transfer_done) ≡ transfer_done =
        unfold type_of type_code in refl in
      let r' : TransferReceiver = record r { buffer = store 0 header r.buffer } in
      let v' : Holds r' contents = record {
        reading = v.reading;
        opened = v.opened;
        stored = v.stored;
      } in
      rw
        (
          serve-header hash garbage fuel r header payload v.reading (length-serialize_header _),
          on_chunk_header-message hash garbage transfer_done session_id r payload named hs
              (omega (arith, length-take 32 sha256)),
        )
        (Received-rest r.file_path r.pending_offer r.pending_session_id fuel contents payload
          (finish_transfer hash true r') (finish_transfer-Received hash r' contents v'))

  took-Holds :
      (r : TransferReceiver) (header block contents : List ℕ)
      → Holds r contents
      → Holds (took r header block) (contents ++ block)
  unfolding file_write
  took-Holds r header block contents v = record {
    reading = refl;
    opened = v.opened;
    stored = rw (v.opened, v.stored, same_refl r.file_path) refl;
  }

  Received-later :
      (path : List ℕ) (op : OfferPayload) (session_id : ℕ) (contents : List ℕ) (sent total : ℕ)
      (out : TransferReceiver × List Notice)
      → Received hash path op session_id contents out
      → Received hash path op session_id contents (out.0, event (progress sent total) ∷ out.1)
  Received-later path op session_id contents sent total out v = record {
    stored = v.stored;
    before = event (progress sent total) ∷ v.before;
    told = ap (λ ns. event (progress sent total) ∷ ns) v.told;
    quiet = v.quiet;
    closed = v.closed;
    ready = v.ready;
  }

  -- A stream of DATA_CHUNKs and TRANSFER_DONE: all of the blocks reach the file, in order.
  pub serve-Received :
      (fuel session_id : ℕ) (sha256 : List ℕ) (r : TransferReceiver) (contents : List ℕ)
      (blocks : List (List ℕ))
      → Holds r contents
      → All IsBlock blocks
      → session_id < 2 ^ 64
      → 2 * length blocks < fuel
      → ReceivedBy hash r (contents ++ flatten blocks) (
          serve hash garbage fuel r
            (flatten (map (chunk_message session_id) blocks) ++ done_message session_id sha256))
  serve-Received zero session_id sha256 r contents blocks v fits hs hf = absurd (omega arith)
  serve-Received (suc fuel) session_id sha256 r contents [] v fits hs hf =
      rw (append-nil contents) (serve-done fuel session_id sha256 r contents v hs)
  serve-Received (suc zero) session_id sha256 r contents (b ∷ bs) v fits hs hf =
      absurd (omega arith)
  serve-Received (suc (suc fuel)) session_id sha256 r contents (b ∷ bs) v fits hs hf =
      let header : List ℕ = message_header data_chunk session_id b in
      let rest : List ℕ =
        flatten (map (chunk_message session_id) bs) ++ done_message session_id sha256 in
      let r' : TransferReceiver = took r header b in
      let ih =
        serve-Received fuel session_id sha256 r' (contents ++ b) bs
          (took-Holds r header b contents v) fits.1 hs (omega arith) in
      rw
        (
          append_assoc (chunk_message session_id b) (flatten (map (chunk_message session_id) bs))
              (done_message session_id sha256),
          serve-chunk hash garbage fuel session_id r b rest v.reading fits.0 hs,
          ← append_assoc contents b (flatten bs),
        )
        (Received-later r.file_path r.pending_offer r.pending_session_id
          ((contents ++ b) ++ flatten bs) r'.bytes_sent r.file_size
          (serve hash garbage fuel r' rest) ih)
