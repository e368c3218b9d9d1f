-- ===== src/Transfer/Complete.antt =====
-- The sender's and the receiver's halves of a transfer together: from an accepted offer to the file.
use net_transfer.Base.{
  ℕ, ◌*◌, ◌^◌, ◌≤◌, ◌<◌, ◌≡◌, refl, ap, sym, ◌∙◌, arith, Bool, true, List, [], ◌∷◌, ◌++◌, map,
  append_assoc, append-nil, none, some, same_refl, if◌then◌else◌, length, length-append, All,
}
use net_transfer.Protocol.{BaseHeader, transfer_ack}
use net_transfer.Protocol.Payload.{serialize_ack}
use net_transfer.Transfer.Platform.{Hash}
use net_transfer.Transfer.Digest.{file_digest}
use net_transfer.Transfer.Sender.{TransferSender, wrote, complete, with_payload}
use net_transfer.Transfer.Sender.Chunks.{
  IsBlock, flatten, messages, chunk_message, done_message, send_file, send_file-Sends,
}
use net_transfer.Transfer.Receiver.{TransferReceiver, Notice, event, accepting}
use net_transfer.Transfer.Receiver.Stream.{serve, Holds}
use net_transfer.Transfer.Receiver.Finish.{ReceivedBy, is_intact, serve-Received}

flatten-append : (xs ys : List (List ℕ)) → flatten (xs ++ ys) ≡ flatten xs ++ flatten ys
flatten-append [] ys = refl
flatten-append (x ∷ xs) ys =
    rw (flatten-append xs ys, append_assoc x (flatten xs) (flatten ys)) refl

-- Blocks that are not empty are no more than their bytes.
length-flatten :
    (blocks : List (List ℕ)) → All IsBlock blocks → length blocks ≤ length (flatten blocks)
length-flatten [] fits = omega arith
length-flatten (b ∷ bs) fits =
    omega (arith, length-append b (flatten bs), length-flatten bs fits.1, fits.0.0)

module _ (hash : Hash) (garbage : BaseHeader) where
  -- What the receiver makes of all that the sender writes once the offer is accepted.
  abbrev pub transfer : ℕ → ℕ → TransferSender → TransferReceiver → TransferReceiver × List Notice
  transfer rounds fuel s r = serve hash garbage fuel r (flatten (messages (send_file rounds s).1))

  -- For a sender with a file still unread and a receiver with its file open and empty, and a disk that
  -- takes all that is written, with more rounds than the file has bytes and more than twice as many reads: the receiver ends with the whole
  -- file on the disk if its digest is the one of the offer, and without it otherwise; it tells the sender
  -- and the user which, and accepts again.
  pub transfer-Received :
      (rounds fuel : ℕ) (s : TransferSender) (r : TransferReceiver)
      → s.bytes_sent < 2 ^ 64
      → s.session_id < 2 ^ 64
      → Holds r []
      → length s.unread < rounds
      → 2 * length s.unread < fuel
      → ReceivedBy hash r s.unread (transfer rounds fuel s r)
  transfer-Received rounds fuel s r small hs v hr hf =
      let sends = send_file-Sends rounds s small hr in
      let few = length-flatten sends.blocks sends.fit in
      let stream =
        flatten-append (map (chunk_message s.session_id) sends.blocks)
          (done_message s.session_id s.sha256 ∷ []) in
      rw (sends.sent, stream, append-nil (done_message s.session_id s.sha256), ← sends.whole)
        (serve-Received hash garbage fuel s.session_id s.sha256 r [] sends.blocks v sends.fit hs
          (omega (arith, few, ap length sends.whole)))

  -- If the offer carries the digest of the file that the sender has still to read, the receiver's file
  -- is open and empty, and there are more rounds than the file has bytes and more than twice as many
  -- reads, then the receiver ends with the file, byte for byte, reports success
  -- for its path as the last thing, and accepts again.
  transfer_arrives :
      (rounds fuel : ℕ) (s : TransferSender) (r : TransferReceiver)
      → s.bytes_sent < 2 ^ 64
      → s.session_id < 2 ^ 64
      → Holds r []
      → length s.unread < rounds
      → 2 * length s.unread < fuel
      → r.pending_offer.sha256 ≡ file_digest hash s.unread
      → let out = transfer rounds fuel s r in
        (out.0.disk r.file_path ≡ some s.unread)
        × (out.0.pending ≡ accepting)
        × (before : List Notice) × (out.1 ≡ before ++ event (complete true r.file_path) ∷ [])
  transfer_arrives rounds fuel s r small hs v hr hf checksum =
      let w = transfer-Received rounds fuel s r small hs v hr hf in
      let good : is_intact hash r.pending_offer s.unread ≡ true =
        rw checksum (same_refl (file_digest hash s.unread)) in
      let ack : Bool → Notice = λ g. event (
        wrote (
          with_payload transfer_ack r.pending_session_id
            (serialize_ack (record { checksum_ok = g })))) in
      (
        w.stored ∙ ap (λ g. if g then some s.unread else none) good,
        w.ready,
        w.before ++ ack true ∷ [],
        w.told
            ∙ ap (λ g. w.before ++ ack g ∷ event (complete g r.file_path) ∷ []) good
            ∙ sym (append_assoc w.before (ack true ∷ []) (event (complete true r.file_path) ∷ [])),
      )
