-- ===== src/Transfer/Session/Arrives.antt =====
-- What a whole transfer ends with.
use net_transfer.Base.{
  ℕ, ◌*◌, ◌-◌, ◌^◌, ◌≤◌, ◌<◌, ◌≡◌, refl, ap, sym, ◌∙◌, arith, Bool, true, List, [], ◌∷◌, ◌++◌, none,
  some, same_refl, if◌then◌else◌, length,
}
use net_transfer.Protocol.{
  BaseHeader, OfferPayload, AckPayload, IsWireOffer, transfer_accept, transfer_ack, header_size,
}
use net_transfer.Protocol.Header.RoundTrip.{length-serialize_header}
use net_transfer.Protocol.Offer.{serialize_offer}
use net_transfer.Protocol.Payload.{serialize_ack}
use net_transfer.Transfer.Platform.{Hash, Paths, put}
use net_transfer.Transfer.Digest.{max_buffer_size, file_digest}
use net_transfer.Transfer.Sender.{
  TransferSender, finished, reading_reply, complete, start, offer, wrote, with_payload, on_connect,
  send_offer, on_reply, done,
}
use net_transfer.Transfer.Sender
use net_transfer.Transfer.Sender.Chunks.{send_file, send_file-Sends, flatten}
use net_transfer.Transfer.Receiver.{
  TransferReceiver, Notice, event, accepting, reading_chunk_header, accept, on_accept_written,
}
use net_transfer.Transfer.Receiver.Files.{resolve_file_path}
use net_transfer.Transfer.Receiver.Stream.{Holds, read, read-append, message_header}
use net_transfer.Transfer.Receiver.Finish.{is_intact, written}
use net_transfer.Transfer.Complete.{transfer, transfer-Received}
use net_transfer.Transfer.Session.{Ended, hear_ack, transferred, accepted, session}
use net_transfer.Transfer.Session.Steps.{
  asked_receiver, hear_offer-message, on_reply-accept, hear_ack-message,
}

written-append : (xs ys : List Notice) → written (xs ++ ys) ≡ written xs ++ written ys
written-append [] ys = refl
written-append (event (wrote m) ∷ ns) ys = ap (λ ms. m ∷ ms) (written-append ns ys)
written-append (event (Sender.progress a b) ∷ ns) ys = written-append ns ys
written-append (event (complete b p) ∷ ns) ys = written-append ns ys
written-append (Notice.offer op ∷ ns) ys = written-append ns ys

module _ (hash : Hash) (paths : Paths) (valid : List ℕ → Bool) (blank : BaseHeader)
    (blank_offer : OfferPayload) (blank_ack : AckPayload) where
  -- The receiver whose user has accepted, and whose file is open.
  opened : TransferReceiver → TransferSender → List ℕ → TransferReceiver
  opened r s path = record (asked_receiver valid blank blank_offer r s.session_id (offer paths s)) {
    file_path = path;
    file = some path;
    disk = put r.disk path [];
    pending = reading_chunk_header;
  }

  -- The sender whose offer is written.
  waiting : TransferSender → TransferSender
  waiting s = record s { pending = reading_reply }

  on_accept_written-opened :
      (downloads path : List ℕ) (names : ℕ) (s : TransferSender) (r : TransferReceiver)
      → resolve_file_path paths r.disk names downloads (paths.filename s.file_path) ≡ some path
      → on_accept_written paths downloads names true
          (accept 0 (asked_receiver valid blank blank_offer r s.session_id (offer paths s))).0
          true
        ≡ opened r s path
  unfolding accept opened offer on_accept_written
  on_accept_written-opened downloads path names s r resolved = rw (on_accept_written, resolved) refl

  session-transfer :
      (downloads path : List ℕ) (names rounds fuel : ℕ) (s : TransferSender) (r : TransferReceiver)
      → s.session_id < 2 ^ 64
      → IsWireOffer (offer paths s)
      → length (serialize_offer (offer paths s)) ≤ max_buffer_size - header_size
      → valid s.device_name ≡ true
      → resolve_file_path paths r.disk names downloads (paths.filename s.file_path) ≡ some path
      → let sent = send_file rounds (waiting s) in
        let out = transfer hash blank rounds fuel (waiting s) (opened r s path) in
        let (s4, events) = hear_ack blank blank_ack sent.0 (flatten (written out.1)) in
        session hash paths valid blank blank_offer blank_ack downloads names rounds fuel s r
        ≡ record {
          sender = s4;
          receiver = out.0;
          asked = Notice.offer (offer paths s) ∷ [];
          notices = out.1;
          events = events;
        }
  unfolding session accepted transferred send_file waiting on_connect Sender.on_handshake send_offer
      accept
  session-transfer downloads path names rounds fuel s r hs wire fits trusted resolved =
      let go : TransferReceiver × List Notice → Ended =
        accepted hash paths valid blank blank_offer blank_ack downloads names rounds fuel
          (waiting s) in
      let asked : List Notice = Notice.offer (offer paths s) ∷ [] in
      let header : List ℕ = message_header transfer_accept s.session_id [] in
      let hello : read header_size (header ++ []) ≡ done header =
        read-append header_size header [] (length-serialize_header _) in
      ap go (
        hear_offer-message valid blank blank_offer r s.session_id (offer paths s) wire fits hs
          trusted)
      ∙ ap
          (λ r'.
            transferred hash paths valid blank blank_offer blank_ack rounds fuel asked r'
              (on_reply blank true (waiting s) (read header_size (header ++ []))))
          (on_accept_written-opened downloads path names s r resolved)
      ∙ ap
          (transferred hash paths valid blank blank_offer blank_ack rounds fuel asked
            (opened r s path))
          (ap (on_reply blank true (waiting s)) hello
            ∙ on_reply-accept blank (waiting s) true s.session_id hs)

  session_lem_at :
      (downloads path : List ℕ) (names rounds fuel : ℕ) (s : TransferSender) (r : TransferReceiver)
      → s.bytes_sent ≡ 0
      → s.session_id < 2 ^ 64
      → s.sha256 ≡ file_digest hash s.unread
      → IsWireOffer (offer paths s)
      → length (serialize_offer (offer paths s)) ≤ max_buffer_size - header_size
      → valid s.device_name ≡ true
      → resolve_file_path paths r.disk names downloads (paths.filename s.file_path) ≡ some path
      → length s.unread < rounds
      → 2 * length s.unread < fuel
      → let e =
          session hash paths valid blank blank_offer blank_ack downloads names rounds fuel s r in
        (e.asked ≡ Notice.offer (offer paths s) ∷ [])
        × (e.receiver.disk path ≡ some s.unread)
        × (e.receiver.pending ≡ accepting)
        × (e.sender.pending ≡ finished)
        × (e.events ≡ complete true s.file_path ∷ [])
  unfolding opened waiting offer
  session_lem_at downloads path names rounds fuel s r begun hs digest wire fits trusted resolved hr
        hf =
      let r3 : TransferReceiver = opened r s path in
      let sent = send_file rounds (waiting s) in
      let out = transfer hash blank rounds fuel (waiting s) r3 in
      let v : Holds r3 [] = record {
        reading = refl;
        opened = refl;
        stored = rw (same_refl path) refl;
      } in
      let sends = send_file-Sends rounds (waiting s) (omega (arith, begun)) hr in
      let w =
        transfer-Received hash blank rounds fuel (waiting s) r3 (omega (arith, begun)) hs v hr hf in
      let good : is_intact hash r3.pending_offer s.unread ≡ true =
        rw digest (same_refl (file_digest hash s.unread)) in
      let ack : List ℕ =
        with_payload transfer_ack s.session_id
          (serialize_ack (record { checksum_ok = is_intact hash r3.pending_offer s.unread })) in
      let stream : written out.1 ≡ ack ∷ [] =
        ap written w.told ∙ written-append w.before _ ∙ ap (λ ms. ms ++ ack ∷ []) w.quiet in
      let heard =
        ap (λ ms. hear_ack blank blank_ack sent.0 (flatten ms)) stream
        ∙ hear_ack-message blank blank_ack sent.0 s.session_id
            (record { checksum_ok = is_intact hash r3.pending_offer s.unread }) hs in
      let whole =
        session-transfer downloads path names rounds fuel s r hs wire fits trusted resolved in
      (
        ap (λ e. e.asked) whole,
        ap (λ e. e.receiver.disk path) whole
            ∙ w.stored
            ∙ ap (λ g. if g then some s.unread else none) good,
        ap (λ e. e.receiver.pending) whole ∙ w.ready,
        ap (λ e. e.sender.pending) whole ∙ ap (λ p. p.0.pending) heard,
        ap (λ e. e.events) whole
            ∙ ap (λ p. p.1) heard
            ∙ ap (λ g. if g then complete true sent.0.file_path ∷ [] else []) good
            ∙ ap (λ p. complete true p ∷ []) sends.same_path,
      )

  -- For a sender that has started on a readable file, with an offer that fits its fields and the
  -- receiver's buffer, a peer that the receiver trusts, a free name among those that it tries, and
  -- more rounds than the file has bytes and more than twice as many reads: if every operation
  -- completes and the user accepts, the user was asked with the sender's own offer, the file stands at
  -- the free name with the contents that the sender read, the receiver accepts connections again, and
  -- the sender is at its end and has reported success.
  pub session_lem :
      (downloads file_path device_name contents path : List ℕ) (names rounds fuel random : ℕ)
      (s : TransferSender) (r : TransferReceiver)
      → start hash file_path device_name random (some contents) ≡ (true, some s)
      → random < 2 ^ 64
      → IsWireOffer (offer paths s)
      → length (serialize_offer (offer paths s)) ≤ max_buffer_size - header_size
      → valid device_name ≡ true
      → resolve_file_path paths r.disk names downloads (paths.filename file_path) ≡ some path
      → length contents < rounds
      → 2 * length contents < fuel
      → let e =
          session hash paths valid blank blank_offer blank_ack downloads names rounds fuel s r in
        (e.asked ≡ Notice.offer (offer paths s) ∷ [])
        × (e.receiver.disk path ≡ some contents)
        × (e.receiver.pending ≡ accepting)
        × (e.sender.pending ≡ finished)
        × (e.events ≡ complete true file_path ∷ [])
  unfolding start
  session_lem downloads file_path device_name contents path names rounds fuel random s r started hs
        wire fits trusted resolved hr hf =
      let e : record {
        file_path = file_path;
        device_name = device_name;
        session_id = random;
        sha256 = file_digest hash contents;
        file_size = length contents;
        bytes_sent = 0;
        unread = contents;
        pending = Sender.connecting;
      }
          ≡ s =
        cc in
      let unread : s.unread ≡ contents = ap (λ t. t.unread) (sym e) in
      let from : s.file_path ≡ file_path = ap (λ t. t.file_path) (sym e) in
      let digest : s.sha256 ≡ file_digest hash s.unread =
        ap (λ t. t.sha256) (sym e) ∙ ap (file_digest hash) (sym unread) in
      let small : s.session_id ≡ random = ap (λ t. t.session_id) (sym e) in
      let whole =
        session_lem_at downloads path names rounds fuel s r (ap (λ t. t.bytes_sent) (sym e))
          (omega (arith, small)) digest wire fits (ap (λ t. valid t.device_name) (sym e) ∙ trusted)
          (ap (λ p. resolve_file_path paths r.disk names downloads (paths.filename p)) from
            ∙ resolved)
          (omega (arith, ap length unread)) (omega (arith, ap length unread)) in
      (
        whole.0,
        whole.1 ∙ ap some unread,
        whole.2,
        whole.3,
        whole.4 ∙ ap (λ p. complete true p ∷ []) from,
      )
