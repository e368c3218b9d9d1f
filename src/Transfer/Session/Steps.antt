-- ===== src/Transfer/Session/Steps.antt =====
-- The messages that a transfer begins and ends with.
use net_transfer.Base.{
  ℕ, ◌-◌, ◌^◌, ◌≤◌, ◌<◌, ◌≡◌, refl, ap, sym, ◌∙◌, arith, Bool, true, false, List, [], ◌∷◌, ◌++◌,
  append-nil, ltb, le→ltb_false, if◌then◌else◌, length, drop,
}
use net_transfer.Protocol.{
  BaseHeader, OfferPayload, AckPayload, IsWireOffer, transfer_offer, transfer_accept, transfer_ack,
  header_size, type_of, type_code,
}
use net_transfer.Protocol.Header.RoundTrip.{length-serialize_header}
use net_transfer.Protocol.Offer.{serialize_offer}
use net_transfer.Protocol.Payload.{serialize_ack}
use net_transfer.Transfer.Digest.{max_buffer_size}
use net_transfer.Transfer.Sender.{
  TransferSender, Event, complete, finished, done, header_or, with_payload, on_reply_type, on_reply,
  send_next_chunk,
}
use net_transfer.Transfer.Sender
use net_transfer.Transfer.Sender.Acknowledged.{on_ack-serialize_ack, length-serialize_ack}
use net_transfer.Transfer.Receiver.{
  TransferReceiver, offer, offered, reading_offer, on_accept, on_handshake, on_offer_type,
  on_offer_header, take_offer, store,
}
use net_transfer.Transfer.Receiver.Offered.{on_offer-serialize_offer}
use net_transfer.Transfer.Receiver.Stream.{
  read, read-append, drop-message, store-front, header_read, message_header,
}
use net_transfer.Transfer.Session.{hear_payload, hear_offer, hear_checksum, hear_ack}

pub read-all : (xs : List ℕ) → read (length xs) xs ≡ done xs
read-all xs = let whole = read-append (length xs) xs [] refl in rw (append-nil xs) at whole

module _ (valid : List ℕ → Bool) (blank : BaseHeader) (blank_offer : OfferPayload) where
  -- The receiver that has asked its user.
  abbrev pub asked_receiver : TransferReceiver → ℕ → OfferPayload → TransferReceiver
  asked_receiver r session_id op =
      let payload = serialize_offer op in
      let header = message_header transfer_offer session_id payload in
      record r {
        buffer = store header_size payload (store 0 header r.buffer);
        pending_session_id = session_id;
        pending_offer = op;
        file_size = op.file_size;
        pending = offered;
      }

  on_offer_header-message :
      (r : TransferReceiver) (session_id : ℕ) (payload : List ℕ)
      → session_id < 2 ^ 64
      → length payload ≤ max_buffer_size - header_size
      → let header = message_header transfer_offer session_id payload in
        on_offer_header blank r (done header) ≡ record r {
          buffer = store 0 header r.buffer;
          pending_session_id = session_id;
          pending = reading_offer (length payload);
        }
  unfolding on_offer_header on_offer_type header_or
  on_offer_header-message r session_id payload hs fits =
      let header : List ℕ = message_header transfer_offer session_id payload in
      let named : type_of (type_code transfer_offer) ≡ transfer_offer =
        unfold type_of type_code in refl in
      let (h, e, et, en, es) =
        header_read transfer_offer session_id payload (drop (length header) r.buffer) named hs
          (omega arith) in
      let small : ltb (max_buffer_size - header_size) (length payload) ≡ false =
        le→ltb_false _ _ fits in
      rw (on_offer_header, store-front header r.buffer, e, et, en, es, small) refl

  -- The receiver that has read an offer, and is about to take it.
  abbrev pub reading_receiver : TransferReceiver → ℕ → OfferPayload → TransferReceiver
  reading_receiver r session_id op =
      let payload = serialize_offer op in
      let header = message_header transfer_offer session_id payload in
      record r {
        buffer = store header_size payload (store 0 header r.buffer);
        pending_session_id = session_id;
        pending = reading_offer (length payload);
      }

  pub hear_offer-taken :
      (r : TransferReceiver) (session_id : ℕ) (op : OfferPayload)
      → IsWireOffer op
      → length (serialize_offer op) ≤ max_buffer_size - header_size
      → session_id < 2 ^ 64
      → hear_offer valid blank blank_offer r
          (with_payload transfer_offer session_id (serialize_offer op) ++ [])
        ≡ take_offer valid (reading_receiver r session_id op) op
  unfolding hear_offer hear_payload on_accept on_handshake with_payload
  hear_offer-taken r session_id op wire fits hs =
      let payload : List ℕ = serialize_offer op in
      let header : List ℕ = message_header transfer_offer session_id payload in
      let junk : List ℕ = drop (length header) r.buffer in
      let n : length header ≡ header_size = length-serialize_header _ in
      let r0 : TransferReceiver = on_handshake (on_accept r true) true in
      let r1 : TransferReceiver = record r0 {
        buffer = store 0 header r.buffer;
        pending_session_id = session_id;
        pending = reading_offer (length payload);
      } in
      rw
        (
          append-nil (header ++ payload),
          hear_offer,
          read-append header_size header payload n,
          on_offer_header-message r0 session_id payload hs fits,
          drop-message header_size header payload n,
          read-all payload,
          on_offer-serialize_offer blank_offer valid r1 op header junk wire
              (store-front header r.buffer) n,
        )
        refl

  pub hear_offer-message :
      (r : TransferReceiver) (session_id : ℕ) (op : OfferPayload)
      → IsWireOffer op
      → length (serialize_offer op) ≤ max_buffer_size - header_size
      → session_id < 2 ^ 64
      → valid op.device_name ≡ true
      → hear_offer valid blank blank_offer r
          (with_payload transfer_offer session_id (serialize_offer op) ++ [])
        ≡ (asked_receiver r session_id op, offer op ∷ [])
  unfolding take_offer
  hear_offer-message r session_id op wire fits hs trusted =
      hear_offer-taken r session_id op wire fits hs ∙ rw trusted refl

module _ (blank : BaseHeader) where
  -- The sender that reads the acceptance goes on with the file.
  pub on_reply-accept :
      (s : TransferSender) (write_ok : Bool) (session_id : ℕ)
      → session_id < 2 ^ 64
      → on_reply blank write_ok s (done (message_header transfer_accept session_id []))
        ≡ send_next_chunk write_ok s
  unfolding on_reply on_reply_type header_or
  on_reply-accept s write_ok session_id hs =
      let header : List ℕ = message_header transfer_accept session_id [] in
      let named : type_of (type_code transfer_accept) ≡ transfer_accept =
        unfold type_of type_code in refl in
      let (h, e, et, en, es) =
        header_read transfer_accept session_id [] [] named hs (omega arith) in
      let whole = rw (append-nil header) at e in rw (on_reply, whole, et, en) refl

  module _ (blank_ack : AckPayload) where
    -- The sender that reads the acknowledgement is at its end.
    pub hear_ack-message :
        (s : TransferSender) (session_id : ℕ) (p : AckPayload)
        → session_id < 2 ^ 64
        → hear_ack blank blank_ack s (with_payload transfer_ack session_id (serialize_ack p) ++ [])
          ≡ (
            record s { pending = finished },
            if p.checksum_ok then complete true s.file_path ∷ [] else [],
          )
    unfolding hear_ack hear_checksum with_payload
    hear_ack-message s session_id p hs =
        let payload : List ℕ = serialize_ack p in
        let header : List ℕ = message_header transfer_ack session_id payload in
        let n : length header ≡ header_size = length-serialize_header _ in
        let told = on_ack-serialize_ack blank blank_ack p s session_id hs in
        let told' =
          on_ack-serialize_ack blank blank_ack p (record s { pending = Sender.reading_ack 1 })
            session_id hs in
        let one : read 1 payload ≡ done payload =
          ap (λ n. read n payload) (sym (length-serialize_ack p)) ∙ read-all payload in
        rw
          (
            append-nil (header ++ payload),
            hear_ack,
            read-append header_size header payload n,
            told.0,
            drop-message header_size header payload n,
            one,
            told'.1,
          )
          refl
