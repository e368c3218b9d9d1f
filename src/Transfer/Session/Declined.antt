-- ===== src/Transfer/Session/Declined.antt =====
-- A transfer of src/core/transfer.cpp that does not take place: the receiving user declines, or the peer is
-- not trusted, and the receiver closes the connection. A receiver whose user has declined shuts TLS
-- down, for which it waits for the sender: to answer, or to close the connection.
use net_transfer.Base.{
  ℕ, ◌-◌, ◌^◌, ◌≤◌, ◌<◌, ◌≡◌, refl, arith, Bool, true, false, List, [], ◌∷◌, ◌++◌, append-nil,
  if◌then◌else◌, length, drop, leb,
}
use net_transfer.Protocol.{
  BaseHeader, OfferPayload, RejectReason, IsWireOffer, transfer_reject, header_size, type_of,
  type_code,
}
use net_transfer.Protocol.Header.RoundTrip.{length-serialize_header}
use net_transfer.Protocol.Offer.{serialize_offer}
use net_transfer.Protocol.Payload.{serialize_reject}
use net_transfer.Transfer.Platform.{Paths}
use net_transfer.Transfer.Digest.{max_buffer_size}
use net_transfer.Transfer.Sender.{
  TransferSender, Event, Pending, reading_reject, reading_reply, finished, complete, header_or,
  with_payload, done, on_connect, on_handshake, send_offer, offer, on_reply, on_reply_type,
  on_reject, into_buffer,
}
use net_transfer.Transfer.Sender.Chunks.{messages, flatten}
use net_transfer.Transfer.Receiver.{
  TransferReceiver, Notice, offered, accepting, shutting_down, listen, take_offer, reject,
  on_reject_written, on_shut_down,
}
use net_transfer.Transfer.Receiver
use net_transfer.Transfer.Receiver.Stream.{
  read, read-append, drop-message, header_read, message_header,
}
use net_transfer.Transfer.Receiver.Finish.{written}
use net_transfer.Transfer.Session.{Ended, hear_offer}
use net_transfer.Transfer.Session.Steps.{read-all, hear_offer-taken, reading_receiver}

-- The user who is asked declines. Nobody is asked where the receiver has closed the connection.
unfoldable pub decline :
    RejectReason → TransferReceiver → Receiver.Pending → TransferReceiver × List Notice
decline reason r offered = let (r', notices) = reject reason r in (on_reject_written r', notices)
decline reason r _ = (r, [])

unfoldable pub hear_reason : TransferSender → Pending → List ℕ → TransferSender × List Event
hear_reason s (reading_reject n) stream = on_reject s (read n stream)
hear_reason s _ stream = (s, [])

-- The sender reads the answer to its offer.
unfoldable pub hear_refusal : BaseHeader → TransferSender → List ℕ → TransferSender × List Event
unfolding hear_reason
hear_refusal blank s stream =
    let (s', events) = on_reply blank true s (read header_size stream) in
    let (s'', more) = hear_reason s' s'.pending (drop header_size stream) in (s'', events ++ more)

module _ (paths : Paths) (valid : List ℕ → Bool) (blank : BaseHeader) (blank_offer : OfferPayload)
    (reason : RejectReason) where
  unfoldable pub answered_no : TransferSender → TransferReceiver × List Notice → Ended
  unfolding decline
  answered_no s (r, asked) =
      let (r', notices) = decline reason r r.pending in
      let (s', events) = hear_refusal blank s (flatten (written notices)) in
      record { sender = s'; receiver = r'; asked = asked; notices = notices; events = events }

  unfoldable pub session : TransferSender → TransferReceiver → Ended
  unfolding answered_no
  session s r =
      let (s', offers) = on_handshake paths true (on_connect s true).0 true in
      answered_no s' (hear_offer valid blank blank_offer r (flatten (messages offers)))

  on_reply-reject :
      (s : TransferSender) (session_id : ℕ)
      → session_id < 2 ^ 64
      → on_reply blank true s (
          done (
            message_header transfer_reject session_id
              (serialize_reject (record { reason = reason }))))
        ≡ (record s { pending = reading_reject 1 }, [])
  unfolding on_reply on_reply_type header_or serialize_reject
  on_reply-reject s session_id hs =
      let payload : List ℕ = serialize_reject (record { reason = reason }) in
      let header : List ℕ = message_header transfer_reject session_id payload in
      let named : type_of (type_code transfer_reject) ≡ transfer_reject =
        unfold type_of type_code in refl in
      let (h, e, et, en, es) =
        header_read transfer_reject session_id payload [] named hs (omega arith) in
      let whole = rw (append-nil header) at e in rw (on_reply, whole, et, en) refl

  hear_refusal-reject :
      (s : TransferSender) (session_id : ℕ)
      → session_id < 2 ^ 64
      → hear_refusal blank s (
          with_payload transfer_reject session_id (serialize_reject (record { reason = reason }))
          ++ [])
        ≡ (record s { pending = finished }, complete false s.file_path ∷ [])
  unfolding hear_refusal hear_reason on_reject into_buffer with_payload
  hear_refusal-reject s session_id hs =
      let payload : List ℕ = serialize_reject (record { reason = reason }) in
      let header : List ℕ = message_header transfer_reject session_id payload in
      let n : length header ≡ header_size = length-serialize_header _ in
      let one : read 1 payload ≡ done payload = unfold serialize_reject in read-all payload in
      let small : leb (length payload) max_buffer_size ≡ true = unfold serialize_reject in refl in
      rw
        (
          append-nil (header ++ payload),
          hear_refusal,
          read-append header_size header payload n,
          on_reply-reject s session_id hs,
          drop-message header_size header payload n,
          one,
          small,
        )
        refl

  -- The sender whose connection is closed.
  hear_refusal-nil :
      (s : TransferSender)
      → hear_refusal blank s [] ≡ (record s { pending = finished }, complete false s.file_path ∷ [])
  unfolding hear_refusal hear_reason on_reply read
  hear_refusal-nil s = refl

  answered_no-take_offer :
      (s : TransferSender) (r : TransferReceiver) (op : OfferPayload) (good : Bool)
      → r.pending_session_id < 2 ^ 64
      → valid op.device_name ≡ good
      → let e = answered_no s (take_offer valid r op) in
        (e.asked ≡ (if good then Notice.offer op ∷ [] else []))
        × (e.receiver.disk ≡ r.disk)
        × (e.receiver.file ≡ r.file)
        × (e.receiver.pending ≡ (if good then shutting_down else accepting))
        × ((on_shut_down e.receiver).pending ≡ accepting)
        × (e.sender.pending ≡ finished)
        × (e.events ≡ complete false s.file_path ∷ [])
  unfolding answered_no take_offer decline reject on_reject_written on_shut_down listen
  answered_no-take_offer s r op true hs trusted =
      let heard = hear_refusal-reject s r.pending_session_id hs in
      rw (trusted, take_offer, heard) (refl, refl, refl, refl, refl, refl, refl)
  answered_no-take_offer s r op false hs unknown =
      rw (unknown, take_offer, hear_refusal-nil s) (refl, refl, refl, refl, refl, refl, refl)

  -- A sender with an offer that fits its fields and the receiver's buffer: if every operation completes, but
  -- the user declines with any reason, or the receiver does not trust the peer and closes the
  -- connection, then the user was asked with the sender's own offer if the peer is trusted, and not at
  -- all otherwise; the receiver's files are as they were; the sender is at its end, and has reported
  -- the failure and nothing else. The receiver accepts connections again if the peer is not trusted,
  -- but after a refusal it waits in the shutdown of TLS for a sender that does nothing more, and
  -- accepts again only when that wait has ended.
  pub declined_session_lem :
      (s : TransferSender) (r : TransferReceiver)
      → s.session_id < 2 ^ 64
      → IsWireOffer (offer paths s)
      → length (serialize_offer (offer paths s)) ≤ max_buffer_size - header_size
      → let e = session s r in
        (e.asked ≡ (if valid s.device_name then Notice.offer (offer paths s) ∷ [] else []))
        × (e.receiver.disk ≡ r.disk)
        × (e.receiver.file ≡ r.file)
        × (e.receiver.pending ≡ (if valid s.device_name then shutting_down else accepting))
        × ((on_shut_down e.receiver).pending ≡ accepting)
        × (e.sender.pending ≡ finished)
        × (e.events ≡ complete false s.file_path ∷ [])
  unfolding session on_connect on_handshake send_offer offer
  declined_session_lem s r hs wire fits =
      let op : OfferPayload = offer paths s in
      let waiting : TransferSender = record s { pending = reading_reply } in
      let heard = hear_offer-taken valid blank blank_offer r s.session_id op wire fits hs in
      let r' : TransferReceiver = reading_receiver valid blank blank_offer r s.session_id op in
      rw heard (answered_no-take_offer waiting r' op (valid s.device_name) hs refl)
