-- ===== src/Transfer/Session.antt =====
-- A whole transfer of src/core/transfer.cpp, from the connection to the acknowledgement, in which every
-- operation completes and the receiving user accepts.
pub mod Steps
pub mod Arrives
pub mod Declined
mod Tests
use net_transfer.Base.{ℕ, Bool, true, List, [], ◌++◌, drop}
use net_transfer.Protocol.{BaseHeader, OfferPayload, AckPayload, header_size}
use net_transfer.Transfer.Platform.{Hash, Paths}
use net_transfer.Transfer.Sender.{
  TransferSender, Event, Pending, reading_ack, on_connect, on_handshake, on_reply, on_ack_header,
  on_ack,
}
use net_transfer.Transfer.Sender
use net_transfer.Transfer.Sender.Chunks.{drive, messages, flatten}
use net_transfer.Transfer.Receiver.{
  TransferReceiver, Notice, reading_offer, on_accept, on_offer_header, on_offer, accept,
  on_accept_written,
}
use net_transfer.Transfer.Receiver
use net_transfer.Transfer.Receiver.Stream.{read, serve}
use net_transfer.Transfer.Receiver.Finish.{written}

pub record Ended : Type 0 where
  pub sender : TransferSender
  pub receiver : TransferReceiver
  pub asked : List Notice
  pub notices : List Notice
  pub events : List Event

-- `blank`, `blank_offer` and `blank_ack` are what uninitialised structures hold.
module _ (valid : List ℕ → Bool) (blank : BaseHeader) (blank_offer : OfferPayload) where
  unfoldable pub hear_payload :
      TransferReceiver → Receiver.Pending → List ℕ → TransferReceiver × List Notice
  hear_payload r (reading_offer n) stream = on_offer valid blank_offer r n (read n stream)
  hear_payload r _ stream = (r, [])

  -- The receiver takes a connection, and reads an offer from it.
  unfoldable pub hear_offer : TransferReceiver → List ℕ → TransferReceiver × List Notice
  unfolding hear_payload
  hear_offer r stream =
      let r' =
        on_offer_header blank (Receiver.on_handshake (on_accept r true) true)
          (read header_size stream) in
      hear_payload r' r'.pending (drop header_size stream)

module _ (blank : BaseHeader) (blank_ack : AckPayload) where
  unfoldable pub hear_checksum : TransferSender → Pending → List ℕ → TransferSender × List Event
  hear_checksum s (reading_ack n) stream = on_ack blank_ack s n (read n stream)
  hear_checksum s _ stream = (s, [])

  -- The sender reads the acknowledgement.
  unfoldable pub hear_ack : TransferSender → List ℕ → TransferSender × List Event
  unfolding hear_checksum
  hear_ack s stream =
      let (s', events) = on_ack_header blank s (read header_size stream) in
      let (s'', more) = hear_checksum s' s'.pending (drop header_size stream) in
      (s'', events ++ more)

module _ (hash : Hash) (paths : Paths) (valid : List ℕ → Bool) (blank : BaseHeader)
    (blank_offer : OfferPayload) (blank_ack : AckPayload) where
  -- The file, from the sender's handling of the answer on: at most `rounds` chunks and `fuel` reads.
  unfoldable pub transferred :
      ℕ → ℕ → List Notice → TransferReceiver → TransferSender × List Event → Ended
  transferred rounds fuel asked r (s, first) =
      let (s', more) = drive rounds s in
      let (r', notices) = serve hash blank fuel r (flatten (messages (first ++ more))) in
      let (s'', events) = hear_ack blank blank_ack s' (flatten (written notices)) in
      record { sender = s''; receiver = r'; asked = asked; notices = notices; events = events }

  -- The receiving user accepts: with `names` tries for a file name.
  unfoldable pub accepted :
      List ℕ → ℕ → ℕ → ℕ → TransferSender → TransferReceiver × List Notice → Ended
  unfolding transferred
  accepted downloads names rounds fuel s (r, asked) =
      let (r', answer) = accept 0 r in
      transferred rounds fuel asked (on_accept_written paths downloads names true r' true)
        (on_reply blank true s (read header_size (flatten (written answer))))

  unfoldable pub session : List ℕ → ℕ → ℕ → ℕ → TransferSender → TransferReceiver → Ended
  unfolding accepted
  session downloads names rounds fuel s r =
      let (s', offers) = on_handshake paths true (on_connect s true).0 true in
      accepted downloads names rounds fuel s'
        (hear_offer valid blank blank_offer r (flatten (messages offers)))
