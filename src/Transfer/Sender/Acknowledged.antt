-- ===== src/Transfer/Sender/Acknowledged.antt =====
-- What the sender makes of the receiver's acknowledgement.
use net_transfer.Base.{
  ℕ, ◌^◌, ◌<◌, ◌≡◌, refl, arith, true, List, [], ◌∷◌, append-nil, if◌then◌else◌, length, Bool-cases,
  inl, inr, leb, le→leb,
}
use net_transfer.Protocol.{BaseHeader, AckPayload, transfer_ack, type_of, type_code}
use net_transfer.Protocol.Payload.{serialize_ack}
use net_transfer.Protocol.Payload.RoundTrip.{deserialize_ack-serialize_ack}
use net_transfer.Transfer.Digest.{max_buffer_size}
use net_transfer.Transfer.Sender.{
  TransferSender, complete, reading_ack, finished, done, header_or, ack_or, on_ack_type,
  on_ack_header, on_ack, into_buffer,
}
use net_transfer.Transfer.Receiver.Stream.{header_read, message_header}

pub length-serialize_ack : (p : AckPayload) → length (serialize_ack p) ≡ 1
unfolding serialize_ack
length-serialize_ack p = refl

-- An acknowledgement takes the sender two reads. After the header it waits for the payload's one byte;
-- after that it is at its end, and has told the user of the success if the receiver found the checksum
-- right, and nothing at all if not.
pub on_ack-serialize_ack :
    (garbage : BaseHeader) (stale p : AckPayload) (s : TransferSender) (session_id : ℕ)
    → session_id < 2 ^ 64
    → (on_ack_header garbage s (done (message_header transfer_ack session_id (serialize_ack p)))
        ≡ (record s { pending = reading_ack 1 }, []))
      × (on_ack stale s 1 (done (serialize_ack p)) ≡ (
        record s { pending = finished },
        if p.checksum_ok then complete true s.file_path ∷ [] else [],
      ))
unfolding on_ack_header on_ack_type header_or on_ack ack_or into_buffer
on_ack-serialize_ack garbage stale p s session_id hs =
    let payload : List ℕ = serialize_ack p in
    let one : length payload ≡ 1 = length-serialize_ack p in
    let named : type_of (type_code transfer_ack) ≡ transfer_ack =
      unfold type_of type_code in refl in
    let (h, e, et, en, es) =
      header_read transfer_ack session_id payload [] named hs (omega arith) in
    let read = rw (append-nil (message_header transfer_ack session_id payload)) at e in
    let whole = deserialize_ack-serialize_ack p [] 1 (omega arith) in
    let ack = rw (append-nil payload) at whole in
    let small : leb (length payload) max_buffer_size ≡ true = le→leb _ _ (omega (arith, one)) in
    (
      rw (on_ack_header, read, et, en, one) refl,
      elim (Bool-cases p.checksum_ok) [
        | inl good ↦ rw (small, ack, good, on_ack) refl
        | inr bad ↦ rw (small, ack, bad, on_ack) refl
      ],
    )
