-- ===== src/Transfer/Receiver/Machine/Unasked.antt =====
-- What the receiver does among peers that are turned away.
use net_transfer.Base.{ℕ, ◌-◌, ◌≡◌, ◌≢◌, Bool, true, false, List, inl, inr, Bool-cases, ltb, drop}
use net_transfer.Protocol.{BaseHeader, OfferPayload, MessageType, transfer_offer, header_size}
use net_transfer.Protocol.Reader.{Outcome, ok, refused, fault}
use net_transfer.Protocol.Header.{deserialize_header}
use net_transfer.Protocol.Offer.{deserialize_offer}
use net_transfer.Transfer.Platform.{Hash, Paths}
use net_transfer.Transfer.Digest.{max_buffer_size}
use net_transfer.Transfer.Sender.{Completion, failed, done, header_or}
use net_transfer.Transfer.Receiver.{
  TransferReceiver, Notice, Pending, accepting, handshaking, reading_offer_header, reading_offer,
  offered, writing_accept, writing_reject, shutting_down, reading_chunk_header, reading_chunk, idle,
  terminated, undefined, on_accept, on_handshake, on_offer_header, on_offer_type, on_offer_parsed,
  take_offer, listen, store,
}
use net_transfer.Transfer.Receiver
use net_transfer.Transfer.Receiver.Machine.{
  Mover, connection, handshake, offer_header, offer_payload, accepts, accept_written, rejects,
  reject_written, shut_down, chunk_header, part, chunk,
}
use net_transfer.Transfer.Receiver.Machine
use net_transfer.Transfer.Receiver.Machine.Untouched.{
  on_accept-Same, on_handshake-Same, on_offer_header-Same,
}

-- The states in which no offer has come before the user.
abbrev pub IsUnasked : Pending → Type 0
IsUnasked accepting = Unit {0}
IsUnasked handshaking = Unit {0}
IsUnasked reading_offer_header = Unit {0}
IsUnasked (reading_offer n) = Unit {0}
IsUnasked idle = Unit {0}
IsUnasked undefined = Unit {0}
IsUnasked terminated = Unit {0}
IsUnasked offered = ⊥
IsUnasked writing_accept = ⊥
IsUnasked writing_reject = ⊥
IsUnasked shutting_down = ⊥
IsUnasked reading_chunk_header = ⊥
IsUnasked (reading_chunk n) = ⊥

on_accept-IsUnasked : (r : TransferReceiver) (made : Bool) → IsUnasked (on_accept r made).pending
unfolding on_accept listen
on_accept-IsUnasked r true = tt
on_accept-IsUnasked r false = tt

on_handshake-IsUnasked :
    (r : TransferReceiver) (made : Bool) → IsUnasked (on_handshake r made).pending
unfolding on_handshake
on_handshake-IsUnasked r true = tt
on_handshake-IsUnasked r false = tt

on_offer_type-IsUnasked :
    (r : TransferReceiver) (header : BaseHeader) (t : MessageType)
    → IsUnasked (on_offer_type r header t).pending
unfolding on_offer_type
on_offer_type-IsUnasked r header transfer_offer =
    elim (Bool-cases (ltb (max_buffer_size - header_size) header.payload_len)) [
      | inl long ↦ rw (long, on_offer_type) tt
      | inr fits ↦ rw (fits, on_offer_type) tt
    ]
on_offer_type-IsUnasked r header _ = tt

on_offer_header-IsUnasked :
    (garbage : BaseHeader) (r : TransferReceiver) (c : Completion)
    → IsUnasked (on_offer_header garbage r c).pending
unfolding on_offer_header
on_offer_header-IsUnasked garbage r failed = tt
on_offer_header-IsUnasked garbage r (done bytes) =
    let buffer = store 0 bytes r.buffer in
    let header = header_or garbage (deserialize_header buffer) in
    on_offer_type-IsUnasked (record r { buffer = buffer }) header header.msg_type

-- A peer whose certificate is not valid is turned away.
take_offer-IsUnasked :
    (valid : List ℕ → Bool) (r : TransferReceiver) (op : OfferPayload)
    → ((name : List ℕ) → valid name ≡ false)
    → IsUnasked (take_offer valid r op).0.pending
unfolding take_offer listen
take_offer-IsUnasked valid r op turns = rw (turns op.device_name, take_offer) tt

on_offer_parsed-IsUnasked :
    (valid : List ℕ → Bool) (garbage : OfferPayload) (r : TransferReceiver)
    (o : Outcome OfferPayload)
    → ((name : List ℕ) → valid name ≡ false)
    → IsUnasked (on_offer_parsed valid garbage r o).0.pending
unfolding on_offer_parsed
on_offer_parsed-IsUnasked valid garbage r (ok op) turns = take_offer-IsUnasked valid r op turns
on_offer_parsed-IsUnasked valid garbage r refused turns = take_offer-IsUnasked valid r garbage turns
on_offer_parsed-IsUnasked valid garbage r fault turns = tt

pub on_offer-IsUnasked :
    (valid : List ℕ → Bool) (garbage : OfferPayload) (r : TransferReceiver) (n : ℕ) (c : Completion)
    → ((name : List ℕ) → valid name ≡ false)
    → IsUnasked (Receiver.on_offer valid garbage r n c).0.pending
unfolding Receiver.on_offer
on_offer-IsUnasked valid garbage r n failed turns = tt
on_offer-IsUnasked valid garbage r n (done bytes) turns =
    let buffer = store header_size bytes r.buffer in
    on_offer_parsed-IsUnasked valid garbage (record r { buffer = buffer })
      (deserialize_offer (drop header_size buffer) n) turns

-- The receiver's own steps, but the one that asks NetTransfer.
pub Step-IsUnasked :
    (hash : Hash) (paths : Paths) {r s : TransferReceiver} {mover : Mover} {notices : List Notice}
    → IsUnasked r.pending
    → ((k : ℕ) → r.pending ≢ reading_offer k)
    → Machine.Step hash paths r mover s notices
    → (s.disk ≡ r.disk) × IsUnasked s.pending
Step-IsUnasked hash paths {r} u other (connection made e) =
    ((on_accept-Same r made).same_disk, on_accept-IsUnasked r made)
Step-IsUnasked hash paths {r} u other (handshake made e) =
    ((on_handshake-Same r made).same_disk, on_handshake-IsUnasked r made)
Step-IsUnasked hash paths {r} u other (offer_header garbage c e) =
    ((on_offer_header-Same garbage r c).same_disk, on_offer_header-IsUnasked garbage r c)
Step-IsUnasked hash paths u other (offer_payload valid garbage n c e) = absurd (other n e)
Step-IsUnasked hash paths u other (accepts resume_offset e) = absurd (rw e at u)
Step-IsUnasked hash paths u other (accept_written downloads fuel can_create sent e) =
    absurd (rw e at u)
Step-IsUnasked hash paths u other (rejects reason e) = absurd (rw e at u)
Step-IsUnasked hash paths u other (reject_written e) = absurd (rw e at u)
Step-IsUnasked hash paths u other (shut_down e) = absurd (rw e at u)
Step-IsUnasked hash paths u other (chunk_header write_ok garbage c e) = absurd (rw e at u)
Step-IsUnasked hash paths u other (part n arrived e below) = absurd (rw e at u)
Step-IsUnasked hash paths u other (chunk n kept c e) = absurd (rw e at u)
