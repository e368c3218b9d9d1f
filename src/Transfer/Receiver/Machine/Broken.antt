-- ===== src/Transfer/Receiver/Machine/Broken.antt =====
-- One bad connection, and what the receiver does after it.
use net_transfer.Base.{ℕ, ◌-◌, ◌≡◌, ◌≢◌, refl, ◌∙◌, Bool, false, List, lt→ltb, ap, ◌<◌}
use net_transfer.Protocol.{BaseHeader, OfferPayload, MessageType, transfer_offer, header_size}
use net_transfer.Protocol.Header.{deserialize_header}
use net_transfer.Transfer.Platform.{Hash, Paths}
use net_transfer.Transfer.Digest.{max_buffer_size}
use net_transfer.Transfer.Sender.{failed, done, header_or}
use net_transfer.Transfer.Receiver.{
  TransferReceiver, Notice, idle, on_handshake, on_offer_header, on_offer_type, on_offer, store,
}
use net_transfer.Transfer.Receiver.Machine.{
  Mover, Step, connection, handshake, offer_header, offer_payload, accepts, accept_written, rejects,
  reject_written, shut_down, chunk_header, part, chunk, Run, here, later,
}

-- The header that the handler sees.
abbrev pub first_header : BaseHeader → TransferReceiver → List ℕ → BaseHeader
first_header garbage r bytes = header_or garbage (deserialize_header (store 0 bytes r.buffer))

on_offer_type-other :
    (r : TransferReceiver) (header : BaseHeader) (t : MessageType)
    → t ≢ transfer_offer
    → on_offer_type r header t ≡ record r { pending = idle }
unfolding on_offer_type
on_offer_type-other r header transfer_offer other = absurd (other refl)
on_offer_type-other r header _ other = refl

on_offer_type-long :
    (r : TransferReceiver) (header : BaseHeader)
    → max_buffer_size - header_size < header.payload_len
    → on_offer_type r header transfer_offer ≡ record r { pending = idle }
unfolding on_offer_type
on_offer_type-long r header long = rw (lt→ltb _ _ long, on_offer_type) refl

-- A connection that breaks before its offer is read, and the receiver that it leaves.
pub data Broken (r : TransferReceiver) : TransferReceiver → Type 0 where
  no_handshake : Broken r (on_handshake r false)
  no_header : (garbage : BaseHeader) → Broken r (on_offer_header garbage r failed)
  no_offer :
      (garbage : BaseHeader) (bytes : List ℕ)
      → (first_header garbage r bytes).msg_type ≢ transfer_offer
      → Broken r (on_offer_header garbage r (done bytes))
  long_offer :
      (garbage : BaseHeader) (bytes : List ℕ)
      → (first_header garbage r bytes).msg_type ≡ transfer_offer
      → max_buffer_size - header_size < (first_header garbage r bytes).payload_len
      → Broken r (on_offer_header garbage r (done bytes))
  no_payload :
      (valid : List ℕ → Bool) (garbage : OfferPayload) (n : ℕ)
      → Broken r (on_offer valid garbage r n failed).0

Broken-idle : {r q : TransferReceiver} → Broken r q → q.pending ≡ idle
unfolding on_handshake on_offer_header on_offer
Broken-idle no_handshake = refl
Broken-idle (no_header garbage) = refl
Broken-idle {r} (no_offer garbage bytes other) =
    ap (λ q. q.pending)
      (on_offer_type-other (record r { buffer = store 0 bytes r.buffer })
        (first_header garbage r bytes) _ other)
Broken-idle {r} (long_offer garbage bytes offers long) = rw offers (
    ap (λ q. q.pending)
      (on_offer_type-long (record r { buffer = store 0 bytes r.buffer })
        (first_header garbage r bytes) long))
Broken-idle (no_payload valid garbage n) = refl

module _ (hash : Hash) (paths : Paths) where
  -- A receiver that waits for nothing takes no step.
  idle-Step :
      {r s : TransferReceiver} {mover : Mover} {notices : List Notice}
      → r.pending ≡ idle
      → Step hash paths r mover s notices
      → ⊥
  idle-Step i (connection made e) = cc
  idle-Step i (handshake made e) = cc
  idle-Step i (offer_header garbage c e) = cc
  idle-Step i (offer_payload valid garbage n c e) = cc
  idle-Step i (accepts resume_offset e) = cc
  idle-Step i (accept_written downloads fuel can_create sent e) = cc
  idle-Step i (rejects reason e) = cc
  idle-Step i (reject_written e) = cc
  idle-Step i (shut_down e) = cc
  idle-Step i (chunk_header write_ok garbage c e) = cc
  idle-Step i (part n arrived e below) = cc
  idle-Step i (chunk n kept c e) = cc

  idle-Run :
      {may : Mover → Bool} {r s : TransferReceiver}
      → r.pending ≡ idle
      → Run hash paths may r s
      → s ≡ r
  idle-Run i here = refl
  idle-Run {may} {r} i (later {s} run m step) =
      let same : s ≡ r = idle-Run i run in absurd (idle-Step (ap (λ q. q.pending) same ∙ i) step)

  -- One bad connection ends the reception of files for good: after a handshake that fails, a first message
  -- that does not arrive, is not an offer or is too long for the buffer, or an offer whose payload does
  -- not arrive, no operation is pending, and none of the receiver's handlers runs any more, nor is the
  -- user asked again.
  pub Broken-Run :
      {may : Mover → Bool} {r q s : TransferReceiver}
      → Broken r q
      → Run hash paths may q s
      → (q.pending ≡ idle) × (s ≡ q)
  Broken-Run broken run = let stuck = Broken-idle broken in (stuck, idle-Run stuck run)
