-- ===== src/Transfer/Receiver/Machine/Untouched.antt =====
-- What the receiver does not do by itself.
use net_transfer.Base.{
  ℕ, ◌-◌, ◌≡◌, refl, ◌∙◌, Bool, true, false, List, Bool-cases, inl, inr, drop, ltb,
}
use net_transfer.Protocol.{BaseHeader, OfferPayload, MessageType, transfer_offer, header_size}
use net_transfer.Protocol.Reader.{Outcome, ok, refused, fault}
use net_transfer.Protocol.Header.{deserialize_header}
use net_transfer.Protocol.Offer.{deserialize_offer}
use net_transfer.Transfer.Platform.{Hash, Paths}
use net_transfer.Transfer.Digest.{max_buffer_size}
use net_transfer.Transfer.Sender.{Completion, failed, done, header_or}
use net_transfer.Transfer.Receiver.{
  TransferReceiver, Notice, Pending, accepting, handshaking, reading_offer_header, reading_offer,
  offered, writing_accept, writing_reject, shutting_down, reading_chunk_header, reading_chunk, idle,
  terminated, undefined, on_accept, on_handshake, on_offer_header, on_offer_type, on_offer_parsed,
  take_offer, listen, on_offer, reject, on_reject_written, on_shut_down, store,
}
use net_transfer.Transfer.Receiver.Machine.{
  Mover, network, acceptance, refusal, Step, connection, handshake, offer_header, offer_payload,
  accepts, accept_written, rejects, reject_written, shut_down, chunk_header, part, chunk, Run, here,
  later,
}

-- The states before the user has accepted an offer.
abbrev pub IsUnapproved : Pending → Type 0
IsUnapproved accepting = Unit {0}
IsUnapproved handshaking = Unit {0}
IsUnapproved reading_offer_header = Unit {0}
IsUnapproved (reading_offer n) = Unit {0}
IsUnapproved offered = Unit {0}
IsUnapproved writing_reject = Unit {0}
IsUnapproved shutting_down = Unit {0}
IsUnapproved idle = Unit {0}
IsUnapproved undefined = Unit {0}
IsUnapproved terminated = Unit {0}
IsUnapproved writing_accept = ⊥
IsUnapproved reading_chunk_header = ⊥
IsUnapproved (reading_chunk n) = ⊥

-- Whoever but the user who accepts.
abbrev pub no_acceptance : Mover → Bool
no_acceptance network = true
no_acceptance acceptance = false
no_acceptance refusal = true

-- The disk and the open file are as before, and nothing is approved.
pub record Same (r s : TransferReceiver) : Type 0 where
  pub same_disk : s.disk ≡ r.disk
  pub same_file : s.file ≡ r.file
  pub same_path : s.file_path ≡ r.file_path
  pub unapproved : IsUnapproved s.pending

unchanged :
    {r s : TransferReceiver}
    → s.disk ≡ r.disk
    → s.file ≡ r.file
    → s.file_path ≡ r.file_path
    → IsUnapproved s.pending
    → Same r s
unchanged disk file path unapproved = record {
  same_disk = disk;
  same_file = file;
  same_path = path;
  unapproved = unapproved;
}

on_offer_type-Same :
    (r : TransferReceiver) (header : BaseHeader) (t : MessageType)
    → Same r (on_offer_type r header t)
unfolding on_offer_type
on_offer_type-Same r header transfer_offer =
    elim (Bool-cases (ltb (max_buffer_size - header_size) header.payload_len)) [
      | inl long ↦ rw (long, on_offer_type) (unchanged refl refl refl tt)
      | inr fits ↦ rw (fits, on_offer_type) (unchanged refl refl refl tt)
    ]
on_offer_type-Same r header _ = unchanged refl refl refl tt

take_offer-Same :
    (valid : List ℕ → Bool) (r : TransferReceiver) (op : OfferPayload)
    → Same r (take_offer valid r op).0
unfolding take_offer listen
take_offer-Same valid r op = elim (Bool-cases (valid op.device_name)) [
  | inl good ↦ rw (good, take_offer) (unchanged refl refl refl tt)
  | inr bad ↦ rw (bad, take_offer) (unchanged refl refl refl tt)
]

on_offer_parsed-Same :
    (valid : List ℕ → Bool) (garbage : OfferPayload) (r : TransferReceiver)
    (o : Outcome OfferPayload)
    → Same r (on_offer_parsed valid garbage r o).0
unfolding on_offer_parsed
on_offer_parsed-Same valid garbage r (ok op) = take_offer-Same valid r op
on_offer_parsed-Same valid garbage r refused = take_offer-Same valid r garbage
on_offer_parsed-Same valid garbage r fault = unchanged refl refl refl tt

pub on_offer_header-Same :
    (garbage : BaseHeader) (r : TransferReceiver) (c : Completion)
    → Same r (on_offer_header garbage r c)
unfolding on_offer_header
on_offer_header-Same garbage r failed = unchanged refl refl refl tt
on_offer_header-Same garbage r (done bytes) =
    let buffer = store 0 bytes r.buffer in
    let header = header_or garbage (deserialize_header buffer) in
    let s = on_offer_type-Same (record r { buffer = buffer }) header header.msg_type in
    unchanged s.same_disk s.same_file s.same_path s.unapproved

pub on_offer-Same :
    (valid : List ℕ → Bool) (garbage : OfferPayload) (r : TransferReceiver) (n : ℕ) (c : Completion)
    → Same r (on_offer valid garbage r n c).0
unfolding on_offer
on_offer-Same valid garbage r n failed = unchanged refl refl refl tt
on_offer-Same valid garbage r n (done bytes) =
    let buffer = store header_size bytes r.buffer in
    let s =
      on_offer_parsed-Same valid garbage (record r { buffer = buffer })
        (deserialize_offer (drop header_size buffer) n) in
    unchanged s.same_disk s.same_file s.same_path s.unapproved

pub on_accept-Same : (r : TransferReceiver) (ok : Bool) → Same r (on_accept r ok)
unfolding on_accept listen
on_accept-Same r true = unchanged refl refl refl tt
on_accept-Same r false = unchanged refl refl refl tt

pub on_handshake-Same : (r : TransferReceiver) (ok : Bool) → Same r (on_handshake r ok)
unfolding on_handshake
on_handshake-Same r true = unchanged refl refl refl tt
on_handshake-Same r false = unchanged refl refl refl tt

module _ (hash : Hash) (paths : Paths) where
  Step-Same :
      {r s : TransferReceiver} {mover : Mover} {notices : List Notice}
      → IsUnapproved r.pending
      → no_acceptance mover ≡ true
      → Step hash paths r mover s notices
      → Same r s
  unfolding reject on_reject_written on_shut_down listen
  Step-Same {r} u m (connection made e) = on_accept-Same r made
  Step-Same {r} u m (handshake made e) = on_handshake-Same r made
  Step-Same {r} u m (offer_header garbage c e) = on_offer_header-Same garbage r c
  Step-Same {r} u m (offer_payload valid garbage n c e) = on_offer-Same valid garbage r n c
  Step-Same u m (accepts resume_offset e) = cc m
  Step-Same u m (accept_written downloads fuel can_create sent e) = absurd (rw e at u)
  Step-Same u m (rejects reason e) = unchanged refl refl refl tt
  Step-Same u m (reject_written e) = unchanged refl refl refl tt
  Step-Same u m (shut_down e) = unchanged refl refl refl tt
  Step-Same u m (chunk_header write_ok garbage c e) = absurd (rw e at u)
  Step-Same u m (part n arrived e below) = absurd (rw e at u)
  Step-Same u m (chunk n kept c e) = absurd (rw e at u)

  Run-Same :
      {r s : TransferReceiver}
      → IsUnapproved r.pending
      → Run hash paths no_acceptance r s
      → Same r s
  Run-Same u here = unchanged refl refl refl u
  Run-Same u (later run m step) =
      let before = Run-Same u run in
      let now = Step-Same before.unapproved m step in
      record {
        same_disk = now.same_disk ∙ before.same_disk;
        same_file = now.same_file ∙ before.same_file;
        same_path = now.same_path ∙ before.same_path;
        unapproved = now.unapproved;
      }

  -- As long as the user accepts no offer, the receiver does nothing to the disk, whatever arrives: from
  -- any state before an acceptance, any number of steps without one leaves all files and the file
  -- stream as they are.
  pub Run-disk :
      {r s : TransferReceiver}
      → IsUnapproved r.pending
      → Run hash paths no_acceptance r s
      → (s.disk ≡ r.disk) × (s.file ≡ r.file)
  Run-disk u run = let same = Run-Same u run in (same.same_disk, same.same_file)
