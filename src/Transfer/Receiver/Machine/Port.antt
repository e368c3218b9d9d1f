-- ===== src/Transfer/Receiver/Machine/Port.antt =====
-- The port of a receiver that runs.
use net_transfer.Base.{
  ℕ, ◌+◌, ◌-◌, ◌≡◌, refl, Bool, true, false, List, inl, inr, Bool-cases, Option-cases, ltb, leb,
  drop, length,
}
use net_transfer.Protocol.{
  BaseHeader, OfferPayload, MessageType, transfer_offer, data_chunk, transfer_done, header_size,
}
use net_transfer.Protocol.Reader.{Outcome, ok, refused, fault}
use net_transfer.Protocol.Header.{deserialize_header}
use net_transfer.Protocol.Offer.{deserialize_offer}
use net_transfer.Transfer.Platform.{Hash, Paths}
use net_transfer.Transfer.Digest.{max_buffer_size}
use net_transfer.Transfer.Sender.{Completion, failed, done, header_or}
use net_transfer.Transfer.Receiver.{
  TransferReceiver, Notice, listen, on_accept, on_handshake, on_offer_type, on_offer_header,
  take_offer, on_offer_parsed, on_offer, accept, on_accept_written, reject, on_reject_written,
  on_shut_down, store,
}
use net_transfer.Transfer.Receiver.Files.{resolve_file_path}
use net_transfer.Transfer.Receiver.Chunks.{
  fail_transfer, finish_transfer, on_chunk_type, on_chunk_header, on_part, on_chunk,
}
use net_transfer.Transfer.Receiver.Machine.{
  Mover, Step, connection, handshake, offer_header, offer_payload, accepts, accept_written, rejects,
  reject_written, shut_down, chunk_header, part, chunk,
}

on_accept-listen_port :
    (r : TransferReceiver) (made : Bool) → (on_accept r made).listen_port ≡ r.listen_port
unfolding on_accept listen
on_accept-listen_port r true = refl
on_accept-listen_port r false = refl

on_handshake-listen_port :
    (r : TransferReceiver) (made : Bool) → (on_handshake r made).listen_port ≡ r.listen_port
unfolding on_handshake
on_handshake-listen_port r true = refl
on_handshake-listen_port r false = refl

on_offer_type-listen_port :
    (r : TransferReceiver) (header : BaseHeader) (t : MessageType)
    → (on_offer_type r header t).listen_port ≡ r.listen_port
unfolding on_offer_type
on_offer_type-listen_port r header transfer_offer =
    elim (Bool-cases (ltb (max_buffer_size - header_size) header.payload_len)) [
      | inl long ↦ rw (long, on_offer_type) refl
      | inr fits ↦ rw (fits, on_offer_type) refl
    ]
on_offer_type-listen_port r header _ = refl

on_offer_header-listen_port :
    (garbage : BaseHeader) (r : TransferReceiver) (c : Completion)
    → (on_offer_header garbage r c).listen_port ≡ r.listen_port
unfolding on_offer_header
on_offer_header-listen_port garbage r failed = refl
on_offer_header-listen_port garbage r (done bytes) =
    let buffer = store 0 bytes r.buffer in
    let header = header_or garbage (deserialize_header buffer) in
    on_offer_type-listen_port (record r { buffer = buffer }) header header.msg_type

take_offer-listen_port :
    (valid : List ℕ → Bool) (r : TransferReceiver) (op : OfferPayload)
    → (take_offer valid r op).0.listen_port ≡ r.listen_port
unfolding take_offer listen
take_offer-listen_port valid r op = elim (Bool-cases (valid op.device_name)) [
  | inl good ↦ rw (good, take_offer) refl
  | inr bad ↦ rw (bad, take_offer) refl
]

on_offer_parsed-listen_port :
    (valid : List ℕ → Bool) (garbage : OfferPayload) (r : TransferReceiver)
    (o : Outcome OfferPayload)
    → (on_offer_parsed valid garbage r o).0.listen_port ≡ r.listen_port
unfolding on_offer_parsed
on_offer_parsed-listen_port valid garbage r (ok op) = take_offer-listen_port valid r op
on_offer_parsed-listen_port valid garbage r refused = take_offer-listen_port valid r garbage
on_offer_parsed-listen_port valid garbage r fault = refl

pub on_offer-listen_port :
    (valid : List ℕ → Bool) (garbage : OfferPayload) (r : TransferReceiver) (n : ℕ) (c : Completion)
    → (on_offer valid garbage r n c).0.listen_port ≡ r.listen_port
unfolding on_offer
on_offer-listen_port valid garbage r n failed = refl
on_offer-listen_port valid garbage r n (done bytes) =
    let buffer = store header_size bytes r.buffer in
    on_offer_parsed-listen_port valid garbage (record r { buffer = buffer })
      (deserialize_offer (drop header_size buffer) n)

on_accept_written-listen_port :
    (paths : Paths) (downloads : List ℕ) (fuel : ℕ) (can_create sent : Bool) (r : TransferReceiver)
    → (on_accept_written paths downloads fuel can_create r sent).listen_port ≡ r.listen_port
unfolding on_accept_written
on_accept_written-listen_port paths downloads fuel can_create false r = refl
on_accept_written-listen_port paths downloads fuel can_create true r =
    elim (Option-cases (resolve_file_path paths r.disk fuel downloads r.pending_offer.file_name)) [
      | inl out ↦ rw (out, on_accept_written) refl
      | inr (path, found) ↦ elim (Bool-cases can_create) [
        | inl can ↦ rw (found, can, on_accept_written) refl
        | inr cannot ↦ rw (found, cannot, on_accept_written) refl
      ]
    ]

finish_transfer-listen_port :
    (hash : Hash) (write_ok : Bool) (r : TransferReceiver)
    → (finish_transfer hash write_ok r).0.listen_port ≡ r.listen_port
unfolding finish_transfer listen
finish_transfer-listen_port hash true r = refl
finish_transfer-listen_port hash false r = refl

on_chunk_type-listen_port :
    (hash : Hash) (write_ok : Bool) (r : TransferReceiver) (n : ℕ) (t : MessageType)
    → (on_chunk_type hash write_ok r n t).0.listen_port ≡ r.listen_port
unfolding on_chunk_type fail_transfer listen
on_chunk_type-listen_port hash write_ok r n data_chunk = refl
on_chunk_type-listen_port hash write_ok r n transfer_done =
    finish_transfer-listen_port hash write_ok r
on_chunk_type-listen_port hash write_ok r n _ = refl

on_chunk_header-listen_port :
    (hash : Hash) (write_ok : Bool) (garbage : BaseHeader) (r : TransferReceiver) (c : Completion)
    → (on_chunk_header hash write_ok garbage r c).0.listen_port ≡ r.listen_port
unfolding on_chunk_header fail_transfer listen
on_chunk_header-listen_port hash write_ok garbage r failed = refl
on_chunk_header-listen_port hash write_ok garbage r (done bytes) =
    let buffer = store 0 bytes r.buffer in
    let header = header_or garbage (deserialize_header buffer) in
    on_chunk_type-listen_port hash write_ok (record r { buffer = buffer }) header.payload_len
      header.msg_type

on_chunk-listen_port :
    (kept : List ℕ → List ℕ) (r : TransferReceiver) (c : Completion)
    → (on_chunk kept r c).0.listen_port ≡ r.listen_port
unfolding on_chunk fail_transfer listen
on_chunk-listen_port kept r failed = refl
on_chunk-listen_port kept r (done bytes) =
    elim (Bool-cases (leb (header_size + length bytes) max_buffer_size)) [
      | inl fits ↦ rw (fits, on_chunk) refl
      | inr long ↦ rw (long, on_chunk) refl
    ]

on_part-listen_port :
    (arrived : ℕ) (r : TransferReceiver) → (on_part arrived r).listen_port ≡ r.listen_port
unfolding on_part
on_part-listen_port arrived r = elim (Bool-cases (leb (header_size + arrived) max_buffer_size)) [
  | inl fits ↦ rw (fits, on_part) refl
  | inr long ↦ rw (long, on_part) refl
]

-- No step of a receiver changes its port.
pub Step-listen_port :
    (hash : Hash) (paths : Paths) {r s : TransferReceiver} {mover : Mover} {notices : List Notice}
    → Step hash paths r mover s notices
    → s.listen_port ≡ r.listen_port
unfolding accept reject on_reject_written on_shut_down listen
Step-listen_port hash paths {r} (connection made e) = on_accept-listen_port r made
Step-listen_port hash paths {r} (handshake made e) = on_handshake-listen_port r made
Step-listen_port hash paths {r} (offer_header garbage c e) = on_offer_header-listen_port garbage r c
Step-listen_port hash paths {r} (offer_payload valid garbage n c e) =
    on_offer-listen_port valid garbage r n c
Step-listen_port hash paths (accepts resume_offset e) = refl
Step-listen_port hash paths {r} (accept_written downloads fuel can_create sent e) =
    on_accept_written-listen_port paths downloads fuel can_create sent r
Step-listen_port hash paths (rejects reason e) = refl
Step-listen_port hash paths (reject_written e) = refl
Step-listen_port hash paths (shut_down e) = refl
Step-listen_port hash paths {r} (chunk_header write_ok garbage c e) =
    on_chunk_header-listen_port hash write_ok garbage r c
Step-listen_port hash paths {r} (part n arrived e below) = on_part-listen_port arrived r
Step-listen_port hash paths {r} (chunk n kept c e) = on_chunk-listen_port kept r c
