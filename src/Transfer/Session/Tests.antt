-- ===== src/Transfer/Session/Tests.antt =====
-- A whole transfer of a file of 32 bytes.
use net_transfer.Base.{
  ℕ, ◌-◌, ◌≤◌, ◌≡◌, refl, ap, arith, true, false, if◌then◌else◌, List, [], ◌∷◌, some, same, length,
  replicate,
}
use net_transfer.Protocol.{IsWireOffer, user_declined}
use net_transfer.Protocol.Offer.{serialize_offer}
use net_transfer.Protocol.Offer.RoundTrip.{length-serialize_offer}
use net_transfer.Transfer.Digest.{max_buffer_size, file_digest, file_digest_lem}
use net_transfer.Transfer.Sender.{TransferSender, connecting, finished, complete, start, offer}
use net_transfer.Transfer.Receiver.{TransferReceiver, accepting, shutting_down, on_shut_down}
use net_transfer.Transfer.Receiver
use net_transfer.Transfer.Receiver.Files.{resolve_file_path, first_free, numbered}
use net_transfer.Transfer.Session.{Ended, session}
use net_transfer.Transfer.Session.Arrives.{session_lem}
use net_transfer.Transfer.Session.Declined
use net_transfer.Transfer.Session.Declined.{declined_session_lem}
use net_transfer.Transfer.Tests.{keep_all, flat_paths, blank, one_file, receiver, intact, free_path}

abbrev contents : List ℕ
contents = replicate 32 7

abbrev from_path : List ℕ
from_path = 0x78 ∷ []

abbrev from_device : List ℕ
from_device = 0x70 ∷ 0x63 ∷ []

abbrev sender : TransferSender
sender = record {
  file_path = from_path;
  device_name = from_device;
  session_id = 7;
  sha256 = file_digest keep_all contents;
  file_size = 32;
  bytes_sent = 0;
  unread = contents;
  pending = connecting;
}

abbrev free_receiver : TransferReceiver
free_receiver = record receiver { disk = one_file }

sender-started : start keep_all from_path from_device 7 (some contents) ≡ (true, some sender)
unfolding start
sender-started = refl

length-digest : length (file_digest keep_all contents) ≡ 32
length-digest = ap length (file_digest_lem keep_all contents)

sender-IsWireOffer : IsWireOffer (offer flat_paths sender)
unfolding offer
sender-IsWireOffer = record {
  file_size_fits = omega arith;
  resume_offset_fits = omega arith;
  sha256_length = length-digest;
  file_name_fits = omega arith;
  device_name_fits = omega arith;
}

sender-offer_fits : length (serialize_offer (offer flat_paths sender)) ≤ max_buffer_size - 22
unfolding offer
sender-offer_fits = omega (arith, length-serialize_offer (offer flat_paths sender) length-digest)

abbrev ended : Ended
ended =
    session keep_all flat_paths (λ name. true) blank receiver.pending_offer intact (0x64 ∷ []) 3 33
      65 sender free_receiver

session_lem_example :
    (ended.asked ≡ Receiver.offer (offer flat_paths sender) ∷ [])
    × (ended.receiver.disk free_path ≡ some contents)
    × (ended.receiver.pending ≡ accepting)
    × (ended.sender.pending ≡ finished)
    × (ended.events ≡ complete true from_path ∷ [])
session_lem_example =
    session_lem keep_all flat_paths (λ name. true) blank receiver.pending_offer intact (0x64 ∷ [])
      from_path from_device contents free_path 3 33 65 7 sender free_receiver sender-started
      (omega arith) sender-IsWireOffer sender-offer_fits refl
      (unfold resolve_file_path first_free numbered same in refl) (omega arith) (omega arith)

-- The peer is trusted, and the user declines.
declined_session_lem_example :
    let e =
      Declined.session flat_paths
        (λ name. true)
        blank
        receiver.pending_offer
        user_declined
        sender
        free_receiver in
    (e.asked ≡ (if true then Receiver.offer (offer flat_paths sender) ∷ [] else []))
    × (e.receiver.disk ≡ one_file)
    × (e.receiver.file ≡ free_receiver.file)
    × (e.receiver.pending ≡ (if true then shutting_down else accepting))
    × ((on_shut_down e.receiver).pending ≡ accepting)
    × (e.sender.pending ≡ finished)
    × (e.events ≡ complete false from_path ∷ [])
declined_session_lem_example =
    declined_session_lem flat_paths (λ name. true) blank receiver.pending_offer user_declined sender
      free_receiver (omega arith) sender-IsWireOffer sender-offer_fits
