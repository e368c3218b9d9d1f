-- ===== src/Transfer/Receiver/Tests.antt =====
-- A receiver with one file on its disk.
use net_transfer.Base.{
  ◌≡◌, refl, arith, true, false, [], ◌∷◌, ◌++◌, none, some, same, length, replicate,
}
use net_transfer.Protocol.{OfferPayload, IsWireOffer}
use net_transfer.Protocol.Offer.{serialize_offer}
use net_transfer.Transfer.Platform.{Paths}
use net_transfer.Transfer.Sender.{done}
use net_transfer.Transfer.Receiver.{
  TransferReceiver, accepting, offered, reading_chunk_header, idle, on_accept, on_handshake,
  on_offer, accept, on_accept_written,
}
use net_transfer.Transfer.Receiver.Files.{resolve_file_path, first_free, numbered}
use net_transfer.Transfer.Receiver.Chunks.{on_chunk}
use net_transfer.Transfer.Receiver.Machine.{
  here, later, connection, handshake, accepts, accept_written,
}
use net_transfer.Transfer.Receiver.Machine.Untouched.{Run-disk}
use net_transfer.Transfer.Receiver.Machine.Broken.{Broken-Run, no_handshake}
use net_transfer.Transfer.Receiver.Machine.Preserved.{Run-keeps}
use net_transfer.Transfer.Receiver.Stream.{same_bytes}
use net_transfer.Transfer.Receiver.Chosen.{on_chunk_chosen}
use net_transfer.Transfer.Tests.{keep_all, flat_paths, receiver, one_file, taken_path}

abbrev waiting : TransferReceiver
waiting = record receiver { file = none; file_path = []; disk = one_file; pending = accepting }

-- A connection whose handshake fails.
Run-disk_example :
    ((on_handshake (on_accept waiting true) false).disk ≡ waiting.disk)
    × ((on_handshake (on_accept waiting true) false).file ≡ waiting.file)
unfolding on_accept
Run-disk_example =
    Run-disk keep_all flat_paths {r = waiting} tt
      (later (later here refl (connection true refl)) refl (handshake false refl))

abbrev asked : TransferReceiver
asked = record waiting { pending = offered }

-- A free name is found.
asked-reading :
    (on_accept_written flat_paths (0x64 ∷ []) 3 true (accept 0 asked).0 true).pending
    ≡ reading_chunk_header
unfolding on_accept_written accept resolve_file_path first_free numbered same
asked-reading = refl

Run-keeps_example :
    (on_accept_written flat_paths (0x64 ∷ []) 3 true (accept 0 asked).0 true).disk taken_path
    ≡ some (1 ∷ 2 ∷ 3 ∷ [])
unfolding accept same
Run-keeps_example =
    Run-keeps keep_all flat_paths {may = λ m. true} {r = asked} taken_path (1 ∷ 2 ∷ 3 ∷ []) refl
      refl refl refl
      (later (later here refl (accepts 0 refl)) refl (accept_written (0x64 ∷ []) 3 true true refl))
      (λ e. let reading = asked-reading in cc)

abbrev shaking : TransferReceiver
shaking = on_handshake waiting false

Broken-Run_example : (shaking.pending ≡ idle) × (shaking ≡ shaking)
Broken-Run_example =
    Broken-Run keep_all flat_paths {may = λ m. true} {r = waiting} no_handshake here

-- Paths of which the second is absolute.
abbrev absolute_paths : Paths
absolute_paths = record flat_paths { join = λ a b. b }

abbrev evil : OfferPayload
evil = record {
  file_size = 3;
  resume_offset = 0;
  sha256 = replicate 32 0;
  file_name = 0x2F ∷ 0x61 ∷ [];
  device_name = [];
}

evil-IsWireOffer : IsWireOffer evil
evil-IsWireOffer = record {
  file_size_fits = omega arith;
  resume_offset_fits = omega arith;
  sha256_length = refl;
  file_name_fits = omega arith;
  device_name_fits = omega arith;
}

abbrev reading : TransferReceiver
reading = record waiting { buffer = replicate 22 0 ++ [] }

abbrev receiving : TransferReceiver
receiving =
    on_accept_written absolute_paths (0x64 ∷ []) 3 true
      (accept 0
        (on_offer (λ name. true) evil reading (length (serialize_offer evil))
          (done (serialize_offer evil))).0).0
      true

on_chunk_chosen_example :
    (receiving.file ≡ some (0x2F ∷ 0x61 ∷ []))
    × ((on_chunk same_bytes receiving (done (1 ∷ []))).0.disk (0x2F ∷ 0x61 ∷ []) ≡ some (1 ∷ []))
on_chunk_chosen_example =
    on_chunk_chosen absolute_paths (λ name. true) evil evil reading (replicate 22 0) [] (0x64 ∷ [])
      (1 ∷ []) 3 same_bytes evil-IsWireOffer refl refl refl refl (unfold same in refl) (omega arith)
