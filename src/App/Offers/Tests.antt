-- ===== src/App/Offers/Tests.antt =====
-- An unknown peer that offers a file of three bytes.
use net_transfer.Base.{◌≡◌, refl, arith, true, false, [], ◌∷◌, ◌++◌, some, length, replicate}
use net_transfer.Protocol.{OfferPayload, IsWireOffer, header_size}
use net_transfer.Protocol.Offer.{serialize_offer}
use net_transfer.Transfer.Sender.{done}
use net_transfer.Transfer.Receiver.{TransferReceiver, offered, store}
use net_transfer.Transfer.Receiver
use net_transfer.App.{
  NetTransfer, new_device, returned, trust_device, read_store, hex_text, hex_digit,
}
use net_transfer.App.Tests.{entries, desk}
use net_transfer.App.Run.Tests.{memory}
use net_transfer.App.Offers.{on_offer}
use net_transfer.App.Offers.Again.{turned_away, on_offer_again}

abbrev pub offer : OfferPayload
offer = record {
  file_size = 3;
  resume_offset = 0;
  sha256 = replicate 32 0;
  file_name = 0x61 ∷ [];
  device_name = 0x70 ∷ 0x63 ∷ [];
}

offer-IsWireOffer : IsWireOffer offer
offer-IsWireOffer = record {
  file_size_fits = omega arith;
  resume_offset_fits = omega arith;
  sha256_length = refl;
  file_name_fits = omega arith;
  device_name_fits = omega arith;
}

-- The receiver, which has read a header of zeros.
abbrev pub receiver : TransferReceiver
receiver = record memory { buffer = replicate 22 0 ++ [] }

abbrev away : NetTransfer
away = turned_away entries offer desk receiver offer 7 []

abbrev trusting : NetTransfer
trusting = record away {
  trusted_file = some (0 ∷ 2 ∷ (hex_text (7 ∷ []) ++ 0x70 ∷ 0x63 ∷ []));
  pending_trust_flag = false;
}

on_offer_again_example :
    (on_offer entries offer desk receiver
        (some (7 ∷ []))
        (length (serialize_offer offer))
        (done (serialize_offer offer))
      ≡ (away, [], new_device (hex_text (7 ∷ [])) (0x70 ∷ 0x63 ∷ []) ∷ []))
    × (trust_device entries away true ≡ returned trusting)
    × (on_offer entries offer trusting receiver
          (some (7 ∷ []))
          (length (serialize_offer offer))
          (done (serialize_offer offer))
        ≡ (
          record trusting {
            receiver = some (record receiver {
              buffer = store header_size (serialize_offer offer) receiver.buffer;
              pending_offer = offer;
              file_size = 3;
              pending = offered;
            });
          },
          Receiver.offer offer ∷ [],
          [],
        ))
on_offer_again_example =
    on_offer_again entries offer desk receiver receiver offer offer (replicate 22 0) []
      (replicate 22 0) [] 7 [] [] (0 ∷ 2 ∷ (hex_text (7 ∷ []) ++ 0x70 ∷ 0x63 ∷ []))
      offer-IsWireOffer offer-IsWireOffer refl refl refl refl (unfold read_store in refl) refl refl
      (unfold hex_text hex_digit in refl)
