-- ===== src/Transfer/Receiver/Offered.antt =====
-- An offer that TransferReceiver has read behind its header.
use net_transfer.Base.{
  ℕ, ◌+◌, ◌≤◌, ◌≡◌, refl, arith, Bool, List, ◌++◌, length, drop, take-append, drop-append,
}
use net_transfer.Protocol.{OfferPayload, IsWireOffer, header_size}
use net_transfer.Protocol.Offer.{serialize_offer}
use net_transfer.Protocol.Offer.RoundTrip.{
  deserialize_offer-serialize_offer, length-serialize_offer,
}
use net_transfer.Transfer.Sender.{done}
use net_transfer.Transfer.Receiver.{TransferReceiver, on_offer_parsed, take_offer, on_offer, store}

-- A payload that was read behind a header stands behind it in the buffer.
drop-store :
    (n : ℕ) (header payload junk : List ℕ)
    → length header ≡ n
    → drop n (store n payload (header ++ junk))
      ≡ payload ++ drop (n + length payload) (header ++ junk)
unfolding store
drop-store n header payload junk e =
    rw (← e, take-append header junk)
      (drop-append header (payload ++ drop (length header + length payload) (header ++ junk)))

-- An offer that the receiver has read behind a header is taken whole.
pub on_offer-serialize_offer :
    (garbage : OfferPayload) (valid : List ℕ → Bool) (r : TransferReceiver) (op : OfferPayload)
    (header junk : List ℕ)
    → IsWireOffer op
    → r.buffer ≡ header ++ junk
    → length header ≡ header_size
    → let payload = serialize_offer op in
      on_offer valid garbage r (length payload) (done payload)
      ≡ take_offer valid (record r { buffer = store header_size payload r.buffer }) op
unfolding on_offer on_offer_parsed
on_offer-serialize_offer garbage valid r op header junk wire shape whole =
    let payload : List ℕ = serialize_offer op in
    let room : 52 + length op.file_name + length op.device_name ≤ length payload =
      omega (arith, length-serialize_offer op wire.sha256_length) in
    rw
      (
        shape,
        drop-store header_size header payload junk whole,
        deserialize_offer-serialize_offer op (drop (header_size + length payload) (header ++ junk))
            (length payload) wire room,
      )
      refl
