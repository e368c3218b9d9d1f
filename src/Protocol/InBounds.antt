-- ===== src/Protocol/InBounds.antt =====
-- Every function that reads a message, on the memory that it is given.
use net_transfer.Base.{ℕ, ◌+◌, ◌≤◌, ◌≢◌, List, length, All}
use net_transfer.Protocol.{IsByte}
use net_transfer.Protocol.Reader.{fault}
use net_transfer.Protocol.Header.{deserialize_header}
use net_transfer.Protocol.Header.Accepts.{deserialize_header-ne-fault}
use net_transfer.Protocol.Offer.{deserialize_offer}
use net_transfer.Protocol.Offer.InBounds.{deserialize_offer-ne-fault}
use net_transfer.Protocol.Payload.{
  deserialize_reject, deserialize_done, deserialize_ack, deserialize_error, deserialize_discovery,
}
use net_transfer.Protocol.Payload.InBounds.{payloads_in_bounds}

-- No function reads past the end of its memory: the header's where there are 22 bytes, all of them below
-- 256, that of the offer where there are two bytes more than the length that it is told, and the five
-- others where there are as many bytes as that length.
pub deserialize-ne-fault :
    (header offer payload : List ℕ) (offer_len len : ℕ)
    → 22 ≤ length header
    → All IsByte header
    → offer_len + 2 ≤ length offer
    → len ≤ length payload
    → (deserialize_header header ≢ fault)
      × (deserialize_offer offer offer_len ≢ fault)
      × (deserialize_reject payload len ≢ fault)
      × (deserialize_done payload len ≢ fault)
      × (deserialize_ack payload len ≢ fault)
      × (deserialize_error payload len ≢ fault)
      × (deserialize_discovery payload len ≢ fault)
deserialize-ne-fault header offer payload offer_len len enough all room inside =
    let (reject, done, ack, error, discovery) = payloads_in_bounds payload len inside in
    (
      deserialize_header-ne-fault header enough all,
      deserialize_offer-ne-fault offer offer_len room,
      reject,
      done,
      ack,
      error,
      discovery,
    )
