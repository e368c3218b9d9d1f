-- ===== src/Protocol/Offer/RoundTrip.antt =====
-- Offers, written by serializeOffer and given to deserializeOffer.
use net_transfer.Base.{
  ℕ, ◌+◌, ◌^◌, ◌≤◌, ◌<◌, ◌≡◌, refl, arith, List, ◌++◌, append_assoc, length, length-append,
  take_all, le→leb,
}
use net_transfer.Protocol.{OfferPayload, IsWireOffer}
use net_transfer.Protocol.Reader.{ok, ◌>>=◌, write_be}
use net_transfer.Protocol.Reader.Laws.{read_be-write_be, read_bytes-append, length-write_be}
use net_transfer.Protocol.Offer.{serialize_offer, deserialize_offer, read_name}

pub read_name-append :
    (len counter : ℕ) (name rest : List ℕ)
    → length name < 2 ^ 16
    → counter + 2 + length name ≤ len
    → read_name len
        (record { counter = counter; rest = write_be 2 (length name) ++ (name ++ rest) })
      ≡ ok (name, record { counter = counter + 2 + length name; rest = rest })
unfolding read_name
read_name-append len counter name rest small room =
    rw
      (
        read_be-write_be 2 (length name) counter (name ++ rest) small,
        le→leb (counter + 2 + length name) len room,
        read_bytes-append (length name) name (counter + 2) rest refl,
        ◌>>=◌,
      )
      refl

pub length-serialize_offer :
    (p : OfferPayload)
    → length p.sha256 ≡ 32
    → length (serialize_offer p) ≡ 52 + length p.file_name + length p.device_name
unfolding serialize_offer
length-serialize_offer p h =
    rw (take_all 32 p.sha256 (omega arith))
      (omega (arith, length-append {0} {A = ℕ}, length-write_be))

-- An offer that fits its widths is read back from the bytes that `serialize_offer` wrote, at a
-- payload length that covers them, whatever follows them in memory.
pub deserialize_offer-serialize_offer :
    (p : OfferPayload) (rest : List ℕ) (len : ℕ)
    → IsWireOffer p
    → 52 + length p.file_name + length p.device_name ≤ len
    → deserialize_offer (serialize_offer p ++ rest) len ≡ ok p
unfolding deserialize_offer serialize_offer
deserialize_offer-serialize_offer p rest len wire room =
    rw (take_all 32 p.sha256 (omega (arith, wire.sha256_length))) (
      simp append_assoc (
        rw
          (
            le→leb 50 len (omega arith),
            read_be-write_be 8 p.file_size 0 _ wire.file_size_fits,
            read_be-write_be 8 p.resume_offset 8 _ wire.resume_offset_fits,
            read_bytes-append 32 p.sha256 16 _ wire.sha256_length,
            read_name-append len 48 p.file_name _ wire.file_name_fits (omega arith),
            read_name-append len (48 + 2 + length p.file_name) p.device_name rest
                wire.device_name_fits (omega arith),
            ◌>>=◌,
          )
          refl))
