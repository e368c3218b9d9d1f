-- ===== src/Protocol/Offer/InBounds.antt =====
-- deserializeOffer and the end of its memory.
use net_transfer.Base.{
  ℕ, ◌+◌, ◌≤◌, ◌≡◌, ◌≢◌, refl, arith, List, [], ◌++◌, leb, leb→le, le→leb, Bool-cases, inl, inr,
  length, length-drop, drop,
}
use net_transfer.Protocol.{OfferPayload, IsWireOffer}
use net_transfer.Protocol.Reader.{fault, Reader, ◌>>=◌, read_be, read_bytes, write_be}
use net_transfer.Protocol.Reader.Laws.{
  read_be-total, read_bytes-total, read_be-write_be, read_bytes-append,
}
use net_transfer.Protocol.Reader.Safety.{
  Safe, Takes-read_be, Takes-read_bytes, Safe-take, Safe-require, Safe-pure, Safe-result,
}
use net_transfer.Protocol.Offer.{read_name, read_offer, deserialize_offer}
use net_transfer.Protocol.Offer.RoundTrip.{read_name-append}

-- A name ends within the payload, if its two length bytes lie in memory.
Safe-name :
    {B : Type 0} (size len n : ℕ) (f : List ℕ → Reader B)
    → len ≤ size
    → n + 2 ≤ size
    → ((m : ℕ) (name : List ℕ) → n + 2 + m ≤ len → Safe size (n + 2 + m) (f name))
    → Safe size n (read_name len >>= f)
unfolding read_name
Safe-name size len n f inside room safe = record {
  run = λ bs h.
      let (m, e) = read_be-total 16 2 0 n bs (omega arith) in
      rw (e, ◌>>=◌)
        (elim (Bool-cases (leb (n + 2 + m) len)) [
          | inl fits ↦
              let within : n + 2 + m ≤ len = leb→le (n + 2 + m) len fits in
              let here : m ≤ length (drop 2 bs) = omega (arith, length-drop 2 bs) in
              rw (fits, read_bytes-total m (n + 2) (drop 2 bs) here, ◌>>=◌)
                ((safe m _ within).run _
                  (omega (arith, length-drop m (drop 2 bs), length-drop 2 bs)))
          | inr over ↦ rw (over, ◌>>=◌) (λ e'. ground arith)
        ]);
}

Safe-read_offer : (size len : ℕ) → len + 2 ≤ size → Safe size 0 (read_offer len)
unfolding read_offer
Safe-read_offer size len room = Safe-require size 0 (leb 50 len) _ λ e.
    let enough : 50 ≤ len = leb→le 50 len e in
    Safe-take size 0 8 (read_be 64 8 0) _ (Takes-read_be 64 8 0) (omega arith) λ file_size.
      Safe-take size 8 8 (read_be 64 8 0) _ (Takes-read_be 64 8 0) (omega arith) λ offset.
        Safe-take size 16 32 (read_bytes 32 []) _ (Takes-read_bytes 32) (omega arith) λ sha.
          Safe-name size len 48 _ (omega arith) (omega arith) λ m file_name h.
            Safe-name size len (48 + 2 + m) _ (omega arith) (omega arith)
              λ k device_name h'. Safe-pure size (48 + 2 + m + 2 + k) _

-- With two bytes of memory behind the payload, `deserialize_offer` does not read past its end.
pub deserialize_offer-ne-fault :
    (bytes : List ℕ) (len : ℕ) → len + 2 ≤ length bytes → deserialize_offer bytes len ≢ fault
unfolding deserialize_offer
deserialize_offer-ne-fault bytes len room =
    Safe-result (read_offer len) bytes (Safe-read_offer (length bytes) len room)

-- Without them it does: a payload that ends with its file name passes both checks of the length, and
-- the length of the device name is read behind its end.
pub deserialize_offer_over_read :
    (p : OfferPayload)
    → IsWireOffer p
    → deserialize_offer
        (write_be 8 p.file_size
          ++ (write_be 8 p.resume_offset
              ++ (p.sha256 ++ (write_be 2 (length p.file_name) ++ (p.file_name ++ [])))))
        (50 + length p.file_name)
      ≡ fault
unfolding deserialize_offer read_be
deserialize_offer_over_read p wire =
    rw
      (
        le→leb 50 (50 + length p.file_name) (omega arith),
        read_be-write_be 8 p.file_size 0 _ wire.file_size_fits,
        read_be-write_be 8 p.resume_offset 8 _ wire.resume_offset_fits,
        read_bytes-append 32 p.sha256 16 _ wire.sha256_length,
        read_name-append (50 + length p.file_name) 48 p.file_name [] wire.file_name_fits
            (omega arith),
        ◌>>=◌,
      )
      (unfold read_name read_be in refl)
