-- ===== src/Protocol/Offer.antt =====
-- serializeOffer and deserializeOffer of src/core/protocol.cpp.
pub mod RoundTrip
pub mod InBounds
use net_transfer.Base.{ℕ, ◌+◌, List, [], ◌++◌, leb, length, take}
use net_transfer.Protocol.{OfferPayload}
use net_transfer.Protocol.Reader.{
  Outcome, Reader, ◌>>=◌, ◌>>◌, pure, require, position, result, read_be, read_bytes, write_be,
}

-- The lengths are written modulo 2^16, the names whole.
unfoldable pub serialize_offer : OfferPayload → List ℕ
serialize_offer p =
    write_be 8 p.file_size
    ++ (write_be 8 p.resume_offset
        ++ (take 32 p.sha256
            ++ (write_be 2 (length p.file_name)
                ++ (p.file_name ++ (write_be 2 (length p.device_name) ++ p.device_name)))))

-- A name behind its two length bytes, checked against `len`; the length bytes are not.
unfoldable pub read_name : ℕ → Reader (List ℕ)
read_name len = do
  name_length ← read_be 16 2 0
  counter ← position
  require (leb (counter + name_length) len)
  read_bytes name_length []

unfoldable pub read_offer : ℕ → Reader OfferPayload
read_offer len = do
  require (leb 50 len)
  file_size ← read_be 64 8 0
  resume_offset ← read_be 64 8 0
  sha256 ← read_bytes 32 []
  file_name ← read_name len
  device_name ← read_name len
  pure (record {
    file_size = file_size;
    resume_offset = resume_offset;
    sha256 = sha256;
    file_name = file_name;
    device_name = device_name;
  })

unfoldable pub deserialize_offer : List ℕ → ℕ → Outcome OfferPayload
unfolding read_offer
deserialize_offer bytes len = result (read_offer len (record { counter = 0; rest = bytes }))
