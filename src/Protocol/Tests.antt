-- ===== src/Protocol/Tests.antt =====
-- The theorems on messages at concrete messages.
use net_transfer.Base.{
  ℕ, zero, suc, bit_xor, ◌≤◌, ◌≡◌, ◌≢◌, refl, arith, false, List, [], ◌∷◌, ◌++◌, length, All,
}
use net_transfer.Protocol.{
  BaseHeader, OfferPayload, RejectPayload, DonePayload, AckPayload, DiscoveryPayload, IsByte,
  IsWire, IsWireOffer, transfer_accept, user_declined, timeout, nt_magic, nt_version, type_of,
  type_code, reason_of, reason_code, error_of, error_code, ErrorPayload,
}
use net_transfer.Protocol.Reader.{ok, fault, write_be}
use net_transfer.Protocol.Crc.{
  crc32, crc_loop, crc_step, crc_table, fill_table, crc_rounds, crc_round,
}
use net_transfer.Protocol.Crc.Detects.{crc32-ne}
use net_transfer.Protocol.Crc.Reference.{byte_loop, crc32_lem}
use net_transfer.Protocol.Header.{header_front, serialize_header, deserialize_header}
use net_transfer.Protocol.Header.RoundTrip.{deserialize_header-serialize_header}
use net_transfer.Protocol.Header.Accepts.{deserialize_header_sound}
use net_transfer.Protocol.Offer.{serialize_offer, deserialize_offer}
use net_transfer.Protocol.Offer.RoundTrip.{deserialize_offer-serialize_offer}
use net_transfer.Protocol.Offer.InBounds.{deserialize_offer_over_read}
use net_transfer.Protocol.Payload.{
  serialize_reject, deserialize_reject, serialize_done, deserialize_done, serialize_ack,
  deserialize_ack, deserialize_error, serialize_error, serialize_discovery, deserialize_discovery,
}
use net_transfer.Protocol.Payload.RoundTrip.{payloads_read_back}
use net_transfer.Protocol.InBounds.{deserialize-ne-fault}

abbrev accept_header : BaseHeader
accept_header = record {
  magic = nt_magic;
  version = nt_version;
  msg_type = transfer_accept;
  session_id = 7;
  payload_len = 0;
  header_crc = 0;
}

abbrev accept_read : BaseHeader
accept_read = record accept_header { header_crc = crc32 (header_front accept_header) 18 }

accept-IsWire : IsWire accept_header
accept-IsWire = record {
  type_named = unfold type_of type_code in refl;
  session_fits = omega arith;
  payload_len_fits = omega arith;
}

deserialize_header-serialize_header_example :
    deserialize_header (serialize_header accept_header ++ 0x55 ∷ []) ≡ ok accept_read
deserialize_header-serialize_header_example =
    deserialize_header-serialize_header accept_header (0x55 ∷ []) refl refl accept-IsWire

abbrev digits : List ℕ
digits = 0x31 ∷ 0x32 ∷ 0x33 ∷ []

digits-IsByte : All IsByte digits
digits-IsByte = ground arith

crc32_lem_example : crc32 digits (length digits) ≡ bit_xor (byte_loop digits 0xFFFFFFFF) 0xFFFFFFFF
crc32_lem_example = crc32_lem digits digits-IsByte

crc32-ne_example : crc32 (0x31 ∷ 0x32 ∷ 0x33 ∷ []) 3 ≢ crc32 (0x31 ∷ 0x39 ∷ 0x33 ∷ []) 3
crc32-ne_example =
    crc32-ne (0x31 ∷ []) (0x33 ∷ []) 0x32 0x39 (omega arith, tt) (omega arith, tt) (omega arith)
      (omega arith) (λ e. omega (arith, e))

abbrev accept_bytes : List ℕ
accept_bytes = serialize_header accept_header ++ []

accept_bytes-IsByte : All IsByte accept_bytes
unfolding serialize_header header_front write_be crc32 crc_loop crc_step crc_table fill_table
    crc_rounds crc_round type_code
accept_bytes-IsByte = ground arith

accept_bytes-long : 22 ≤ length accept_bytes
unfolding serialize_header header_front write_be
accept_bytes-long = omega arith

deserialize_header_sound_example :
    (rest : List ℕ) × (accept_bytes ≡ serialize_header accept_read ++ rest)
    × (accept_read.magic ≡ nt_magic)
    × (accept_read.version ≡ nt_version)
deserialize_header_sound_example =
    deserialize_header_sound accept_bytes accept_read accept_bytes-long accept_bytes-IsByte
      (deserialize_header-serialize_header accept_header [] refl refl accept-IsWire)

abbrev zeros : ℕ → List ℕ
zeros zero = []
zeros (suc n) = 0 ∷ zeros n

abbrev small_offer : OfferPayload
small_offer = record {
  file_size = 3;
  resume_offset = 0;
  sha256 = zeros 32;
  file_name = 0x61 ∷ 0x2E ∷ 0x62 ∷ [];
  device_name = 0x70 ∷ 0x63 ∷ [];
}

small_offer-IsWireOffer : IsWireOffer small_offer
small_offer-IsWireOffer = record {
  file_size_fits = omega arith;
  resume_offset_fits = omega arith;
  sha256_length = refl;
  file_name_fits = omega arith;
  device_name_fits = omega arith;
}

deserialize_offer-serialize_offer_example :
    deserialize_offer (serialize_offer small_offer ++ 0x55 ∷ []) 57 ≡ ok small_offer
deserialize_offer-serialize_offer_example =
    deserialize_offer-serialize_offer small_offer (0x55 ∷ []) 57 small_offer-IsWireOffer
      (omega arith)

deserialize_offer_over_read_example :
    deserialize_offer
      (write_be 8 3
        ++ (write_be 8 0 ++ (zeros 32 ++ (write_be 2 3 ++ ((0x61 ∷ 0x2E ∷ 0x62 ∷ []) ++ [])))))
      53
    ≡ fault
deserialize_offer_over_read_example =
    deserialize_offer_over_read small_offer small_offer-IsWireOffer

abbrev declined : RejectPayload
declined = record { reason = user_declined }

abbrev digest : DonePayload
digest = record { sha256 = zeros 32 }

abbrev bad_checksum : AckPayload
bad_checksum = record { checksum_ok = false }

abbrev laptop : DiscoveryPayload
laptop = record { device_name = 0x70 ∷ 0x63 ∷ []; tcp_port = 50000 }

abbrev late : ErrorPayload
late = record { code = timeout; message = 0x6E ∷ 0x6F ∷ [] }

payloads_read_back_example :
    (deserialize_reject (serialize_reject declined ++ 0x55 ∷ []) 6 ≡ ok declined)
    × (deserialize_done (serialize_done digest ++ 0x55 ∷ []) 32 ≡ ok digest)
    × (deserialize_ack (serialize_ack bad_checksum ++ 0x55 ∷ []) 6 ≡ ok bad_checksum)
    × (deserialize_error (serialize_error late ++ 0x55 ∷ []) 6 ≡ ok late)
    × (deserialize_discovery (serialize_discovery laptop ++ 0x55 ∷ []) 6 ≡ ok laptop)
payloads_read_back_example =
    payloads_read_back declined digest bad_checksum late laptop (0x55 ∷ []) 6 (omega arith)
      (omega arith) (omega arith) (unfold reason_of reason_code in refl)
      (unfold error_of error_code in refl) refl (omega arith)

deserialize-ne-fault_example :
    (deserialize_header accept_bytes ≢ fault)
    × (deserialize_offer (zeros 60) 58 ≢ fault)
    × (deserialize_reject (zeros 40) 5 ≢ fault)
    × (deserialize_done (zeros 40) 5 ≢ fault)
    × (deserialize_ack (zeros 40) 5 ≢ fault)
    × (deserialize_error (zeros 40) 5 ≢ fault)
    × (deserialize_discovery (zeros 40) 5 ≢ fault)
deserialize-ne-fault_example =
    deserialize-ne-fault accept_bytes (zeros 60) (zeros 40) 58 5 accept_bytes-long
      accept_bytes-IsByte (omega arith) (omega arith)
