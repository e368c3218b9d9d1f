-- ===== src/Protocol/Payload.antt =====
-- The payload functions of src/core/protocol.cpp but those of the offer.
pub mod RoundTrip
pub mod InBounds
use net_transfer.Base.{
  ℕ, ◌+◌, ◌%◌, ◌^◌, Bool, true, false, not, List, [], ◌∷◌, ◌++◌, ◌==◌, leb, length, take,
}
use net_transfer.Protocol.{
  RejectPayload, DonePayload, AckPayload, ErrorPayload, DiscoveryPayload, reason_code, reason_of,
  error_code, error_of,
}
use net_transfer.Protocol.Reader.{
  Outcome, Reader, ◌>>=◌, ◌>>◌, pure, require, position, result, next, read_be, read_bytes,
  write_be,
}

unfoldable pub serialize_reject : RejectPayload → List ℕ
serialize_reject p = reason_code p.reason ∷ []

unfoldable pub read_reject : ℕ → Reader RejectPayload
read_reject len = do require (leb 1 len); b ← next; pure (record { reason = reason_of b })

unfoldable pub deserialize_reject : List ℕ → ℕ → Outcome RejectPayload
unfolding read_reject
deserialize_reject bytes len = result (read_reject len (record { counter = 0; rest = bytes }))

unfoldable pub serialize_done : DonePayload → List ℕ
serialize_done p = take 32 p.sha256

unfoldable pub read_done : ℕ → Reader DonePayload
read_done len = do require (len == 32); sha256 ← read_bytes 32 []; pure (record { sha256 = sha256 })

unfoldable pub deserialize_done : List ℕ → ℕ → Outcome DonePayload
unfolding read_done
deserialize_done bytes len = result (read_done len (record { counter = 0; rest = bytes }))

-- static_cast<uint8_t>(b) of a bool
abbrev pub bool_byte : Bool → ℕ
bool_byte true = 1
bool_byte false = 0

unfoldable pub serialize_ack : AckPayload → List ℕ
serialize_ack p = bool_byte p.checksum_ok ∷ []

unfoldable pub read_ack : ℕ → Reader AckPayload
read_ack len = do require (leb 1 len); b ← next; pure (record { checksum_ok = not (b == 0) })

unfoldable pub deserialize_ack : List ℕ → ℕ → Outcome AckPayload
unfolding read_ack
deserialize_ack bytes len = result (read_ack len (record { counter = 0; rest = bytes }))

-- `uint16_t message_lenght` bounds the loop too: a longer message is cut to its length modulo 2^16.
unfoldable pub serialize_error : ErrorPayload → List ℕ
serialize_error p =
    let message_length = length p.message % 2 ^ 16 in
    error_code p.code ∷ (write_be 2 message_length ++ take message_length p.message)

unfoldable pub read_error : ℕ → Reader ErrorPayload
read_error len = do
  require (leb 3 len)
  code ← next
  message_length ← read_be 16 2 0
  counter ← position
  require (leb (counter + message_length) len)
  message ← read_bytes message_length []
  pure (record { code = error_of code; message = message })

unfoldable pub deserialize_error : List ℕ → ℕ → Outcome ErrorPayload
unfolding read_error
deserialize_error bytes len = result (read_error len (record { counter = 0; rest = bytes }))

-- `uint16_t device_name_length` bounds the loop too.
unfoldable pub serialize_discovery : DiscoveryPayload → List ℕ
serialize_discovery p =
    let device_name_length = length p.device_name % 2 ^ 16 in
    write_be 2 p.tcp_port
    ++ (write_be 2 device_name_length ++ take device_name_length p.device_name)

unfoldable pub read_discovery : ℕ → Reader DiscoveryPayload
read_discovery len = do
  require (leb 4 len)
  tcp_port ← read_be 16 2 0
  device_name_length ← read_be 16 2 0
  counter ← position
  require (leb (counter + device_name_length) len)
  device_name ← read_bytes device_name_length []
  pure (record { device_name = device_name; tcp_port = tcp_port })

unfoldable pub deserialize_discovery : List ℕ → ℕ → Outcome DiscoveryPayload
unfolding read_discovery
deserialize_discovery bytes len = result (read_discovery len (record { counter = 0; rest = bytes }))
