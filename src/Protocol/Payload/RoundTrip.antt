-- ===== src/Protocol/Payload/RoundTrip.antt =====
-- Payloads of src/core/protocol.cpp, written and read.
use net_transfer.Base.{
  ℕ, ◌+◌, ◌%◌, ◌^◌, ◌≤◌, ◌<◌, ◌≡◌, refl, arith, List, ◌++◌, append_assoc, length, length-take, take,
  take_all, le→leb,
}
use net_transfer.Protocol.{
  RejectPayload, DonePayload, AckPayload, ErrorPayload, DiscoveryPayload, reason_code, reason_of,
  error_code, error_of,
}
use net_transfer.Protocol.Reader.{ok, ◌>>=◌, write_be}
use net_transfer.Protocol.Reader.Laws.{read_be-write_be, read_bytes-append}
use net_transfer.Protocol.Payload.{
  serialize_reject, deserialize_reject, serialize_done, deserialize_done, serialize_ack,
  deserialize_ack, serialize_error, deserialize_error, serialize_discovery, deserialize_discovery,
}

-- A reject payload is read back from its byte, at a payload length of at least one and whatever
-- follows, for a reason that is not a named one in disguise.
deserialize_reject-serialize_reject :
    (p : RejectPayload) (rest : List ℕ) (len : ℕ)
    → 1 ≤ len
    → reason_of (reason_code p.reason) ≡ p.reason
    → deserialize_reject (serialize_reject p ++ rest) len ≡ ok p
unfolding deserialize_reject serialize_reject
deserialize_reject-serialize_reject p rest len h e = rw (le→leb 1 len h, e) refl

-- An acknowledgement is read back from its byte, at a payload length of at least one and whatever
-- follows.
pub deserialize_ack-serialize_ack :
    (p : AckPayload) (rest : List ℕ) (len : ℕ)
    → 1 ≤ len
    → deserialize_ack (serialize_ack p ++ rest) len ≡ ok p
unfolding deserialize_ack serialize_ack
deserialize_ack-serialize_ack p rest len h = rw (le→leb 1 len h) (ground arith)

-- A digest of 32 bytes is read back at a payload length of 32, whatever follows.
deserialize_done-serialize_done :
    (p : DonePayload) (rest : List ℕ)
    → length p.sha256 ≡ 32
    → deserialize_done (serialize_done p ++ rest) 32 ≡ ok p
unfolding deserialize_done serialize_done
deserialize_done-serialize_done p rest h =
    rw (take_all 32 p.sha256 (omega arith), read_bytes-append 32 p.sha256 0 rest h, ◌>>=◌) refl

length-cut : (xs : List ℕ) → length (take (length xs % 2 ^ 16) xs) ≡ length xs % 2 ^ 16
length-cut xs = omega (arith, length-take (length xs % 2 ^ 16) xs)

-- An error payload whose code is not a named one in disguise is read back, at a payload length that
-- covers it and whatever follows, with its message cut to its length modulo 2^16.
deserialize_error-serialize_error :
    (p : ErrorPayload) (rest : List ℕ) (len : ℕ)
    → 3 + length p.message % 2 ^ 16 ≤ len
    → error_of (error_code p.code) ≡ p.code
    → deserialize_error (serialize_error p ++ rest) len
      ≡ ok (record p { message = take (length p.message % 2 ^ 16) p.message })
unfolding deserialize_error serialize_error
deserialize_error-serialize_error p rest len h e =
    let n : ℕ = length p.message % 2 ^ 16 in
    let cut : List ℕ = take n p.message in
    rw
      (
        append_assoc (write_be 2 n) cut rest,
        le→leb 3 len (omega arith),
        read_be-write_be 2 n 1 (cut ++ rest) (omega arith),
        le→leb (3 + n) len h,
        read_bytes-append n cut 3 rest (length-cut p.message),
        e,
        ◌>>=◌,
      )
      refl

-- A discovery payload with a port of 16 bits is read back, at a payload length that covers it and
-- whatever follows, with its name cut to its length modulo 2^16.
pub deserialize_discovery-serialize_discovery :
    (p : DiscoveryPayload) (rest : List ℕ) (len : ℕ)
    → 4 + length p.device_name % 2 ^ 16 ≤ len
    → p.tcp_port < 2 ^ 16
    → deserialize_discovery (serialize_discovery p ++ rest) len
      ≡ ok (record p { device_name = take (length p.device_name % 2 ^ 16) p.device_name })
unfolding deserialize_discovery serialize_discovery
deserialize_discovery-serialize_discovery p rest len h port =
    let n : ℕ = length p.device_name % 2 ^ 16 in
    let cut : List ℕ = take n p.device_name in
    rw
      (
        append_assoc (write_be 2 p.tcp_port) (write_be 2 n ++ cut) rest,
        append_assoc (write_be 2 n) cut rest,
        le→leb 4 len (omega arith),
        read_be-write_be 2 p.tcp_port 0 _ port,
        read_be-write_be 2 n 2 (cut ++ rest) (omega arith),
        le→leb (4 + n) len h,
        read_bytes-append n cut 4 rest (length-cut p.device_name),
        ◌>>=◌,
      )
      refl

-- Each of the five payloads is read back, whatever follows: a refusal and an error whose codes are not
-- named ones in disguise, an acknowledgement and a discovery payload with a port of 16 bits at any
-- payload length that covers them, a digest of 32 bytes at a payload length of 32. The texts of an
-- error and of a discovery payload are cut to their length modulo 2^16.
pub payloads_read_back :
    (refusal : RejectPayload) (digest : DonePayload) (answer : AckPayload) (p : ErrorPayload)
    (d : DiscoveryPayload) (rest : List ℕ) (len : ℕ)
    → 1 ≤ len
    → 3 + length p.message % 2 ^ 16 ≤ len
    → 4 + length d.device_name % 2 ^ 16 ≤ len
    → reason_of (reason_code refusal.reason) ≡ refusal.reason
    → error_of (error_code p.code) ≡ p.code
    → length digest.sha256 ≡ 32
    → d.tcp_port < 2 ^ 16
    → (deserialize_reject (serialize_reject refusal ++ rest) len ≡ ok refusal)
      × (deserialize_done (serialize_done digest ++ rest) 32 ≡ ok digest)
      × (deserialize_ack (serialize_ack answer ++ rest) len ≡ ok answer)
      × (deserialize_error (serialize_error p ++ rest) len
          ≡ ok (record p { message = take (length p.message % 2 ^ 16) p.message }))
      × (deserialize_discovery (serialize_discovery d ++ rest) len
          ≡ ok (record d { device_name = take (length d.device_name % 2 ^ 16) d.device_name }))
payloads_read_back refusal digest answer p d rest len one covers_p covers_d named_reason named_error
      whole port =
    (
      deserialize_reject-serialize_reject refusal rest len one named_reason,
      deserialize_done-serialize_done digest rest whole,
      deserialize_ack-serialize_ack answer rest len one,
      deserialize_error-serialize_error p rest len covers_p named_error,
      deserialize_discovery-serialize_discovery d rest len covers_d port,
    )
