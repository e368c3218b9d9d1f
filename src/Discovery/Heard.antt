-- ===== src/Discovery/Heard.antt =====
-- Two services of src/core/discovery.cpp: one announces itself, the other listens.
use net_transfer.Base.{
  ℕ, ◌+◌, ◌%◌, ◌^◌, ◌≤◌, ◌<◌, ◌≡◌, refl, ap, ◌∙◌, arith, Bool, true, false, List, [], ◌∷◌, ◌++◌,
  append_assoc, none, same, length, length-append, take, take_all, drop,
}
use net_transfer.Protocol.{
  BaseHeader, IsWire, DiscoveryPayload, MessageType, discovery_broadcast, discovery_reply,
  header_size, type_of, type_code,
}
use net_transfer.Protocol.Reader.{ok, write_be}
use net_transfer.Protocol.Reader.Laws.{length-write_be}
use net_transfer.Protocol.Crc.{crc32}
use net_transfer.Protocol.Header.{build_header, serialize_header, deserialize_header, header_front}
use net_transfer.Protocol.Header.RoundTrip.{
  deserialize_header-serialize_header, length-serialize_header, drop-serialize_header,
}
use net_transfer.Protocol.Payload.{serialize_discovery, deserialize_discovery}
use net_transfer.Protocol.Payload.RoundTrip.{deserialize_discovery-serialize_discovery}
use net_transfer.Discovery.{
  DiscoveryService, listening, received, device_found, sent, learn, reply, announcement, fill,
  on_broadcast, dispatch, on_header, on_receive,
}
use net_transfer.Discovery.Devices.{DiscoveredDevice, touch}

-- A name that fits a datagram with its header, and a port of 16 bits.
pub record IsHearable (s : DiscoveryService) : Type 0 where
  pub name_fits : length s.device_name ≤ 486
  pub port_fits : s.tcp_port < 2 ^ 16

abbrev pub about : DiscoveryService → DiscoveryPayload
about s = record { device_name = s.device_name; tcp_port = s.tcp_port }

length-serialize_discovery :
    (s : DiscoveryService)
    → IsHearable s
    → length (serialize_discovery (about s)) ≡ 4 + length s.device_name
unfolding serialize_discovery
length-serialize_discovery s h =
    let n : ℕ = length s.device_name in
    let whole : n % 2 ^ 16 ≡ n = omega (arith, h.name_fits) in
    rw
      (
        whole,
        length-append (write_be 2 s.tcp_port) (write_be 2 n ++ take n s.device_name),
        length-append (write_be 2 n) (take n s.device_name),
        length-write_be 2 s.tcp_port,
        length-write_be 2 n,
        take_all n s.device_name (omega arith),
      )
      (omega arith)

-- A buffer that begins with an announcement gives back its type and the announcing service.
pub announcement_read :
    (t : MessageType) (a : DiscoveryService) (junk : List ℕ)
    → type_of (type_code t) ≡ t
    → IsHearable a
    → (h : BaseHeader) × (deserialize_header (announcement t a ++ junk) ≡ ok h)
      × (h.msg_type ≡ t)
      × (deserialize_discovery (drop header_size (announcement t a ++ junk)) h.payload_len
          ≡ ok (about a))
unfolding announcement
announcement_read t a junk named hearable =
    let payload : List ℕ = serialize_discovery (about a) in
    let n = length-serialize_discovery a hearable in
    let len : length payload % 2 ^ 32 ≡ length payload = omega (arith, hearable.name_fits) in
    let h : BaseHeader = build_header t 0 (length payload % 2 ^ 32) in
    let wire : IsWire h =
      unfold build_header in
      record { type_named = named; session_fits = omega arith; payload_len_fits = omega arith } in
    let whole : length a.device_name % 2 ^ 16 ≡ length a.device_name =
      omega (arith, hearable.name_fits) in
    (
      record h { header_crc = crc32 (header_front h) 18 },
      rw (append_assoc (serialize_header h) payload junk) (
          deserialize_header-serialize_header h (payload ++ junk) (unfold build_header in refl)
            (unfold build_header in refl) wire),
      unfold build_header in refl,
      rw (append_assoc (serialize_header h) payload junk, drop-serialize_header h (payload ++ junk))
          (unfold build_header in
            (deserialize_discovery-serialize_discovery (about a) junk (length payload % 2 ^ 32)
                (omega arith) hearable.port_fits
              ∙ rw (whole, take_all (length a.device_name) a.device_name (omega arith)) refl)),
    )

pub length-announcement :
    (t : MessageType) (a : DiscoveryService)
    → IsHearable a
    → length (announcement t a) ≡ 26 + length a.device_name
unfolding announcement
length-announcement t a h =
    let payload : List ℕ = serialize_discovery (about a) in
    let header = build_header t 0 (length payload % 2 ^ 32) in
    omega (
      arith,
      length-append (serialize_header header) payload,
      length-serialize_header header,
      length-serialize_discovery a h,
    )

-- An announcement that arrives stands at the front of the buffer.
pub fill-announcement :
    (t : MessageType) (a : DiscoveryService) (buffer : List ℕ)
    → IsHearable a
    → fill buffer (announcement t a) ≡ announcement t a ++ drop (length (announcement t a)) buffer
unfolding fill
fill-announcement t a buffer h =
    rw (take_all 512 (announcement t a) (omega (arith, length-announcement t a h, h.name_fits)))
      refl

abbrev pub entry : DiscoveryService → List ℕ → ℕ → DiscoveredDevice
entry a sender now = record {
  name = a.device_name;
  ip = sender;
  tcp_port = a.tcp_port;
  last_seen = now;
}

-- A datagram from another address is handled by what the buffer then holds.
pub on_receive-remote :
    (s : DiscoveryService) (sender datagram buffer : List ℕ) (now : ℕ) (send_ok : Bool)
    → same sender s.local_address ≡ false
    → fill s.buffer_incoming datagram ≡ buffer
    → on_receive s now send_ok (received sender datagram)
      ≡ on_header
          (record s { buffer_incoming = buffer })
          sender
          now
          send_ok
          (deserialize_header buffer)
unfolding on_receive
on_receive-remote s sender datagram buffer now send_ok remote e =
    rw (remote, on_receive) refl
    ∙ ap
        (λ (b : List ℕ).
          on_header (record s { buffer_incoming = b }) sender now send_ok (deserialize_header b))
        e

-- A handler that finds `a`'s broadcast at the front of the buffer.
on_header-broadcast :
    (s a : DiscoveryService) (sender junk : List ℕ) (now : ℕ)
    → IsHearable a
    → same a.device_name s.device_name ≡ false
    → touch a.device_name now s.discovered_devices ≡ none
    → let buffer = announcement discovery_broadcast a ++ junk in
      let s' = record s {
        discovered_devices = s.discovered_devices ++ entry a sender now ∷ [];
        buffer_incoming = buffer;
      } in
      on_header (record s { buffer_incoming = buffer }) sender now true (deserialize_header buffer)
      ≡ listening s'
          (device_found (entry a sender now) ∷ sent (announcement discovery_reply s') sender ∷ [])
unfolding on_header dispatch on_broadcast learn reply
on_header-broadcast s a sender junk now h other new =
    let (base, r, t, p) =
      announcement_read discovery_broadcast a junk (unfold type_of type_code in refl) h in
    rw (r, t, p, other, new, on_header, on_broadcast, dispatch, learn) refl

-- The broadcast of a service with another name and address is heard, if that name has at most 486
-- bytes and its port 16 bits: a service that does not know it appends it to its list, with its name,
-- its port and the sender's address, reports it, and, if sending succeeds, answers the sender with
-- its own announcement and listens on.
pub on_receive-new_broadcast :
    (s a : DiscoveryService) (sender : List ℕ) (now : ℕ)
    → IsHearable a
    → same sender s.local_address ≡ false
    → same a.device_name s.device_name ≡ false
    → touch a.device_name now s.discovered_devices ≡ none
    → let message = announcement discovery_broadcast a in
      let s' = record s {
        discovered_devices = s.discovered_devices ++ entry a sender now ∷ [];
        buffer_incoming = message ++ drop (length message) s.buffer_incoming;
      } in
      on_receive s now true (received sender message)
      ≡ listening s'
          (device_found (entry a sender now) ∷ sent (announcement discovery_reply s') sender ∷ [])
on_receive-new_broadcast s a sender now h remote other new =
    let message : List ℕ = announcement discovery_broadcast a in
    on_receive-remote s sender message _ now true remote
      (fill-announcement discovery_broadcast a s.buffer_incoming h)
    ∙ on_header-broadcast s a sender (drop (length message) s.buffer_incoming) now h other new

-- A datagram with no content makes the handler read the datagram before it once more: after a
-- broadcast of `a`, an empty datagram from another address enters `a` into the list under the
-- address of the empty datagram's sender.
on_receive_empty :
    (s a : DiscoveryService) (sender junk : List ℕ) (now : ℕ)
    → IsHearable a
    → s.buffer_incoming ≡ announcement discovery_broadcast a ++ junk
    → same sender s.local_address ≡ false
    → same a.device_name s.device_name ≡ false
    → touch a.device_name now s.discovered_devices ≡ none
    → let s' = record s {
      discovered_devices = s.discovered_devices ++ entry a sender now ∷ [];
      buffer_incoming = announcement discovery_broadcast a ++ junk;
    } in
      on_receive s now true (received sender [])
      ≡ listening s'
          (device_found (entry a sender now) ∷ sent (announcement discovery_reply s') sender ∷ [])
unfolding fill
on_receive_empty s a sender junk now h buffered remote other new =
    on_receive-remote s sender [] _ now true remote buffered
    ∙ on_header-broadcast s a sender junk now h other new
