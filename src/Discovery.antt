-- ===== src/Discovery.antt =====
-- include/discovery.h and src/core/discovery.cpp: the list of devices, and the handlers of the UDP
-- socket and of the timer. The handlers run on one thread, so `devices_mutex` is not modelled; the
-- time is an argument, in nanoseconds of std::chrono::steady_clock. An address is its text.
pub mod Devices
pub mod Invariant
pub mod Heard
pub mod Faults
pub mod Introduced
pub mod Silent
pub mod Stale
pub mod Reported
pub mod Identity
pub mod Reached
mod Tests
use net_transfer.Base.{
  ℕ, ◌%◌, ◌^◌, Bool, true, false, List, [], ◌∷◌, ◌++◌, ◌&&◌, map, same, if◌then◌else◌, length, take,
  drop, replicate, none, some,
}
use net_transfer.Protocol.{
  BaseHeader, DiscoveryPayload, MessageType, discovery_broadcast, discovery_reply, header_size,
}
use net_transfer.Protocol.Reader.{Outcome, ok, refused, fault}
use net_transfer.Protocol.Header.{build_header, serialize_header, deserialize_header}
use net_transfer.Protocol.Payload.{serialize_discovery, deserialize_discovery}
use net_transfer.Discovery.Devices.{DiscoveredDevice, touch, expire}

-- BUFFER_MAX_SIZE
abbrev pub buffer_max_size : ℕ
buffer_max_size = 512

pub record DiscoveryService : Type 0 where
  pub device_name : List ℕ
  pub tcp_port : ℕ
  pub discovered_devices : List DiscoveredDevice
  pub buffer_incoming : List ℕ
  -- udp_socket.local_endpoint().address()
  pub local_address : List ℕ
  -- udp_socket is open; the timer is waiting
  pub is_open : Bool
  pub is_waiting : Bool

-- What the service does to its surroundings: the two callbacks, and a datagram to an address.
pub data Event : Type 0 where
  device_found device_left : DiscoveredDevice → Event
  sent : List ℕ → List ℕ → Event

-- How a completion handler ends: listening again, by an exception that leaves it (the socket then
-- has no receive pending), or in undefined behaviour, after a read outside of the buffer.
pub data Handled : Type 0 where
  listening thrown : DiscoveryService → List Event → Handled
  undefined : Handled

-- The completion of async_receive_from: an error code, or a datagram and its sender.
pub data Completion : Type 0 where
  failed : Completion
  received : List ℕ → List ℕ → Completion

unfoldable pub create : List ℕ → ℕ → List ℕ → DiscoveryService
create device_name tcp_port local_address = record {
  device_name = device_name;
  tcp_port = tcp_port;
  discovered_devices = [];
  buffer_incoming = replicate buffer_max_size 0;
  local_address = local_address;
  is_open = false;
  is_waiting = false;
}

-- The message that the service sends about itself.
unfoldable pub announcement : MessageType → DiscoveryService → List ℕ
announcement msg_type s =
    let payload =
      serialize_discovery (record { device_name = s.device_name; tcp_port = s.tcp_port }) in
    serialize_header (build_header msg_type 0 (length payload % 2 ^ 32)) ++ payload

abbrev pub broadcast_address : List ℕ
broadcast_address =
    0x32 ∷ 0x35 ∷ 0x35 ∷ 0x2E ∷ 0x32 ∷ 0x35 ∷ 0x35 ∷ 0x2E ∷ 0x32 ∷ 0x35 ∷ 0x35 ∷ 0x2E ∷ 0x32 ∷ 0x35
    ∷ 0x35 ∷ []

-- `send_ok` is false where send_to throws; here the exception is caught.
unfoldable pub send_broadcast : DiscoveryService → Bool → List Event
send_broadcast s send_ok =
    if send_ok then sent (announcement discovery_broadcast s) broadcast_address ∷ [] else []

-- async_receive_from writes the datagram over the front of the buffer, and drops what does not fit.
unfoldable pub fill : List ℕ → List ℕ → List ℕ
fill buffer datagram = let kept = take buffer_max_size datagram in kept ++ drop (length kept) buffer

-- The device in the list gets a new `last_seen`; a new one is appended, and reported.
unfoldable pub learn :
    DiscoveryService → DiscoveryPayload → List ℕ → ℕ → DiscoveryService × List Event
learn s dp sender now = elim (touch dp.device_name now s.discovered_devices) [
  | some devices ↦ (record s { discovered_devices = devices }, [])
  | none ↦
      let dd : DiscoveredDevice = record {
        name = dp.device_name;
        ip = sender;
        tcp_port = dp.tcp_port;
        last_seen = now;
      } in
      (record s { discovered_devices = s.discovered_devices ++ dd ∷ [] }, device_found dd ∷ [])
]

-- The reply to a broadcast. Here send_to is not guarded: the exception leaves the handler.
unfoldable pub reply : List ℕ → Bool → DiscoveryService × List Event → Handled
reply sender send_ok (s, events) =
    if send_ok
    then listening s (events ++ sent (announcement discovery_reply s) sender ∷ [])
    else thrown s events

-- `case DISCOVERY_BROADCAST`
unfoldable pub on_broadcast :
    DiscoveryService → List ℕ → ℕ → Bool → Outcome DiscoveryPayload → Handled
unfolding learn reply
on_broadcast s sender now send_ok refused = listening s []
on_broadcast s sender now send_ok fault = undefined
on_broadcast s sender now send_ok (ok dp) =
    if same dp.device_name s.device_name
    then listening s []
    else reply sender send_ok (learn s dp sender now)

-- `case DISCOVERY_REPLY`
unfoldable pub on_reply : DiscoveryService → List ℕ → ℕ → Outcome DiscoveryPayload → Handled
unfolding learn
on_reply s sender now refused = listening s []
on_reply s sender now fault = undefined
on_reply s sender now (ok dp) =
    if same dp.device_name s.device_name
    then listening s []
    else (let (s', events) = learn s dp sender now in listening s' events)

-- The payload is read at `buffer_incoming + HEADER_SIZE`, with the length that the header states.
unfoldable pub dispatch : DiscoveryService → List ℕ → ℕ → Bool → ℕ → MessageType → Handled
unfolding on_broadcast on_reply
dispatch s sender now send_ok payload_len discovery_broadcast =
    on_broadcast s sender now send_ok
      (deserialize_discovery (drop header_size s.buffer_incoming) payload_len)
dispatch s sender now send_ok payload_len discovery_reply =
    on_reply s sender now (deserialize_discovery (drop header_size s.buffer_incoming) payload_len)
dispatch s sender now send_ok payload_len _ = listening s []

unfoldable pub on_header : DiscoveryService → List ℕ → ℕ → Bool → Outcome BaseHeader → Handled
unfolding dispatch
on_header s sender now send_ok refused = listening s []
on_header s sender now send_ok fault = undefined
on_header s sender now send_ok (ok base) =
    dispatch s sender now send_ok base.payload_len base.msg_type

-- The handler of listenForPackages. The number of bytes received is not looked at.
unfoldable pub on_receive : DiscoveryService → ℕ → Bool → Completion → Handled
unfolding on_header fill
on_receive s now send_ok failed = listening s []
on_receive s now send_ok (received sender datagram) =
    let s' = record s { buffer_incoming = fill s.buffer_incoming datagram } in
    if same sender s.local_address
    then listening s' []
    else on_header s' sender now send_ok (deserialize_header s'.buffer_incoming)

unfoldable pub check_expired_devices : DiscoveryService → ℕ → DiscoveryService × List Event
check_expired_devices s now =
    let (devices, expired) = expire now s.discovered_devices in
    (record s { discovered_devices = devices }, map device_left expired)

-- The timer's handler, every SEARCH_LOOP seconds: it broadcasts, drops the devices that have not been
-- seen, and starts the timer again. After an error it does nothing.
unfoldable pub on_timer : DiscoveryService → ℕ → Bool → Bool → DiscoveryService × List Event
unfolding send_broadcast check_expired_devices
on_timer s now send_ok true = (record s { is_waiting = false }, [])
on_timer s now send_ok false =
    let (s', events) = check_expired_devices s now in
    (record s' { is_waiting = true }, send_broadcast s send_ok ++ events)

unfoldable pub set_device_name : DiscoveryService → List ℕ → DiscoveryService
set_device_name s name = record s { device_name = name }

unfoldable pub set_tcp_port : DiscoveryService → ℕ → DiscoveryService
set_tcp_port s port = record s { tcp_port = port }

-- DiscoveryService::start: `opened` and `bound` are false where opening the socket, or then its
-- options or its bind, throws. Otherwise it listens, sends a first broadcast and starts the timer.
unfoldable pub start : DiscoveryService → Bool → Bool → Bool → Bool × DiscoveryService × List Event
unfolding send_broadcast
start s opened bound send_ok =
    let s' = record s { is_open = opened } in
    if opened && bound
    then (true, record s' { is_waiting = true }, send_broadcast s send_ok)
    else (false, s', [])

-- DiscoveryService::stop: `closed` is false where closing the socket throws; then the timer goes on.
unfoldable pub stop : DiscoveryService → Bool → Bool × DiscoveryService
stop s true = (true, record s { is_open = false; is_waiting = false })
stop s false = (false, s)

-- DiscoveryService::getDevices
unfoldable pub get_devices : DiscoveryService → List DiscoveredDevice
get_devices s = s.discovered_devices
