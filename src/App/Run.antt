-- ===== src/App/Run.antt =====
-- NetTransfer::start, stop and sendFile of src/core/NetTransfer.cpp: how the parts run together.
pub mod Port
pub mod Restart
pub mod Tests
use net_transfer.Base.{ℕ, Bool, true, false, List, [], Option, none, some, if◌then◌else◌}
use net_transfer.Protocol.{RejectReason}
use net_transfer.Discovery.{DiscoveryService}
use net_transfer.Discovery
use net_transfer.Discovery.Devices.{DiscoveredDevice}
use net_transfer.Transfer.Receiver.{TransferReceiver, Notice}
use net_transfer.Transfer.Receiver
use net_transfer.App.{
  NetTransfer, Call, returned, thrown, undefined, default_config, load_config, save_config,
}
use net_transfer.App.Format.{Json}

-- What the surroundings answer to a start: the TLS set-up, the UDP socket, the first broadcast, the
-- ports that can be bound, the configuration file; the socket's address, and what the receiver's
-- fields hold before they are set.
pub record Surroundings : Type 0 where
  pub tls_ok : Bool
  pub opened : Bool
  pub bound : Bool
  pub send_ok : Bool
  pub free : ℕ → Bool
  pub can_write : Bool
  pub local_address : List ℕ
  pub memory : TransferReceiver

-- The two parts, made from the configuration.
unfoldable pub with_parts :
    Surroundings → NetTransfer → DiscoveryService → TransferReceiver → NetTransfer
with_parts around n d r = record n { discovery = some d; receiver = some r }

-- Before a configuration is loaded; the port is what the memory holds.
abbrev pub blank : ℕ → Option (List ℕ) → Option (List ℕ) → NetTransfer
blank memory config_file trusted_file = record {
  config = record { device_name = []; tcp_port = memory };
  config_file = config_file;
  trusted_file = trusted_file;
  pending_trust_flag = false;
  pending_trust_fingerprint = [];
  pending_trust_device_name = [];
  discovery = none;
  receiver = none;
  active_sender = none;
  is_running = false;
}

module _ (json : Json) where
  -- The constructor, on the two files of the configuration directory.
  unfoldable pub create : ℕ → Option (List ℕ) → Option (List ℕ) → Call (Bool × NetTransfer)
  create memory config_file trusted_file = load_config json (blank memory config_file trusted_file)

  -- saveConfig, whose result is not looked at, and the io thread.
  unfoldable pub launch : Call (Bool × NetTransfer) → Call (Bool × NetTransfer)
  launch (returned (saved, n)) = returned (true, record n { is_running = true })
  launch (thrown (saved, n)) = thrown (false, n)
  launch undefined = undefined

  -- Both parts have started: the port that the receiver has found is announced and saved.
  unfoldable pub publish :
      Surroundings → NetTransfer → DiscoveryService → TransferReceiver → Call (Bool × NetTransfer)
  unfolding launch with_parts
  publish around n d r =
      let n' = with_parts around n (Discovery.set_tcp_port d r.listen_port) r in
      launch (
        save_config json
          (record n' {
            config = record { device_name = n.config.device_name; tcp_port = r.listen_port };
          })
          around.can_write)

  -- What is sent is the service's first broadcast.
  unfoldable pub start_parts :
      Surroundings
      → NetTransfer
      → DiscoveryService
      → TransferReceiver
      → Call (Bool × NetTransfer) × List Discovery.Event
  unfolding publish with_parts
  start_parts around n d r =
      let (heard, d', events) = Discovery.start d around.opened around.bound around.send_ok in
      let (accepts, r') = Receiver.start around.free r in
      if heard
      then (
        if accepts then publish around n d' r' else returned (false, with_parts around n d' r'),
        events,
      )
      else (returned (false, with_parts around n d' r), events)

  unfoldable pub start :
      Surroundings → NetTransfer → Call (Bool × NetTransfer) × List Discovery.Event
  unfolding start_parts with_parts
  start around n =
      let n' = default_config n in
      let d = Discovery.create n'.config.device_name n'.config.tcp_port around.local_address in
      let r = Receiver.create around.memory n'.config.tcp_port in
      if around.tls_ok
      then start_parts around n' d r
      else (returned (false, with_parts around n' d r), [])

-- stop, on parts that are there. The sender is stopped too, and its result not looked at. Joining the
-- io thread throws if it was never launched.
unfoldable pub stop_parts :
    NetTransfer → Bool → Bool → DiscoveryService → TransferReceiver → Call (Bool × NetTransfer)
stop_parts n udp_closed tcp_closed d r =
    let (quiet, d') = Discovery.stop d udp_closed in
    let (closed, r') = Receiver.stop r tcp_closed in
    if quiet
    then (if closed
        then (if n.is_running
            then returned
                (true, record n { discovery = some d'; receiver = some r'; is_running = false })
            else thrown (false, record n { discovery = some d'; receiver = some r' }))
        else returned (false, record n { discovery = some d' }))
    else returned (false, n)

unfoldable pub stop : NetTransfer → Bool → Bool → Call (Bool × NetTransfer)
unfolding stop_parts
stop n udp_closed tcp_closed = elim n.discovery [
  | none ↦ undefined
  | some d ↦ elim n.receiver [ none ↦ undefined | some r ↦ stop_parts n udp_closed tcp_closed d r ]
]

-- sendFile. A sender that was there is destroyed; the new one starts on the io thread.
unfoldable pub send_file : NetTransfer → DiscoveredDevice → List ℕ → Bool × NetTransfer
send_file n target file_path = (
  true,
  record n {
    active_sender = some (record {
      target_ip = target.ip;
      target_port = target.tcp_port;
      file_path = file_path;
      device_name = n.config.device_name;
    });
  },
)

unfoldable pub get_devices : NetTransfer → Call (List DiscoveredDevice)
get_devices n = elim n.discovery [ none ↦ undefined | some d ↦ returned (Discovery.get_devices d) ]

-- accept and reject, as they run on the strand.
unfoldable pub accept : NetTransfer → Call (NetTransfer × List Notice)
accept n = elim n.receiver [
  | none ↦ undefined
  | some r ↦
      (let (r', notices) = Receiver.accept 0 r in
        returned (record n { receiver = some r' }, notices))
]

unfoldable pub reject : RejectReason → NetTransfer → Call (NetTransfer × List Notice)
reject reason n = elim n.receiver [
  | none ↦ undefined
  | some r ↦
      (let (r', notices) = Receiver.reject reason r in
        returned (record n { receiver = some r' }, notices))
]
