-- ===== src/App/Run/Port.antt =====
-- The port of a NetTransfer that has started: what the parts know of it, and what was announced.
use net_transfer.Base.{
  ℕ, zero, suc, ◌+◌, ◌-◌, ◌≤◌, ◌<◌, ◌≡◌, ◌≢◌, refl, ap, ◌∙◌, arith, Bool, true, false, List, [],
  ◌∷◌, some, Bool-cases, inl, inr,
}
use net_transfer.Protocol.{discovery_broadcast, tcp_port_max}
use net_transfer.Discovery.{DiscoveryService, announcement, sent, broadcast_address, send_broadcast}
use net_transfer.Discovery
use net_transfer.Transfer.Receiver.{TransferReceiver, bind_port, accepting}
use net_transfer.Transfer.Receiver
use net_transfer.App.{
  Config, NetTransfer, returned, default_config, save_config, device_name_key, tcp_port_key,
}
use net_transfer.App.Format.{Json}
use net_transfer.App.Run.{Surroundings, with_parts, launch, publish, start_parts, start}

-- The search ends at the first free port.
bind_port-found :
    (free : ℕ → Bool) (rounds p k : ℕ)
    → free k ≡ true
    → p ≤ k
    → k < p + rounds
    → (q : ℕ) × (bind_port free rounds p ≡ some q) × (free q ≡ true) × (p ≤ q) × (q ≤ k)
unfolding bind_port
bind_port-found free zero p k open_k low high = absurd (omega arith)
bind_port-found free (suc rounds) p k open_k low high = elim (Bool-cases (free p)) [
  | inl here ↦ (p, rw (here, bind_port) refl, here, omega arith, low)
  | inr taken ↦
      let later : p ≢ k = λ e. cc in
      let (q, e, open_q, above, below) =
        bind_port-found free rounds (p + 1) k open_k (omega arith) (omega arith) in
      (q, rw (taken, bind_port) e, open_q, omega arith, below)
]

bind_port-free :
    (free : ℕ → Bool) (rounds p q : ℕ) → bind_port free rounds p ≡ some q → free q ≡ true
unfolding bind_port
bind_port-free free zero p q e = cc
bind_port-free free (suc rounds) p q e = elim (Bool-cases (free p)) [
  | inl here ↦ let same_port : p ≡ q = cc (rw (here, bind_port) at e) in rw (← same_port) here
  | inr taken ↦ bind_port-free free rounds (p + 1) q (rw (taken, bind_port) at e)
]

pub bind_port-below :
    (free : ℕ → Bool) (rounds p q : ℕ) → bind_port free rounds p ≡ some q → q < p + rounds
unfolding bind_port
bind_port-below free zero p q e = cc
bind_port-below free (suc rounds) p q e = elim (Bool-cases (free p)) [
  | inl here ↦ let same_port : p ≡ q = cc (rw (here, bind_port) at e) in omega (arith, same_port)
  | inr taken ↦ omega (arith, bind_port-below free rounds (p + 1) q (rw (taken, bind_port) at e))
]

receiver_starts :
    (free : ℕ → Bool) (r : TransferReceiver) (port : ℕ)
    → bind_port free (tcp_port_max + 1 - r.listen_port) r.listen_port ≡ some port
    → Receiver.start free r ≡ (true, record r { listen_port = port; pending = accepting })
unfolding Receiver.start
receiver_starts free r port found = rw (found, Receiver.start) refl

discovery_starts :
    (d : DiscoveryService) (opened bound send_ok : Bool)
    → opened ≡ true
    → bound ≡ true
    → Discovery.start d opened bound send_ok
      ≡ (true, record d { is_open = true; is_waiting = true }, send_broadcast d send_ok)
unfolding Discovery.start
discovery_starts d opened bound send_ok o b = rw (o, b, Discovery.start) refl

module _ (json : Json) where
  open json use {empty, dump, set_text, set_number}

  -- The state of a NetTransfer that runs at `port`.
  unfoldable pub running : Surroundings → NetTransfer → List ℕ → ℕ → NetTransfer
  running around n text port =
      let n' = default_config n in
      let d = Discovery.create n'.config.device_name port around.local_address in
      record n' {
        config = record { device_name = n'.config.device_name; tcp_port = port };
        config_file = some text;
        discovery = some (record d { is_open = true; is_waiting = true });
        receiver = some (record (Receiver.create around.memory port) { pending = accepting });
        is_running = true;
      }

  publish_returns :
      (around : Surroundings) (n : NetTransfer) (d : DiscoveryService) (r : TransferReceiver)
      (text : List ℕ)
      → around.can_write ≡ true
      → dump (
          set_number
            (set_text empty device_name_key n.config.device_name)
            tcp_port_key
            r.listen_port)
        ≡ some text
      → publish json around n d r
        ≡ returned (
          true,
          record n {
            config = record { device_name = n.config.device_name; tcp_port = r.listen_port };
            config_file = some text;
            discovery = some (Discovery.set_tcp_port d r.listen_port);
            receiver = some r;
            is_running = true;
          },
        )
  unfolding publish launch with_parts save_config
  publish_returns around n d r text writes printed =
      rw (writes, save_config) (rw (printed, save_config) refl)

  pub start_lem :
      (around : Surroundings) (n : NetTransfer) (text : List ℕ) (port : ℕ)
      → around.tls_ok ≡ true
      → around.opened ≡ true
      → around.bound ≡ true
      → around.can_write ≡ true
      → let config = (default_config n).config in
        bind_port around.free (tcp_port_max + 1 - config.tcp_port) config.tcp_port ≡ some port
        → dump (set_number (set_text empty device_name_key config.device_name) tcp_port_key port)
          ≡ some text
        → start json around n ≡ (
          returned (true, running around n text port),
          send_broadcast
              (Discovery.create config.device_name config.tcp_port around.local_address)
              around.send_ok,
        )
  unfolding start start_parts with_parts running Discovery.create Discovery.set_tcp_port
      Receiver.create
  start_lem around n text port tls opened bound writes found printed =
      let n' : NetTransfer = default_config n in
      let d : DiscoveryService =
        Discovery.create n'.config.device_name n'.config.tcp_port around.local_address in
      let r : TransferReceiver = Receiver.create around.memory n'.config.tcp_port in
      let heard = discovery_starts d around.opened around.bound around.send_ok opened bound in
      let accepts = receiver_starts around.free r port found in
      let d' : DiscoveryService = record d { is_open = true; is_waiting = true } in
      let r' : TransferReceiver = record r { listen_port = port; pending = accepting } in
      rw (start, tls)
        (rw (heard, accepts)
          (ap (λ c. (c, send_broadcast d around.send_ok))
            (publish_returns around n' d' r' text writes printed)))

  -- If TLS and the UDP socket can be set up, the configuration file can be written, and the name can
  -- be printed with every port: then, if some port from the configured one up to TCP_PORT_MAX is free,
  -- a start succeeds with one of these, no higher than the one known to be free: the receiver accepts on
  -- it, the discovery service announces it from then on, and the configuration and its file have
  -- it.
  pub start_publishes :
      (around : Surroundings) (n : NetTransfer) (k : ℕ) (text : ℕ → List ℕ)
      → around.tls_ok ≡ true
      → around.opened ≡ true
      → around.bound ≡ true
      → around.can_write ≡ true
      → let config = (default_config n).config in
        ((port : ℕ)
          → dump (set_number (set_text empty device_name_key config.device_name) tcp_port_key port)
            ≡ some (text port))
        → around.free k ≡ true
        → config.tcp_port ≤ k
        → k ≤ tcp_port_max
        → (port : ℕ) × (around.free port ≡ true)
          × (config.tcp_port ≤ port)
          × (port ≤ k)
          × ((start json around n).0 ≡ returned (true, running around n (text port) port))
  start_publishes around n k text tls opened bound writes printed open_k low high =
      let config : Config = (default_config n).config in
      let (port, found, open_port, above, below) =
        bind_port-found around.free (tcp_port_max + 1 - config.tcp_port) config.tcp_port k open_k
          low (omega arith) in
      (
        port,
        open_port,
        above,
        below,
        ap (λ p. p.0)
            (start_lem around n (text port) port tls opened bound writes found (printed port)),
      )

  -- If TLS and the UDP socket can be set up, the broadcast and the configuration file can be written, the
  -- name can be printed, and the configured port is taken while a later one is free: then a start
  -- succeeds, and all it has announced is the configured port, which is not the receiver's, since the
  -- first broadcast goes out before the receiver has looked for its port.
  pub start_announces :
      (around : Surroundings) (n : NetTransfer) (text : List ℕ) (port : ℕ)
      → around.tls_ok ≡ true
      → around.opened ≡ true
      → around.bound ≡ true
      → around.can_write ≡ true
      → around.send_ok ≡ true
      → let config = (default_config n).config in
        bind_port around.free (tcp_port_max + 1 - config.tcp_port) config.tcp_port ≡ some port
        → around.free config.tcp_port ≡ false
        → dump (set_number (set_text empty device_name_key config.device_name) tcp_port_key port)
          ≡ some text
        → let d = Discovery.create config.device_name config.tcp_port around.local_address in
          (start json around n ≡ (
            returned (true, running around n text port),
            sent (announcement discovery_broadcast d) broadcast_address ∷ [],
          ))
          × (d.tcp_port ≢ port)
  unfolding send_broadcast Discovery.create
  start_announces around n text port tls opened bound writes sends found taken printed =
      let config : Config = (default_config n).config in
      (
        start_lem around n text port tls opened bound writes found printed ∙ rw sends refl,
        λ e. cc (
            bind_port-free around.free (tcp_port_max + 1 - config.tcp_port) config.tcp_port port
              found),
      )
