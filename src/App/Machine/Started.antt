-- ===== src/App/Machine/Started.antt =====
-- NetTransfer from its start on.
use net_transfer.Base.{◌≡◌, refl, Bool, true, false, some, ◌&&◌, inl, inr, Bool-cases, Option-cases}
use net_transfer.Discovery.{DiscoveryService}
use net_transfer.Discovery
use net_transfer.Transfer.Platform.{Hash, Paths}
use net_transfer.Transfer.Receiver.{TransferReceiver}
use net_transfer.Transfer.Receiver
use net_transfer.App.{
  Config, NetTransfer, Call, returned, thrown, undefined, default_config, save_config,
  device_name_key, tcp_port_key,
}
use net_transfer.App.Format.{Json}
use net_transfer.App.Run.{Surroundings, start, start_parts, publish, launch, with_parts}
use net_transfer.App.Machine.{Actor, Run}
use net_transfer.App.Machine.Agrees.{Agrees, SameParts-Agrees, Run-Agrees}
use net_transfer.App.Machine.Parts.{AfterCall}

-- What holds if a call returns true.
abbrev Succeeds : (NetTransfer → Type 0) → Call (Bool × NetTransfer) → Type 0
Succeeds P (returned (true, n)) = P n
Succeeds P (returned (false, n)) = Unit {0}
Succeeds P (thrown c) = Unit {0}
Succeeds P undefined = Unit {0}

module _ (json : Json) where
  launch-Agrees :
      (c : Call (Bool × NetTransfer))
      → AfterCall (λ (p : Bool × NetTransfer). Agrees p.1) c
      → Succeeds Agrees (launch json c)
  unfolding launch
  launch-Agrees (returned (saved, n)) a = SameParts-Agrees a (refl, refl, refl)
  launch-Agrees (thrown (saved, n)) a = tt
  launch-Agrees undefined a = tt

  save_config-Agrees :
      (n : NetTransfer) (can_write : Bool)
      → Agrees n
      → AfterCall (λ (p : Bool × NetTransfer). Agrees p.1) (save_config json n can_write)
  unfolding save_config
  save_config-Agrees n false a = a
  save_config-Agrees n true a =
      let conf =
        json.set_number (json.set_text json.empty device_name_key n.config.device_name) tcp_port_key
          n.config.tcp_port in
      elim (Option-cases (json.dump conf)) [
        | inl wrong ↦ rw (wrong, save_config) (SameParts-Agrees a (refl, refl, refl))
        | inr (text, printed) ↦ rw (printed, save_config) (SameParts-Agrees a (refl, refl, refl))
      ]

  publish-Agrees :
      (around : Surroundings) (n : NetTransfer) (d : DiscoveryService) (r : TransferReceiver)
      → d.device_name ≡ n.config.device_name
      → Succeeds Agrees (publish json around n d r)
  unfolding publish with_parts Discovery.set_tcp_port
  publish-Agrees around n d r named =
      let d' : DiscoveryService = Discovery.set_tcp_port d r.listen_port in
      let config : Config = record {
        device_name = n.config.device_name;
        tcp_port = r.listen_port;
      } in
      let n' : NetTransfer = record n { discovery = some d'; receiver = some r; config = config } in
      launch-Agrees _ (
        save_config-Agrees n' around.can_write (record {
          discovery = d';
          receiver = r;
          has_discovery = refl;
          has_receiver = refl;
          announced_port = refl;
          saved_port = refl;
          announced_name = named;
        }))

  start_parts-Agrees :
      (around : Surroundings) (n : NetTransfer) (d : DiscoveryService) (r : TransferReceiver)
      → d.device_name ≡ n.config.device_name
      → Succeeds Agrees (start_parts json around n d r).0
  unfolding start_parts Discovery.start
  start_parts-Agrees around n d r named = elim (Bool-cases (around.opened && around.bound)) [
    | inr silent ↦ rw (silent, start_parts) tt
    | inl heard ↦ elim (Bool-cases (Receiver.start around.free r).0) [
      | inr taken ↦ rw (heard, taken, start_parts) tt
      | inl found ↦ rw (heard, found, start_parts) (publish-Agrees around n _ _ named)
    ]
  ]

  start-Succeeds :
      (around : Surroundings) (n : NetTransfer) → Succeeds Agrees (start json around n).0
  unfolding start Discovery.create
  start-Succeeds around n = elim (Bool-cases around.tls_ok) [
    | inr failing ↦ rw (failing, start) tt
    | inl fine ↦ rw (fine, start) (start_parts-Agrees around (default_config n) _ _ refl)
  ]

  start-Agrees :
      (around : Surroundings) (n m : NetTransfer)
      → (start json around n).0 ≡ returned (true, m)
      → Agrees m
  start-Agrees around n m started = let a = start-Succeeds around n in rw started at a

  -- From a start that succeeds on: in whatever order datagrams, timers, connections, offers, answers, and the
  -- calls to send, rename, trust, ignore and stop come, the discovery service announces the port of the
  -- receiver, which is that of the configuration, and the name of the configuration.
  pub start-Run :
      (hash : Hash) (paths : Paths) (around : Surroundings) {may : Actor → Type 0} (n : NetTransfer)
      {m k : NetTransfer}
      → (start json around n).0 ≡ returned (true, m)
      → Run json hash paths may m k
      → (d : DiscoveryService) × (r : TransferReceiver) × (k.discovery ≡ some d)
        × (k.receiver ≡ some r)
        × (d.tcp_port ≡ r.listen_port)
        × (k.config.tcp_port ≡ r.listen_port)
        × (d.device_name ≡ k.config.device_name)
  start-Run hash paths around n {m} started run =
      let a = Run-Agrees json hash paths (start-Agrees around n m started) run in
      (
        a.discovery, a.receiver, a.has_discovery, a.has_receiver, a.announced_port, a.saved_port,
        a.announced_name,
      )
