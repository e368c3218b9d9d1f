-- ===== src/App/Run/Tests.antt =====
-- A start whose configured port is taken, and what follows it.
use net_transfer.Base.{
  ℕ, ◌≤◌, ◌≡◌, ◌≢◌, refl, ap, arith, true, not, List, [], ◌∷◌, ◌++◌, ◌==◌, none, some, length,
}
use net_transfer.Protocol.{discovery_broadcast}
use net_transfer.Discovery.{DiscoveryService, announcement, sent, broadcast_address}
use net_transfer.Discovery
use net_transfer.Transfer.Receiver.{TransferReceiver, bind_port, idle}
use net_transfer.App.{ignore_pending_trust, returned, default_config, device_name_key, tcp_port_key}
use net_transfer.App.Run.{Surroundings, start, create}
use net_transfer.App.Run.Port.{running, start_publishes, start_announces}
use net_transfer.App.Run.Restart.{remade, start-create}
use net_transfer.App.Machine.{here, later, ignores}
use net_transfer.App.Machine.Started.{start-Run}
use net_transfer.App.Tests.{entries, desk}
use net_transfer.Transfer.Tests.{keep_all, flat_paths}

abbrev pub memory : TransferReceiver
memory = record {
  listen_port = 0;
  pending_offer = record {
    file_size = 0;
    resume_offset = 0;
    sha256 = [];
    file_name = [];
    device_name = [];
  };
  pending_session_id = 0;
  file = none;
  file_path = [];
  file_size = 0;
  bytes_sent = 0;
  disk = λ p. none;
  buffer = [];
  pending = idle;
}

-- All ports are free but 50001, which the desk is configured for.
abbrev pub around : Surroundings
around = record {
  tls_ok = true;
  opened = true;
  bound = true;
  send_ok = true;
  free = λ p. not (p == 50001);
  can_write = true;
  local_address = 0x31 ∷ [];
  memory = memory;
}

abbrev saved : ℕ → List ℕ
saved port =
    1
    ∷ port
    ∷ length tcp_port_key
    ∷ length device_name_key
    ∷ (tcp_port_key ++ (device_name_key ++ 0x64 ∷ []))

start_publishes_example :
    (port : ℕ) × (not (port == 50001) ≡ true)
    × (50001 ≤ port)
    × (port ≤ 50003)
    × ((start entries around desk).0
        ≡ returned (true, running entries around desk (saved port) port))
unfolding default_config
start_publishes_example =
    start_publishes entries around desk 50003 saved refl refl refl refl (λ port. refl) refl
      (omega arith) (omega arith)

start_announces_example :
    (start entries around desk ≡ (
      returned (true, running entries around desk (saved 50002) 50002),
      sent
            (announcement discovery_broadcast (Discovery.create (0x64 ∷ []) 50001 (0x31 ∷ [])))
            broadcast_address
          ∷ [],
    ))
    × ((Discovery.create (0x64 ∷ []) 50001 (0x31 ∷ [])).tcp_port ≢ 50002)
unfolding default_config
start_announces_example =
    start_announces entries around desk (saved 50002) 50002 refl refl refl refl refl
      (unfold bind_port in refl) refl refl

-- The desk runs at 50002, since 50001 is taken, and does so again.
start-create_example :
    ((start entries around desk).0
      ≡ returned (true, running entries around desk (saved 50002) 50002))
    × (create entries 9 (some (saved 50002)) none
        ≡ returned (true, remade entries desk 9 (saved 50002) 50002))
    × ((start entries around (remade entries desk 9 (saved 50002) 50002)).0
        ≡ returned (
          true,
          running entries around (remade entries desk 9 (saved 50002) 50002) (saved 50002) 50002,
        ))
unfolding default_config running
start-create_example =
    start-create entries around around desk 9 (saved 50002) 50002 refl refl refl refl
      (unfold bind_port in refl) refl refl refl refl refl refl

started :
    (start entries around desk).0 ≡ returned (true, running entries around desk (saved 50002) 50002)
unfolding default_config
started =
    ap (λ p. p.0)
      (start_announces entries around desk (saved 50002) 50002 refl refl refl refl refl
        (unfold bind_port in refl) refl refl).0

start-Run_example :
    (d : DiscoveryService) × (r : TransferReceiver) × ((ignore_pending_trust
        (running entries around desk (saved 50002) 50002)).discovery
      ≡ some d)
    × ((ignore_pending_trust (running entries around desk (saved 50002) 50002)).receiver ≡ some r)
    × (d.tcp_port ≡ r.listen_port)
    × ((ignore_pending_trust (running entries around desk (saved 50002) 50002)).config.tcp_port
        ≡ r.listen_port)
    × (d.device_name
        ≡ (ignore_pending_trust
            (running entries around desk (saved 50002) 50002)).config.device_name)
start-Run_example =
    start-Run entries keep_all flat_paths around {may = λ a. Unit} desk started
      (later here tt ignores)
