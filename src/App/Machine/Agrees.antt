-- ===== src/App/Machine/Agrees.antt =====
-- What the parts of a running NetTransfer know of its port and its name.
use net_transfer.Base.{
  ℕ, ◌≡◌, refl, ap, sym, ◌∙◌, Bool, true, false, List, Option, some, inl, inr, Bool-cases,
}
use net_transfer.Protocol.{OfferPayload}
use net_transfer.Discovery.{DiscoveryService}
use net_transfer.Discovery
use net_transfer.Discovery.Invariant.{After}
use net_transfer.Discovery.Identity.{SameSelf, on_receive-SameSelf, on_timer-SameSelf}
use net_transfer.Transfer.Platform.{Hash, Paths}
use net_transfer.Transfer.Sender.{Completion, failed, done}
use net_transfer.Transfer.Receiver.{TransferReceiver, bind_port}
use net_transfer.Transfer.Receiver
use net_transfer.Transfer.Receiver.Machine.Port.{Step-listen_port, on_offer-listen_port}
use net_transfer.App.{NetTransfer, ignore_pending_trust}
use net_transfer.App.Format.{Json}
use net_transfer.App.Offers.{answered, on_offer}
use net_transfer.App.Run.{send_file, stop, stop_parts}
use net_transfer.App.Machine.{
  Actor, Hears, well, badly, Step, hears, ticks, receives, offers, sends, renames, ignores, trusts,
  stops, Run, here, later,
}
use net_transfer.App.Machine.Parts.{
  AfterCall, Leaves-AfterCall, SameParts, judged-SameParts, trust_device-SameParts, renamed,
  set_device_name-left,
}

-- The discovery service announces the receiver's port and the configured name, and the port is that of the
-- configuration.
pub record Agrees (n : NetTransfer) : Type 0 where
  pub discovery : DiscoveryService
  pub receiver : TransferReceiver
  pub has_discovery : n.discovery ≡ some discovery
  pub has_receiver : n.receiver ≡ some receiver
  pub announced_port : discovery.tcp_port ≡ receiver.listen_port
  pub saved_port : n.config.tcp_port ≡ receiver.listen_port
  pub announced_name : discovery.device_name ≡ n.config.device_name

pub SameParts-Agrees : {m k : NetTransfer} → Agrees m → SameParts m k → Agrees k
SameParts-Agrees a (discovery, receiver, config) = record {
  discovery = a.discovery;
  receiver = a.receiver;
  has_discovery = discovery ∙ a.has_discovery;
  has_receiver = receiver ∙ a.has_receiver;
  announced_port = a.announced_port;
  saved_port = ap (λ c. c.tcp_port) config ∙ a.saved_port;
  announced_name = a.announced_name ∙ sym (ap (λ c. c.device_name) config);
}

-- Another service with the same name and port, and a receiver with the same port.
parts-Agrees :
    {m : NetTransfer} (a : Agrees m) (k : NetTransfer) (d : DiscoveryService) (r : TransferReceiver)
    → k.discovery ≡ some d
    → k.receiver ≡ some r
    → k.config ≡ m.config
    → SameSelf a.discovery d
    → r.listen_port ≡ a.receiver.listen_port
    → Agrees k
parts-Agrees a k d r has_discovery has_receiver config (name, port) listens = record {
  discovery = d;
  receiver = r;
  has_discovery = has_discovery;
  has_receiver = has_receiver;
  announced_port = port ∙ a.announced_port ∙ sym listens;
  saved_port = ap (λ c. c.tcp_port) config ∙ a.saved_port ∙ sym listens;
  announced_name = name ∙ a.announced_name ∙ sym (ap (λ c. c.device_name) config);
}

Hears-After :
    (P : DiscoveryService → Type 0) {h : Discovery.Handled} {d : DiscoveryService}
    → After P h
    → Hears h d
    → P d
Hears-After P p (well d events) = p
Hears-After P p (badly d events) = p

module _ (json : Json) (hash : Hash) (paths : Paths) where
  Hears-Agrees :
      {m : NetTransfer} {d d' : DiscoveryService} (now : ℕ) (send_ok : Bool)
      (c : Discovery.Completion)
      → Agrees m
      → m.discovery ≡ some d
      → Hears (Discovery.on_receive d now send_ok c) d'
      → Agrees (record m { discovery = some d' })
  Hears-Agrees {m} {d} {d'} now send_ok c a e heard =
      let one : a.discovery ≡ d = cc (a.has_discovery, e) in
      let self : SameSelf d d' =
        Hears-After (SameSelf d) (on_receive-SameSelf d now send_ok c) heard in
      parts-Agrees a (record m { discovery = some d' }) d' a.receiver refl a.has_receiver refl
        (rw one self) refl

  ticks-Agrees :
      {m : NetTransfer} {d : DiscoveryService} (now : ℕ) (send_ok error : Bool)
      → Agrees m
      → m.discovery ≡ some d
      → Agrees (record m { discovery = some (Discovery.on_timer d now send_ok error).0 })
  ticks-Agrees {m} {d} now send_ok error a e =
      let one : a.discovery ≡ d = cc (a.has_discovery, e) in
      let d' : DiscoveryService = (Discovery.on_timer d now send_ok error).0 in
      parts-Agrees a (record m { discovery = some d' }) d' a.receiver refl a.has_receiver refl
        (rw one (on_timer-SameSelf d now send_ok error)) refl

  -- A receiver with the same port.
  receiver-Agrees :
      {m k : NetTransfer} {r s : TransferReceiver}
      → Agrees m
      → m.receiver ≡ some r
      → k.receiver ≡ some s
      → k.discovery ≡ m.discovery
      → k.config ≡ m.config
      → s.listen_port ≡ r.listen_port
      → Agrees k
  receiver-Agrees {m} {k} {r} {s} a e has_receiver discovery config listens =
      let one : a.receiver ≡ r = cc (a.has_receiver, e) in
      parts-Agrees a k a.discovery s (discovery ∙ a.has_discovery) has_receiver config (refl, refl)
        (rw one listens)

  offers-Agrees :
      {m : NetTransfer} {r : TransferReceiver} (garbage : OfferPayload) (len : ℕ)
      (digest : Option (List ℕ)) (c : Completion)
      → Agrees m
      → m.receiver ≡ some r
      → Agrees (on_offer json garbage m r digest len c).0
  unfolding on_offer answered
  offers-Agrees {m} {r} garbage len digest failed a e =
      receiver-Agrees a e refl refl refl (on_offer-listen_port _ garbage r len failed)
  offers-Agrees {m} {r} garbage len digest (done bytes) a e =
      let (discovery, _, config) = judged-SameParts json garbage m digest _ _ in
      receiver-Agrees a e refl discovery config (on_offer-listen_port _ garbage r len (done bytes))

  renames-Agrees :
      {m : NetTransfer} (name : List ℕ) (file : Option (List ℕ))
      → Agrees m
      → Agrees (renamed json m name file)
  unfolding Discovery.set_device_name
  renames-Agrees name file a = record {
    discovery = Discovery.set_device_name a.discovery name;
    receiver = a.receiver;
    has_discovery = rw a.has_discovery refl;
    has_receiver = a.has_receiver;
    announced_port = a.announced_port;
    saved_port = a.saved_port;
    announced_name = refl;
  }

  stop_parts-Agrees :
      (m : NetTransfer) (udp_closed tcp_closed : Bool) (a : Agrees m)
      → AfterCall
          (λ (c : Bool × NetTransfer). Agrees c.1)
          (stop_parts m udp_closed tcp_closed a.discovery a.receiver)
  unfolding stop_parts Discovery.stop Receiver.stop
  stop_parts-Agrees m false tcp_closed a = a
  stop_parts-Agrees m true false a =
      parts-Agrees a _ _ a.receiver refl a.has_receiver refl (refl, refl) refl
  stop_parts-Agrees m true true a = elim (Bool-cases m.is_running) [
    | inl running ↦ rw (running, stop_parts) (parts-Agrees a _ _ _ refl refl refl (refl, refl) refl)
    | inr stopped ↦ rw (stopped, stop_parts) (parts-Agrees a _ _ _ refl refl refl (refl, refl) refl)
  ]

  stop-Agrees :
      (m : NetTransfer) (udp_closed tcp_closed : Bool)
      → Agrees m
      → AfterCall (λ (c : Bool × NetTransfer). Agrees c.1) (stop m udp_closed tcp_closed)
  unfolding stop
  stop-Agrees m udp_closed tcp_closed a =
      rw (a.has_discovery, a.has_receiver, stop) (stop_parts-Agrees m udp_closed tcp_closed a)

  Step-Agrees :
      {m k : NetTransfer} {actor : Actor} → Agrees m → Step json hash paths m actor k → Agrees k
  unfolding send_file ignore_pending_trust
  Step-Agrees a (hears d d' now send_ok c e heard) = Hears-Agrees now send_ok c a e heard
  Step-Agrees a (ticks d now send_ok error e) = ticks-Agrees now send_ok error a e
  Step-Agrees a (receives r s mover notices e silent step) =
      receiver-Agrees a e refl refl refl (Step-listen_port hash paths step)
  Step-Agrees a (offers r garbage len digest c e reading) = offers-Agrees garbage len digest c a e
  Step-Agrees a (sends target path) = SameParts-Agrees a (refl, refl, refl)
  Step-Agrees {m} a (renames name can_write fine n' left) =
      let (file, e) = set_device_name-left json m n' name can_write fine left in
      rw e (renames-Agrees name file a)
  Step-Agrees a ignores = SameParts-Agrees a (refl, refl, refl)
  Step-Agrees {m} a (trusts can_write n' left) =
      SameParts-Agrees a
        (Leaves-AfterCall (SameParts m) (trust_device-SameParts json m can_write) left)
  Step-Agrees {m} a (stops udp_closed tcp_closed fine n' left) =
      Leaves-AfterCall (λ (c : Bool × NetTransfer). Agrees c.1)
        (stop-Agrees m udp_closed tcp_closed a) left

  pub Run-Agrees :
      {may : Actor → Type 0} {m k : NetTransfer} → Agrees m → Run json hash paths may m k → Agrees k
  Run-Agrees a here = a
  Run-Agrees a (later run may step) = Step-Agrees (Run-Agrees a run) step
