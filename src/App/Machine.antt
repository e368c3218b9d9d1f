-- ===== src/App/Machine.antt =====
-- A NetTransfer of src/core/NetTransfer.cpp as a machine: its parts, the peers and the user take steps, one
-- at a time and in any order. What the surroundings choose is free in each step.
pub mod Parts
pub mod Untouched
pub mod Unknown
pub mod Agrees
pub mod Started
mod Tests
use net_transfer.Base.{ℕ, ◌≡◌, ◌≢◌, Bool, List, Option, some}
use net_transfer.Protocol.{OfferPayload}
use net_transfer.Discovery.{DiscoveryService, listening, thrown, on_receive, on_timer}
use net_transfer.Discovery
use net_transfer.Discovery.Devices.{DiscoveredDevice}
use net_transfer.Transfer.Platform.{Hash, Paths}
use net_transfer.Transfer.Sender.{Completion}
use net_transfer.Transfer.Receiver.{TransferReceiver, Notice, reading_offer}
use net_transfer.Transfer.Receiver.Machine.{Mover}
use net_transfer.Transfer.Receiver.Machine
use net_transfer.App.{
  NetTransfer, Call, returned, set_device_name, ignore_pending_trust, trust_device,
}
use net_transfer.App
use net_transfer.App.Run.{send_file, stop}
use net_transfer.App.Offers.{on_offer}
use net_transfer.App.Format.{Json}

-- Who causes a step: a peer that offers a file, by the digest of its certificate (`none` without one), the
-- user who trusts the pending device, or anything else.
pub data Actor : Type 0 where
  peer : Option (List ℕ) → Actor
  trusting other : Actor

-- What an operation leaves behind, whether it returns or throws.
pub data Leaves {A : Type 0} : Call A → A → Type 0 where
  by_return : (a : A) → Leaves (returned a) a
  by_exception : (a : A) → Leaves (App.thrown a) a

pub data Hears : Discovery.Handled → DiscoveryService → Type 0 where
  well : (d : DiscoveryService) (events : List Discovery.Event) → Hears (listening d events) d
  badly : (d : DiscoveryService) (events : List Discovery.Event) → Hears (thrown d events) d

module _ (json : Json) (hash : Hash) (paths : Paths) where
  pub data Step (n : NetTransfer) : Actor → NetTransfer → Type 0 where
    hears :
        (d d' : DiscoveryService) (now : ℕ) (send_ok : Bool) (c : Discovery.Completion)
        → n.discovery ≡ some d
        → Hears (on_receive d now send_ok c) d'
        → Step n other (record n { discovery = some d' })
    ticks :
        (d : DiscoveryService) (now : ℕ) (send_ok failed : Bool)
        → n.discovery ≡ some d
        → Step n other (record n { discovery = some (on_timer d now send_ok failed).0 })
    receives :
        (r r' : TransferReceiver) (mover : Mover) (notices : List Notice)
        → n.receiver ≡ some r
        → ((k : ℕ) → r.pending ≢ reading_offer k)
        → Machine.Step hash paths r mover r' notices
        → Step n other (record n { receiver = some r' })
    offers :
        (r : TransferReceiver) (garbage : OfferPayload) (k : ℕ) (digest : Option (List ℕ))
        (c : Completion)
        → n.receiver ≡ some r
        → r.pending ≡ reading_offer k
        → Step n (peer digest) (on_offer json garbage n r digest k c).0
    sends : (target : DiscoveredDevice) (path : List ℕ) → Step n other (send_file n target path).1
    renames :
        (name : List ℕ) (can_write fine : Bool) (n' : NetTransfer)
        → Leaves (set_device_name json n name can_write) (fine, n')
        → Step n other n'
    ignores : Step n other (ignore_pending_trust n)
    trusts :
        (can_write : Bool) (n' : NetTransfer)
        → Leaves (trust_device json n can_write) n'
        → Step n trusting n'
    stops :
        (udp_closed tcp_closed fine : Bool) (n' : NetTransfer)
        → Leaves (stop n udp_closed tcp_closed) (fine, n')
        → Step n other n'

  -- Any number of steps that are caused by whom `may` allows.
  pub data Run (may : Actor → Type 0) (n : NetTransfer) : NetTransfer → Type 0 where
    here : Run may n n
    later :
        {m k : NetTransfer} {actor : Actor} → Run may n m → may actor → Step m actor k → Run may n k
