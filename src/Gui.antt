-- ===== src/Gui.antt =====
-- src/gui/NetTransferBridge.cpp and src/gui/mainWindow.cpp: the signals that the callbacks become, and
-- the slots of the main window. Qt is not under src/: what the user answers in a dialog, which item of
-- the list is the current one, and the conversions `text` (QString::fromStdString) and `bytes`
-- (toStdString) are arguments. Signals are queued, so that the slots run in the order of the callbacks.
pub mod Follows
pub mod Sweep
pub mod Labels
pub mod History
pub mod Sending
mod Tests
use net_transfer.Base.{
  ℕ, ◌/◌, ◌^◌, Bool, true, false, List, [], ◌∷◌, ◌++◌, same, ltb, if◌then◌else◌,
}
use net_transfer.Protocol.{user_declined}
use net_transfer.Protocol
use net_transfer.Discovery.{device_found, device_left, sent}
use net_transfer.Discovery
use net_transfer.Discovery.Devices.{DiscoveredDevice}
use net_transfer.Transfer.Sender.{wrote, progress, complete}
use net_transfer.Transfer.Sender
use net_transfer.Transfer.Receiver.{Notice}
use net_transfer.Transfer.Receiver
use net_transfer.App.{NetTransfer, Call, returned, trust_device, ignore_pending_trust}
use net_transfer.App
use net_transfer.App.Run
use net_transfer.App.Format.{Json}

pub data Signal : Type 0 where
  found left : List ℕ → List ℕ → ℕ → Signal
  offer_received : List ℕ → ℕ → List ℕ → Signal
  progress_updated : ℕ → ℕ → Signal
  transfer_complete : Bool → List ℕ → Signal
  new_device_pending : List ℕ → List ℕ → Signal

-- What the window writes to its log.
pub data Line : Type 0 where
  located : List ℕ → Line
  transfer_failed no_device_selected could_not_match no_devices : Line
  sending_to : List ℕ → Line
  sending : List ℕ → List ℕ → Line

pub record MainWindow : Type 0 where
  pub device_list : List (List ℕ)
  pub log : List Line
  pub progress_shown : Bool
  pub progress_value : ℕ

-- " - "
abbrev pub dash : List ℕ
dash = 0x20 ∷ 0x2D ∷ 0x20 ∷ []

-- The text of a list item.
abbrev pub item_text : List ℕ → List ℕ → List ℕ
item_text name ip = name ++ (dash ++ ip)

module _ (text : List ℕ → List ℕ) where
  -- The callbacks that NetTransferBridge::start sets.
  unfoldable pub discovery_signals : List Discovery.Event → List Signal
  discovery_signals [] = []
  discovery_signals (device_found d ∷ es) =
      found (text d.name) (text d.ip) d.tcp_port ∷ discovery_signals es
  discovery_signals (device_left d ∷ es) =
      left (text d.name) (text d.ip) d.tcp_port ∷ discovery_signals es
  discovery_signals (sent message address ∷ es) = discovery_signals es

  unfoldable pub sender_signals : List Sender.Event → List Signal
  sender_signals [] = []
  sender_signals (wrote message ∷ es) = sender_signals es
  sender_signals (progress done total ∷ es) = progress_updated done total ∷ sender_signals es
  -- sendFile passes on that it succeeded, but not the path
  sender_signals (complete ok path ∷ es) = transfer_complete ok (text []) ∷ sender_signals es

  unfoldable pub receiver_signals : List Notice → List Signal
  receiver_signals [] = []
  receiver_signals (Receiver.event (wrote message) ∷ ns) = receiver_signals ns
  receiver_signals (Receiver.event (progress done total) ∷ ns) =
      progress_updated done total ∷ receiver_signals ns
  receiver_signals (Receiver.event (complete ok path) ∷ ns) =
      transfer_complete ok (text path) ∷ receiver_signals ns
  receiver_signals (Receiver.offer op ∷ ns) =
      offer_received (text op.file_name) op.file_size (text op.device_name) ∷ receiver_signals ns

  unfoldable pub trust_signals : List App.Event → List Signal
  trust_signals [] = []
  trust_signals (App.new_device fingerprint name ∷ es) =
      new_device_pending (text fingerprint) (text name) ∷ trust_signals es

  abbrev pub label : DiscoveredDevice → List ℕ
  label d = item_text (text d.name) (text d.ip)

unfoldable pub on_device_found : MainWindow → List ℕ → List ℕ → MainWindow
on_device_found w name ip = record w { device_list = w.device_list ++ item_text name ip ∷ [] }

-- findItems with Qt::MatchExactly, and the loop that takes each of them.
unfoldable pub without : List ℕ → List (List ℕ) → List (List ℕ)
without t [] = []
without t (item ∷ items) = let rest = without t items in if same item t then rest else item ∷ rest

unfoldable pub on_device_left : MainWindow → List ℕ → List ℕ → MainWindow
unfolding without
on_device_left w name ip = record w { device_list = without (item_text name ip) w.device_list }

unfoldable pub on_transfer_complete : MainWindow → Bool → List ℕ → MainWindow
on_transfer_complete w ok path = record w {
  progress_shown = false;
  log = w.log ++ (if ok then located path else transfer_failed) ∷ [];
}

-- `percent` stands for the double arithmetic of setValue.
unfoldable pub on_progress : (ℕ → ℕ → ℕ) → MainWindow → ℕ → ℕ → MainWindow
on_progress percent w done total = record w { progress_value = percent done total }

-- The unit of the size in the question about an offer. The floats are exact where they are compared:
-- a quotient by a power of two is above 1 exactly if the number is above that power.
pub data SizeUnit : Type 0 where
  gb mb kb whole_bytes : SizeUnit

unfoldable pub size_unit : ℕ → SizeUnit
size_unit file_size =
    let in_kb = file_size / 1024 in
    if ltb (2 ^ 20) in_kb
    then gb
    else if ltb (2 ^ 10) in_kb
    then mb
    else if ltb 1 in_kb
    then kb
    else whole_bytes

-- onOfferReceived, after the user's answer.
unfoldable pub on_offer_received :
    Bool → MainWindow → NetTransfer → MainWindow × Call (NetTransfer × List Notice)
on_offer_received true w n =
    (record w { progress_value = 0; progress_shown = true }, App.Run.accept n)
on_offer_received false w n = (w, App.Run.reject user_declined n)

-- onNewDevice, after the user's answer.
unfoldable pub on_new_device : Json → Bool → NetTransfer → Bool → Call NetTransfer
on_new_device json true n can_write = trust_device json n can_write
on_new_device json false n can_write = returned (ignore_pending_trust n)

-- The slots of the signals that ask the user nothing.
unfoldable pub deliver : (ℕ → ℕ → ℕ) → MainWindow → List Signal → MainWindow
unfolding on_device_found on_device_left on_transfer_complete on_progress
deliver percent w [] = w
deliver percent w (found name ip port ∷ ss) = deliver percent (on_device_found w name ip) ss
deliver percent w (left name ip port ∷ ss) = deliver percent (on_device_left w name ip) ss
deliver percent w (progress_updated done total ∷ ss) =
    deliver percent (on_progress percent w done total) ss
deliver percent w (transfer_complete ok path ∷ ss) =
    deliver percent (on_transfer_complete w ok path) ss
deliver percent w (offer_received name size sender ∷ ss) = deliver percent w ss
deliver percent w (new_device_pending fingerprint name ∷ ss) = deliver percent w ss
