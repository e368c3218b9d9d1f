-- ===== src/Gui/Tests.antt =====
-- A window that shows a desk with a phone and a tablet.
use net_transfer.Base.{
  ℕ, ◌*◌, ◌/◌, ◌≡◌, refl, arith, true, false, List, [], ◌∷◌, ◌++◌, some, same, length, drop,
}
use net_transfer.Discovery.{
  Event, listening, device_found, sent, check_expired_devices, send_broadcast, DiscoveryService,
  received, on_receive, on_timer, announcement,
}
use net_transfer.Discovery.Devices.{DiscoveredDevice, touch, expire, expire_loop, erase_at}
use net_transfer.Discovery.Invariant.{Distinct, IsValid}
use net_transfer.Discovery.Heard.{entry, on_receive-new_broadcast}
use net_transfer.Discovery.Reported.{Reported}
use net_transfer.Discovery.Reached.{initial, heard, fired}
use net_transfer.Gui.Labels.{IsShowable}
use net_transfer.Gui.History.{Reached-Shows}
use net_transfer.Protocol.{discovery_broadcast, discovery_reply}
use net_transfer.App.{NetTransfer, returned}
use net_transfer.App.Tests.{entries}
use net_transfer.App.Tests
use net_transfer.Gui.{MainWindow, item_text, sending_to, sending}
use net_transfer.Gui.Follows.{labels, after, Shows}
use net_transfer.Gui.Sending.{on_send_file}
use net_transfer.Gui.Sending.Target.{on_send_file-get_elem?}

abbrev text : List ℕ → List ℕ
text t = t

abbrev percent : ℕ → ℕ → ℕ
percent done total = done * 100 / total

abbrev phone : DiscoveredDevice
phone = record { name = 0x70 ∷ []; ip = 0x33 ∷ []; tcp_port = 50001; last_seen = 1000000000 }

abbrev tablet : DiscoveredDevice
tablet = record { name = 0x74 ∷ []; ip = 0x34 ∷ []; tcp_port = 50002; last_seen = 19000000000 }

abbrev desk : DiscoveryService
desk = record {
  device_name = 0x64 ∷ [];
  tcp_port = 50000;
  discovered_devices = phone ∷ tablet ∷ [];
  buffer_incoming = [];
  local_address = 0x31 ∷ [];
  is_open = true;
  is_waiting = true;
}

abbrev laptop : DiscoveryService
laptop = record desk { device_name = 0x6C ∷ []; discovered_devices = []; local_address = 0x32 ∷ [] }

abbrev window : MainWindow
window = record {
  device_list = item_text (0x70 ∷ []) (0x33 ∷ []) ∷ item_text (0x74 ∷ []) (0x34 ∷ []) ∷ [];
  log = [];
  progress_shown = false;
  progress_value = 0;
}

labels-Distinct : Distinct (labels text percent (phone ∷ tablet ∷ []))
unfolding same
labels-Distinct = ((refl, tt), (tt, tt))

abbrev running : NetTransfer
running = record Tests.desk { discovery = some desk; is_running = true }

on_send_file-get_elem?_example :
    on_send_file text text window running (0x66 ∷ []) (some (item_text (0x74 ∷ []) (0x34 ∷ []))) ≡ (
      record window {
        log = sending_to (item_text (0x74 ∷ []) (0x34 ∷ [])) ∷ sending (0x66 ∷ []) (0x74 ∷ []) ∷ [];
        progress_shown = true;
      },
      returned (record running {
        active_sender = some (record {
          target_ip = 0x34 ∷ [];
          target_port = 50002;
          file_path = 0x66 ∷ [];
          device_name = 0x64 ∷ [];
        });
      }),
    )
on_send_file-get_elem?_example =
    on_send_file-get_elem? text text percent window running desk 0x66 [] 1 tablet refl refl
      labels-Distinct refl

-- The desk hears the laptop, and the phone is no longer heard.
abbrev wiser : DiscoveryService
wiser = record desk {
  discovered_devices = desk.discovered_devices ++ entry laptop (0x32 ∷ []) 5 ∷ [];
  buffer_incoming =
      announcement discovery_broadcast laptop
      ++ drop (length (announcement discovery_broadcast laptop)) [];
}

abbrev found_laptop : List Event
found_laptop =
    device_found (entry laptop (0x32 ∷ []) 5)
    ∷ sent (announcement discovery_reply wiser) (0x32 ∷ [])
    ∷ []

abbrev phone_left : List Event
phone_left = (on_timer wiser 20000000000 true false).1

laptop_heard :
    on_receive desk 5 true (received (0x32 ∷ []) (announcement discovery_broadcast laptop))
    ≡ listening wiser found_laptop
laptop_heard =
    on_receive-new_broadcast desk laptop (0x32 ∷ []) 5
      (record { name_fits = omega arith; port_fits = omega arith }) (unfold same in refl)
      (unfold same in refl) (unfold touch same in refl)

desk-IsValid : IsValid desk
unfolding same
desk-IsValid = record { distinct = ((refl, tt), (tt, tt)); own_absent = (refl, (refl, tt)) }

phone_left-Reported : Reported (IsShowable text (λ name. Unit {0})) (found_laptop ++ phone_left)
unfolding on_timer check_expired_devices expire expire_loop erase_at send_broadcast
phone_left-Reported = ((tt, refl), tt)

Reached-Shows_example :
    Shows text percent
      (after text percent window (found_laptop ++ phone_left))
      (on_timer wiser 20000000000 true false).0
Reached-Shows_example =
    Reached-Shows text percent (λ name. Unit {0}) (λ xs ys hx hy e. e) window desk-IsValid
      ((tt, refl), ((tt, refl), tt)) refl
      (fired 20000000000 true false (
        heard 5 true (received (0x32 ∷ []) (announcement discovery_broadcast laptop)) initial
          laptop_heard))
      phone_left-Reported
