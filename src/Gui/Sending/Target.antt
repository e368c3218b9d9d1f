-- ===== src/Gui/Sending/Target.antt =====
-- Which device a file is sent to.
use net_transfer.Base.{
  ℕ, zero, suc, ◌≡◌, refl, ap, ◌∙◌, Bool, true, false, List, [], ◌∷◌, ◌++◌, Option, none, some,
  same, same_refl, get_elem?,
}
use net_transfer.Discovery.{DiscoveryService}
use net_transfer.Discovery
use net_transfer.Discovery.Devices.{DiscoveredDevice}
use net_transfer.Discovery.Invariant.{Absent, Distinct}
use net_transfer.App.{NetTransfer, returned, undefined}
use net_transfer.App.Run.{Surroundings, get_devices, send_file, stop}
use net_transfer.App.Format.{Json}
use net_transfer.Gui.{MainWindow, label, sending_to, sending}
use net_transfer.Gui.Follows.{labels, Shows}
use net_transfer.Gui.Sending.{
  match_device, send_to, send_matching, on_send_file, quit, first_run, close_event,
}

get_devices-some :
    (n : NetTransfer) (s : DiscoveryService)
    → n.discovery ≡ some s
    → get_devices n ≡ returned s.discovered_devices
unfolding get_devices Discovery.get_devices
get_devices-some n s there = rw there refl

module _ (text bytes : List ℕ → List ℕ) (percent : ℕ → ℕ → ℕ) where
  Absent-get_elem? :
      (t : List ℕ) (ds : List DiscoveredDevice) (i : ℕ) (d : DiscoveredDevice)
      → Absent t (labels text percent ds)
      → get_elem? ds i ≡ some d
      → same (label text d) t ≡ false
  Absent-get_elem? t [] i d a e = cc
  Absent-get_elem? t (x ∷ ds) zero d a e = let x_d : x ≡ d = cc in rw (← x_d) (a.0)
  Absent-get_elem? t (x ∷ ds) (suc i) d a e = Absent-get_elem? t ds i d a.1 e

  match_device-get_elem? :
      (ds : List DiscoveredDevice) (i : ℕ) (d : DiscoveredDevice)
      → Distinct (labels text percent ds)
      → get_elem? ds i ≡ some d
      → match_device text bytes (label text d) ds ≡ some d
  unfolding match_device
  match_device-get_elem? [] i d h e = cc
  match_device-get_elem? (x ∷ ds) zero d h e =
      let x_d : x ≡ d = cc in rw (← x_d, same_refl (label text x)) refl
  match_device-get_elem? (x ∷ ds) (suc i) d h e =
      rw (Absent-get_elem? (label text x) ds i d h.0 e) (match_device-get_elem? ds i d h.1 e)

  labels-get_elem? :
      (ds : List DiscoveredDevice) (i : ℕ) (d : DiscoveredDevice)
      → get_elem? ds i ≡ some d
      → get_elem? (labels text percent ds) i ≡ some (label text d)
  labels-get_elem? [] i d e = cc
  labels-get_elem? (x ∷ ds) zero d e = let x_d : x ≡ d = cc in rw x_d refl
  labels-get_elem? (x ∷ ds) (suc i) d e = labels-get_elem? ds i d e

  -- If the window shows the devices of the running service, no two of them with one label, then a file
  -- that the user picks while row `i` is the current one goes to the service's device number `i`: a
  -- sender is made for its address and port, with the file's path, and the window says so.
  pub on_send_file-get_elem? :
      (w : MainWindow) (n : NetTransfer) (s : DiscoveryService) (c : ℕ) (cs : List ℕ) (i : ℕ)
      (d : DiscoveredDevice)
      → n.discovery ≡ some s
      → Shows text percent w s
      → Distinct (labels text percent s.discovered_devices)
      → get_elem? s.discovered_devices i ≡ some d
      → on_send_file text bytes w n (c ∷ cs) (get_elem? w.device_list i) ≡ (
        record w {
          log = (w.log ++ sending_to (label text d) ∷ []) ++ sending (c ∷ cs) (text d.name) ∷ [];
          progress_shown = true;
          progress_value = 0;
        },
        returned (record n {
          active_sender = some (record {
            target_ip = d.ip;
            target_port = d.tcp_port;
            file_path = bytes (c ∷ cs);
            device_name = n.config.device_name;
          });
        }),
      )
  unfolding on_send_file send_matching send_to send_file
  on_send_file-get_elem? w n s c cs i d there v distinct e =
      let row : get_elem? w.device_list i ≡ some (label text d) =
        ap (λ items. get_elem? items i) v ∙ labels-get_elem? s.discovered_devices i d e in
      let hit = match_device-get_elem? s.discovered_devices i d distinct e in
      rw (row, on_send_file) (rw (get_devices-some n s there, hit, send_matching) refl)

-- A user who cancels the dialog of the first run has a window, since quitting has no effect before the
-- application runs, but nothing has been started: closing that window, or sending a file from it,
-- dereferences a null pointer.
first_run_cancelled :
    (json : Json) (text trimmed bytes : List ℕ → List ℕ) (around : Surroundings) (w : MainWindow)
    (n : NetTransfer) (answers : List (Option (List ℕ))) (c : ℕ) (cs t : List ℕ)
    (udp_closed tcp_closed : Bool)
    → n.discovery ≡ none
    → n.config.device_name ≡ []
    → (first_run json trimmed bytes around (none ∷ answers) n ≡ quit n)
      × (close_event n udp_closed tcp_closed ≡ undefined)
      × ((on_send_file text bytes w n (c ∷ cs) (some t)).1 ≡ undefined)
unfolding first_run close_event stop on_send_file send_matching get_devices
first_run_cancelled json text trimmed bytes around w n answers c cs t udp_closed tcp_closed nothing
      unnamed =
    (rw unnamed refl, rw nothing refl, rw nothing refl)
