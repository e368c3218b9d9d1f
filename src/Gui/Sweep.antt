-- ===== src/Gui/Sweep.antt =====
-- The window's list when devices leave.
use net_transfer.Base.{
  ℕ, ◌≡◌, refl, ap, ◌∙◌, arith, Bool, true, false, List, [], ◌∷◌, map, same_refl, same_sym,
  Bool-cases, inl, inr,
}
use net_transfer.Discovery.{
  DiscoveryService, device_left, send_broadcast, check_expired_devices, on_timer,
}
use net_transfer.Discovery.Devices.{DiscoveredDevice, kept, gone, is_expired, expire_lem}
use net_transfer.Discovery.Invariant.{Absent, Distinct}
use net_transfer.Gui.{MainWindow, label, discovery_signals, deliver, on_device_left, without}
use net_transfer.Gui.Follows.{labels, after, Shows}

abbrev without_all : List (List ℕ) → List (List ℕ) → List (List ℕ)
without_all [] items = items
without_all (t ∷ ts) items = without_all ts (without t items)

without-Absent : (t : List ℕ) (items : List (List ℕ)) → Absent t items → without t items ≡ items
unfolding without
without-Absent t [] a = refl
without-Absent t (item ∷ items) a = rw (a.0) (ap (λ xs. item ∷ xs) (without-Absent t items a.1))

without_head : (t : List ℕ) (items : List (List ℕ)) → Absent t items → without t (t ∷ items) ≡ items
unfolding without
without_head t items a = rw (same_refl t) (without-Absent t items a)

-- An item that none of the texts is stays at the front.
without_all-other :
    (ts : List (List ℕ)) (item : List ℕ) (items : List (List ℕ))
    → Absent item ts
    → without_all ts (item ∷ items) ≡ item ∷ without_all ts items
unfolding without
without_all-other [] item items a = refl
without_all-other (t ∷ ts) item items a =
    rw (same_sym item t ∙ a.0) (without_all-other ts item (without t items) a.1)

module _ (text : List ℕ → List ℕ) (percent : ℕ → ℕ → ℕ) where
  Absent-gone :
      (t : List ℕ) (now : ℕ) (ds : List DiscoveredDevice)
      → Absent t (labels text percent ds)
      → Absent t (labels text percent (gone now ds))
  Absent-gone t now [] a = tt
  Absent-gone t now (d ∷ ds) a = ground (arith, Absent-gone t now ds a.1)

  without_all-gone :
      (now : ℕ) (ds : List DiscoveredDevice)
      → Distinct (labels text percent ds)
      → without_all (labels text percent (gone now ds)) (labels text percent ds)
        ≡ labels text percent (kept now ds)
  unfolding without
  without_all-gone now [] h = refl
  without_all-gone now (d ∷ ds) h = elim (Bool-cases (is_expired now d)) [
    | inl old ↦ rw old (
        ap (without_all (labels text percent (gone now ds)))
          (without_head (label text d) (labels text percent ds) h.0)
        ∙ without_all-gone now ds h.1)
    | inr fresh ↦ rw fresh (
        without_all-other (labels text percent (gone now ds)) (label text d)
          (labels text percent ds) (Absent-gone (label text d) now ds h.0)
        ∙ ap (λ xs. label text d ∷ xs) (without_all-gone now ds h.1))
  ]

  deliver-left :
      (w : MainWindow) (ds : List DiscoveredDevice)
      → (after text percent w (map device_left ds)).device_list
        ≡ without_all (labels text percent ds) w.device_list
  unfolding deliver discovery_signals on_device_left
  deliver-left w [] = refl
  deliver-left w (d ∷ ds) = deliver-left (on_device_left w (text d.name) (text d.ip)) ds

  -- If the window shows the service's devices, and no two of them have one label, then it shows them
  -- again after the timer has fired, with or without an error, once the signals have arrived: exactly the
  -- devices that left are gone from it.
  pub on_timer-Shows :
      (w : MainWindow) (s : DiscoveryService) (now : ℕ) (send_ok error : Bool)
      → Distinct (labels text percent s.discovered_devices)
      → Shows text percent w s
      → let (s', events) = on_timer s now send_ok error in
        Shows text percent (after text percent w events) s'
  unfolding on_timer check_expired_devices send_broadcast deliver discovery_signals
  on_timer-Shows w s now send_ok true distinct v = v
  on_timer-Shows w s now true false distinct v = rw (expire_lem now s.discovered_devices) (
      deliver-left w (gone now s.discovered_devices)
      ∙ ap (without_all (labels text percent (gone now s.discovered_devices))) v
      ∙ without_all-gone now s.discovered_devices distinct)
  on_timer-Shows w s now false false distinct v = rw (expire_lem now s.discovered_devices) (
      deliver-left w (gone now s.discovered_devices)
      ∙ ap (without_all (labels text percent (gone now s.discovered_devices))) v
      ∙ without_all-gone now s.discovered_devices distinct)
