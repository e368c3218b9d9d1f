-- ===== src/Gui/History.antt =====
-- The window and the service over any run.
use net_transfer.Base.{ℕ, ◌≡◌, refl, List, [], ◌∷◌, ◌++◌}
use net_transfer.Discovery.{DiscoveryService, Event, device_found, device_left, sent, on_timer}
use net_transfer.Discovery.Invariant.{IsValid}
use net_transfer.Discovery.Reported.{Listed, Reported, Reported-split}
use net_transfer.Discovery.Reached.{Reached, initial, heard, fired, Reached-IsValid, Reached-Listed}
use net_transfer.Gui.{MainWindow, discovery_signals, deliver, on_device_found, on_device_left}
use net_transfer.Gui.Follows.{after, Shows, on_receive-Follows}
use net_transfer.Gui.Labels.{IsShowable, Distinct-labels}
use net_transfer.Gui.Sweep.{on_timer-Shows}

module _ (text : List ℕ → List ℕ) (percent : ℕ → ℕ → ℕ) where
  after-append :
      (w : MainWindow) (es es' : List Event)
      → after text percent w (es ++ es') ≡ after text percent (after text percent w es) es'
  unfolding deliver discovery_signals
  after-append w [] es' = refl
  after-append w (device_found d ∷ es) es' =
      after-append (on_device_found w (text d.name) (text d.ip)) es es'
  after-append w (device_left d ∷ es) es' =
      after-append (on_device_left w (text d.name) (text d.ip)) es es'
  after-append w (sent message address ∷ es) es' = after-append w es es'

  -- Start with a service whose list has no duplicates and not its own name, and a window that shows the
  -- list. After any number of datagrams and timers, in any order, whose handlers all end by listening
  -- again, the window shows the list of the service, once the signals have arrived: if `text` keeps
  -- apart the names that are text, and each device, of those listed at first and those reported
  -- since, has a name that is text and an address without a space.
  pub Reached-Shows :
      (IsText : List ℕ → Type 0)
      (text_injective : (xs ys : List ℕ) → IsText xs → IsText ys → text xs ≡ text ys → xs ≡ ys)
      (w : MainWindow) {s₀ s : DiscoveryService} {es : List Event}
      → IsValid s₀
      → Listed (IsShowable text IsText) s₀.discovered_devices
      → Shows text percent w s₀
      → Reached s₀ s es
      → Reported (IsShowable text IsText) es
      → Shows text percent (after text percent w es) s
  unfolding deliver discovery_signals
  Reached-Shows IsText text_injective w v h shown initial k = shown
  Reached-Shows IsText text_injective w v h shown (heard {s} {s'} {es} {es'} now send_ok c r e) k =
      let P = IsShowable text IsText in
      let before =
        Reached-Shows IsText text_injective w v h shown r (Reported-split P es es' k).0 in
      let follows =
        on_receive-Follows text percent (after text percent w es) s now send_ok c before in
      rw (after-append w es es') (rw e at follows)
  Reached-Shows IsText text_injective w v h shown (fired {s} {es} now send_ok error r) k =
      let P = IsShowable text IsText in
      let front = (Reported-split P es _ k).0 in
      let before = Reached-Shows IsText text_injective w v h shown r front in
      let apart =
        Distinct-labels text percent IsText text_injective s.discovered_devices
          (Reached-Listed P h r front) (Reached-IsValid v r).distinct in
      rw (after-append w es (on_timer s now send_ok error).1)
        (on_timer-Shows text percent (after text percent w es) s now send_ok error apart before)
