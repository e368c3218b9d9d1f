-- ===== src/Discovery/Silent.antt =====
-- Devices of src/core/discovery.cpp that are no longer heard.
use net_transfer.Base.{
  ℕ, ◌+◌, ◌≤◌, ◌<◌, ◌≡◌, refl, arith, Bool, true, false, List, [], ◌∷◌, ◌++◌, map, All,
}
use net_transfer.Discovery.{
  DiscoveryService, device_left, send_broadcast, check_expired_devices, on_timer,
}
use net_transfer.Discovery.Devices.{DiscoveredDevice, wait_time, kept, gone, expire_lem}

-- Seen within the last WAIT_TIME seconds.
abbrev pub IsFresh : ℕ → DiscoveredDevice → Type 0
IsFresh now d = now ≤ d.last_seen + wait_time

abbrev pub IsSilent : ℕ → DiscoveredDevice → Type 0
IsSilent now d = d.last_seen + wait_time < now

kept-IsFresh : (now : ℕ) (ds : List DiscoveredDevice) → All (IsFresh now) (kept now ds)
kept-IsFresh now [] = tt
kept-IsFresh now (d ∷ ds) = ground (arith, kept-IsFresh now ds)

gone-IsSilent : (now : ℕ) (ds : List DiscoveredDevice) → All (IsSilent now) (gone now ds)
gone-IsSilent now [] = tt
gone-IsSilent now (d ∷ ds) = ground (arith, gone-IsSilent now ds)

-- Whenever the timer fires with no error, a device is dropped, and reported, exactly if it was not
-- seen for more than 15 seconds: what stays was seen within them, what is reported was not. The
-- broadcast goes out first, and the timer is started again.
pub on_timer-IsFresh :
    (s : DiscoveryService) (now : ℕ) (send_ok : Bool)
    → let devices = s.discovered_devices in
      (on_timer s now send_ok false ≡ (
        record s { discovered_devices = kept now devices; is_waiting = true },
        send_broadcast s send_ok ++ map device_left (gone now devices),
      ))
      × All (IsFresh now) (kept now devices)
      × All (IsSilent now) (gone now devices)
unfolding on_timer check_expired_devices
on_timer-IsFresh s now send_ok = (
  rw (expire_lem now s.discovered_devices) refl,
  kept-IsFresh now s.discovered_devices,
  gone-IsSilent now s.discovered_devices,
)
