-- ===== src/Discovery/Tests.antt =====
-- The theorems on discovery at concrete services.
use net_transfer.Base.{
  ◌≡◌, refl, arith, true, false, [], ◌∷◌, ◌++◌, none, same, length, drop, replicate, map, All,
}
use net_transfer.Protocol.{discovery_broadcast, discovery_reply}
use net_transfer.Discovery.{
  DiscoveryService, listening, received, device_found, sent, announcement, on_receive, device_left,
  send_broadcast, on_timer, buffer_max_size,
}
use net_transfer.Discovery.Devices.{DiscoveredDevice, touch, expire, kept, gone, expire_lem}
use net_transfer.Discovery.Invariant.{IsValid, After, on_receive-IsValid}
use net_transfer.Discovery.Heard.{IsHearable, entry}
use net_transfer.Discovery.Introduced.{on_receive-introduces}
use net_transfer.Discovery.Stale.{renewed, on_receive-known}
use net_transfer.Discovery.Silent.{IsFresh, IsSilent, on_timer-IsFresh}

abbrev phone : DiscoveredDevice
phone = record { name = 0x70 ∷ 0x68 ∷ []; ip = 0x33 ∷ []; tcp_port = 50001; last_seen = 1000000000 }

abbrev tablet : DiscoveredDevice
tablet = record {
  name = 0x74 ∷ 0x61 ∷ [];
  ip = 0x34 ∷ [];
  tcp_port = 50002;
  last_seen = 19000000000;
}

-- A service that knows the two devices.
abbrev desk : DiscoveryService
desk = record {
  device_name = 0x64 ∷ 0x6B ∷ [];
  tcp_port = 50000;
  discovered_devices = phone ∷ tablet ∷ [];
  buffer_incoming = replicate buffer_max_size 0;
  local_address = 0x31 ∷ [];
  is_open = true;
  is_waiting = true;
}

abbrev laptop : DiscoveryService
laptop = record {
  device_name = 0x6C ∷ 0x74 ∷ [];
  tcp_port = 50003;
  discovered_devices = [];
  buffer_incoming = [];
  local_address = 0x32 ∷ [];
  is_open = true;
  is_waiting = true;
}

expire_lem_example :
    expire 20000000000 (phone ∷ tablet ∷ [])
    ≡ (kept 20000000000 (phone ∷ tablet ∷ []), gone 20000000000 (phone ∷ tablet ∷ []))
expire_lem_example = expire_lem 20000000000 (phone ∷ tablet ∷ [])

desk-IsValid : IsValid desk
unfolding same
desk-IsValid = record { distinct = ((refl, tt), (tt, tt)); own_absent = (refl, (refl, tt)) }

on_receive-IsValid_example :
    After IsValid
      (on_receive desk 5 true (received (0x32 ∷ []) (announcement discovery_broadcast laptop)))
on_receive-IsValid_example =
    on_receive-IsValid desk 5 true (received (0x32 ∷ []) (announcement discovery_broadcast laptop))
      desk-IsValid

laptop-IsHearable : IsHearable laptop
laptop-IsHearable = record { name_fits = omega arith; port_fits = omega arith }

desk-IsHearable : IsHearable desk
desk-IsHearable = record { name_fits = omega arith; port_fits = omega arith }

laptop_is_new : touch laptop.device_name 5 desk.discovered_devices ≡ none
unfolding touch same
laptop_is_new = refl

-- The desk once it has heard the laptop.
abbrev wiser : DiscoveryService
wiser = record desk {
  discovered_devices = desk.discovered_devices ++ entry laptop (0x32 ∷ []) 5 ∷ [];
  buffer_incoming =
      announcement discovery_broadcast laptop
      ++ drop (length (announcement discovery_broadcast laptop)) desk.buffer_incoming;
}

-- The desk with the laptop's broadcast still in its buffer.
abbrev stale : DiscoveryService
stale = record desk { buffer_incoming = announcement discovery_broadcast laptop ++ 0 ∷ [] }

abbrev misled : DiscoveryService
misled = record stale {
  discovered_devices = desk.discovered_devices ++ entry laptop (0x39 ∷ []) 5 ∷ [];
}

on_receive-introduces_example :
    (on_receive desk 5 true (received (0x32 ∷ []) (announcement discovery_broadcast laptop))
      ≡ listening wiser (
          device_found (entry laptop (0x32 ∷ []) 5)
          ∷ sent (announcement discovery_reply desk) (0x32 ∷ [])
          ∷ []))
    × (on_receive laptop 6 true (received (0x31 ∷ []) (announcement discovery_reply desk))
        ≡ listening
            (record laptop {
              discovered_devices = entry desk (0x31 ∷ []) 6 ∷ [];
              buffer_incoming =
                  announcement discovery_reply desk
                  ++ drop (length (announcement discovery_reply desk)) [];
            })
            (device_found (entry desk (0x31 ∷ []) 6) ∷ []))
on_receive-introduces_example =
    on_receive-introduces laptop desk (0x32 ∷ []) (0x31 ∷ []) 5 6 laptop-IsHearable desk-IsHearable
      (unfold same in refl) (unfold same in refl) (unfold same in refl) (unfold same in refl)
      laptop_is_new (unfold touch in refl)

-- The phone was last seen 19 seconds ago, the tablet a second ago.
on_timer-IsFresh_example :
    (on_timer desk 20000000000 true false ≡ (
      record desk {
        discovered_devices = kept 20000000000 (phone ∷ tablet ∷ []);
        is_waiting = true;
      },
      send_broadcast desk true ++ map device_left (gone 20000000000 (phone ∷ tablet ∷ [])),
    ))
    × All (IsFresh 20000000000) (kept 20000000000 (phone ∷ tablet ∷ []))
    × All (IsSilent 20000000000) (gone 20000000000 (phone ∷ tablet ∷ []))
on_timer-IsFresh_example = on_timer-IsFresh desk 20000000000 true

-- The tablet now has another port and another address.
abbrev moved : DiscoveryService
moved = record laptop { device_name = tablet.name; tcp_port = 50009 }

on_receive-known_example :
    let desk' = renewed desk 5 (phone ∷ []) tablet [] (announcement discovery_broadcast moved) in
    (on_receive desk 5 true (received (0x35 ∷ []) (announcement discovery_broadcast moved))
      ≡ listening desk' (sent (announcement discovery_reply desk') (0x35 ∷ []) ∷ []))
    × (on_receive desk 5 false (received (0x35 ∷ []) (announcement discovery_reply moved))
        ≡ listening (renewed desk 5 (phone ∷ []) tablet [] (announcement discovery_reply moved)) [])
on_receive-known_example =
    on_receive-known desk moved (0x35 ∷ []) 5 false (phone ∷ []) [] tablet
      (record { name_fits = omega arith; port_fits = omega arith }) (unfold same in refl)
      (unfold same in refl) refl (unfold touch same in refl) (unfold same in refl)
