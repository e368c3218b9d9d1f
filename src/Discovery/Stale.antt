-- ===== src/Discovery/Stale.antt =====
-- What a service learns from a device that it knows already.
use net_transfer.Base.{
  ℕ, ◌≡◌, refl, ap, ◌∙◌, arith, Bool, true, false, List, [], ◌∷◌, ◌++◌, none, some, same, length,
  drop,
}
use net_transfer.Protocol.{discovery_broadcast, discovery_reply, type_of, type_code}
use net_transfer.Protocol.Header.{deserialize_header}
use net_transfer.Discovery.{
  DiscoveryService, listening, received, sent, learn, reply, announcement, on_broadcast, on_reply,
  dispatch, on_header, on_receive,
}
use net_transfer.Discovery.Devices.{DiscoveredDevice, touch}
use net_transfer.Discovery.Heard.{
  IsHearable, announcement_read, fill-announcement, on_receive-remote,
}

touch-middle :
    (name : List ℕ) (now : ℕ) (front back : List DiscoveredDevice) (d : DiscoveredDevice)
    → touch name now front ≡ none
    → same d.name name ≡ true
    → touch name now (front ++ d ∷ back) ≡ some (front ++ record d { last_seen = now } ∷ back)
unfolding touch
touch-middle name now [] back d absent known = rw known refl
touch-middle name now (x ∷ front) back d absent known =
    ground (arith, touch-middle name now front back d)

on_header-known :
    (s a : DiscoveryService) (sender junk : List ℕ) (now : ℕ) (devices : List DiscoveredDevice)
    → IsHearable a
    → same a.device_name s.device_name ≡ false
    → touch a.device_name now s.discovered_devices ≡ some devices
    → let buffer = announcement discovery_broadcast a ++ junk in
      let s' = record s { discovered_devices = devices; buffer_incoming = buffer } in
      on_header (record s { buffer_incoming = buffer }) sender now true (deserialize_header buffer)
      ≡ listening s' (sent (announcement discovery_reply s') sender ∷ [])
unfolding on_header dispatch on_broadcast learn reply
on_header-known s a sender junk now devices h other known =
    let (base, r, t, p) =
      announcement_read discovery_broadcast a junk (unfold type_of type_code in refl) h in
    rw (r, t, p, other, known, on_header, on_broadcast, dispatch, learn) refl

on_header-known_reply :
    (s a : DiscoveryService) (sender junk : List ℕ) (now : ℕ) (send_ok : Bool)
    (devices : List DiscoveredDevice)
    → IsHearable a
    → same a.device_name s.device_name ≡ false
    → touch a.device_name now s.discovered_devices ≡ some devices
    → let buffer = announcement discovery_reply a ++ junk in
      let s' = record s { discovered_devices = devices; buffer_incoming = buffer } in
      on_header
        (record s { buffer_incoming = buffer })
        sender
        now
        send_ok
        (deserialize_header buffer)
      ≡ listening s' []
unfolding on_header dispatch on_reply learn
on_header-known_reply s a sender junk now send_ok devices h other known =
    let (base, r, t, p) =
      announcement_read discovery_reply a junk (unfold type_of type_code in refl) h in
    rw (r, t, p, other, known, on_header, on_reply, dispatch, learn) refl

-- The service after an announcement in its buffer, of a device between `front` and `back`.
abbrev pub renewed :
    DiscoveryService
    → ℕ
    → List DiscoveredDevice
    → DiscoveredDevice
    → List DiscoveredDevice
    → List ℕ
    → DiscoveryService
renewed s now front d back message = record s {
  discovered_devices = front ++ record d { last_seen = now } ∷ back;
  buffer_incoming = message ++ drop (length message) s.buffer_incoming;
}

-- A service keeps the address and the port of a device that it knows by its name: if a broadcast or an
-- answer with that name comes, of at most 486 bytes and not the service's own name, and with any port
-- of 16 bits, from any address that is not the service's own, then only the time at which the device
-- was last seen is renewed. To a broadcast it answers, if sending succeeds, to the new address.
pub on_receive-known :
    (s a : DiscoveryService) (sender : List ℕ) (now : ℕ) (send_ok : Bool)
    (front back : List DiscoveredDevice) (d : DiscoveredDevice)
    → IsHearable a
    → same sender s.local_address ≡ false
    → same a.device_name s.device_name ≡ false
    → s.discovered_devices ≡ front ++ d ∷ back
    → touch a.device_name now front ≡ none
    → same d.name a.device_name ≡ true
    → let asking = announcement discovery_broadcast a in
      let answering = announcement discovery_reply a in
      let s' = renewed s now front d back asking in
      (on_receive s now true (received sender asking)
        ≡ listening s' (sent (announcement discovery_reply s') sender ∷ []))
      × (on_receive s now send_ok (received sender answering)
          ≡ listening (renewed s now front d back answering) [])
on_receive-known s a sender now send_ok front back d h remote other listed first known =
    let asking : List ℕ = announcement discovery_broadcast a in
    let answering : List ℕ = announcement discovery_reply a in
    let found =
      ap (touch a.device_name now) listed
      ∙ touch-middle a.device_name now front back d first known in
    (
      on_receive-remote s sender asking _ now true remote
            (fill-announcement discovery_broadcast a s.buffer_incoming h)
          ∙ on_header-known s a sender (drop (length asking) s.buffer_incoming) now _ h other found,
      on_receive-remote s sender answering _ now send_ok remote
            (fill-announcement discovery_reply a s.buffer_incoming h)
          ∙ on_header-known_reply s a sender (drop (length answering) s.buffer_incoming) now send_ok
              _ h other found,
    )
