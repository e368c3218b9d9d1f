-- ===== src/Discovery/Reported.antt =====
-- DiscoveryService: what is listed was reported.
use net_transfer.Base.{
  ℕ, arith, Bool, true, false, List, [], ◌∷◌, ◌++◌, Option, none, some, same, All, All-append,
  Bool-cases, Option-cases, inl, inr, drop,
}
use net_transfer.Protocol.{
  BaseHeader, DiscoveryPayload, MessageType, discovery_broadcast, discovery_reply, header_size,
}
use net_transfer.Protocol.Header.{deserialize_header}
use net_transfer.Protocol.Reader.{Outcome, ok, refused, fault}
use net_transfer.Protocol.Payload.{deserialize_discovery}
use net_transfer.Discovery.{
  DiscoveryService, Event, device_found, device_left, sent, Handled, listening, thrown, undefined,
  Completion, failed, received, learn, reply, on_broadcast, on_reply, dispatch, on_header,
  on_receive, check_expired_devices, on_timer, fill,
}
use net_transfer.Discovery.Devices.{DiscoveredDevice, touch, kept, expire_lem}

module _ (P : List ℕ → List ℕ → Type 0) where
  -- The names and addresses in a list have a property.
  abbrev pub Listed : List DiscoveredDevice → Type 0
  Listed ds = All (λ d. P d.name d.ip) ds

  -- Those of all devices that events report as found have it.
  abbrev pub Reported : List Event → Type 0
  Reported [] = Unit {0}
  Reported (device_found d ∷ es) = P d.name d.ip × Reported es
  Reported (device_left d ∷ es) = Reported es
  Reported (sent message address ∷ es) = Reported es

  -- What a handler leaves in the list has it, if what it has reported has.
  abbrev pub Covered : Handled → Type 0
  Covered (listening s es) = Reported es → Listed s.discovered_devices
  Covered (thrown s es) = Reported es → Listed s.discovered_devices
  Covered undefined = Unit {0}

  pub Reported-split : (es es' : List Event) → Reported (es ++ es') → Reported es × Reported es'
  Reported-split [] es' h = (tt, h)
  Reported-split (device_found d ∷ es) es' h =
      let (front, back) = Reported-split es es' h.1 in ((h.0, front), back)
  Reported-split (device_left d ∷ es) es' h = Reported-split es es' h
  Reported-split (sent message address ∷ es) es' h = Reported-split es es' h

  abbrev Renewed : Option (List DiscoveredDevice) → Type 0
  Renewed none = Unit {0}
  Renewed (some ds) = Listed ds

  touch-Renewed :
      (name : List ℕ) (now : ℕ) (ds : List DiscoveredDevice)
      → Listed ds
      → Renewed (touch name now ds)
  unfolding touch
  touch-Renewed name now [] h = tt
  touch-Renewed name now (d ∷ ds) h = ground (arith, touch-Renewed name now ds h.1)

  learn-Covered :
      (s : DiscoveryService) (dp : DiscoveryPayload) (sender : List ℕ) (now : ℕ)
      → Listed s.discovered_devices
      → Reported (learn s dp sender now).1
      → Listed (learn s dp sender now).0.discovered_devices
  unfolding learn
  learn-Covered s dp sender now h =
      let t = touch-Renewed dp.device_name now s.discovered_devices h in
      elim (Option-cases (touch dp.device_name now s.discovered_devices)) [
        | inl miss ↦
            rw (miss, learn)
              (λ r. All-append (λ d. P d.name d.ip) s.discovered_devices _ h (r.0, tt))
        | inr (ds, hit) ↦ let renewed : Listed ds = rw hit at t in rw (hit, learn) (λ r. renewed)
      ]

  reply-Covered :
      (sender : List ℕ) (send_ok : Bool) (r : DiscoveryService × List Event)
      → (Reported r.1 → Listed r.0.discovered_devices)
      → Covered (reply sender send_ok r)
  unfolding reply
  reply-Covered sender true (s, es) h = λ r. h (Reported-split es _ r).0
  reply-Covered sender false (s, es) h = h

  on_broadcast-Covered :
      (s : DiscoveryService) (sender : List ℕ) (now : ℕ) (send_ok : Bool)
      (r : Outcome DiscoveryPayload)
      → Listed s.discovered_devices
      → Covered (on_broadcast s sender now send_ok r)
  unfolding on_broadcast
  on_broadcast-Covered s sender now send_ok refused h = λ r. h
  on_broadcast-Covered s sender now send_ok fault h = tt
  on_broadcast-Covered s sender now send_ok (ok dp) h =
      elim (Bool-cases (same dp.device_name s.device_name)) [
        | inl own ↦ rw (own, on_broadcast) (λ r. h)
        | inr other ↦
            rw (other, on_broadcast)
              (reply-Covered sender send_ok (learn s dp sender now)
                (learn-Covered s dp sender now h))
      ]

  on_reply-Covered :
      (s : DiscoveryService) (sender : List ℕ) (now : ℕ) (r : Outcome DiscoveryPayload)
      → Listed s.discovered_devices
      → Covered (on_reply s sender now r)
  unfolding on_reply
  on_reply-Covered s sender now refused h = λ r. h
  on_reply-Covered s sender now fault h = tt
  on_reply-Covered s sender now (ok dp) h = elim (Bool-cases (same dp.device_name s.device_name)) [
    | inl own ↦ rw (own, on_reply) (λ r. h)
    | inr other ↦ rw (other, on_reply) (learn-Covered s dp sender now h)
  ]

  dispatch-Covered :
      (s : DiscoveryService) (sender : List ℕ) (now : ℕ) (send_ok : Bool) (len : ℕ)
      (t : MessageType)
      → Listed s.discovered_devices
      → Covered (dispatch s sender now send_ok len t)
  unfolding dispatch
  dispatch-Covered s sender now send_ok len discovery_broadcast h =
      on_broadcast-Covered s sender now send_ok
        (deserialize_discovery (drop header_size s.buffer_incoming) len) h
  dispatch-Covered s sender now send_ok len discovery_reply h =
      on_reply-Covered s sender now (deserialize_discovery (drop header_size s.buffer_incoming) len)
        h
  dispatch-Covered s sender now send_ok len _ h = λ r. h

  on_header-Covered :
      (s : DiscoveryService) (sender : List ℕ) (now : ℕ) (send_ok : Bool) (r : Outcome BaseHeader)
      → Listed s.discovered_devices
      → Covered (on_header s sender now send_ok r)
  unfolding on_header
  on_header-Covered s sender now send_ok refused h = λ r. h
  on_header-Covered s sender now send_ok fault h = tt
  on_header-Covered s sender now send_ok (ok base) h =
      dispatch-Covered s sender now send_ok base.payload_len base.msg_type h

  pub on_receive-Covered :
      (s : DiscoveryService) (now : ℕ) (send_ok : Bool) (c : Completion)
      → Listed s.discovered_devices
      → Covered (on_receive s now send_ok c)
  unfolding on_receive
  on_receive-Covered s now send_ok failed h = λ r. h
  on_receive-Covered s now send_ok (received sender datagram) h =
      let s' = record s { buffer_incoming = fill s.buffer_incoming datagram } in
      elim (Bool-cases (same sender s.local_address)) [
        | inl own ↦ rw (own, on_receive) (λ r. h)
        | inr other ↦
            rw (other, on_receive)
              (on_header-Covered s' sender now send_ok (deserialize_header s'.buffer_incoming) h)
      ]

  kept-Listed : (now : ℕ) (ds : List DiscoveredDevice) → Listed ds → Listed (kept now ds)
  kept-Listed now [] h = tt
  kept-Listed now (d ∷ ds) h = ground (arith, kept-Listed now ds h.1)

  pub on_timer-Listed :
      (s : DiscoveryService) (now : ℕ) (send_ok error : Bool)
      → Listed s.discovered_devices
      → Listed (on_timer s now send_ok error).0.discovered_devices
  unfolding on_timer check_expired_devices
  on_timer-Listed s now send_ok true h = h
  on_timer-Listed s now send_ok false h =
      rw (expire_lem now s.discovered_devices) (kept-Listed now s.discovered_devices h)
