-- ===== src/Discovery/Identity.antt =====
-- DiscoveryService: its handlers leave its own name and port alone.
use net_transfer.Base.{
  ℕ, ◌≡◌, refl, Bool, true, false, List, same, Bool-cases, Option-cases, inl, inr, drop,
}
use net_transfer.Protocol.{
  BaseHeader, DiscoveryPayload, MessageType, discovery_broadcast, discovery_reply, header_size,
}
use net_transfer.Protocol.Header.{deserialize_header}
use net_transfer.Protocol.Reader.{Outcome, ok, refused, fault}
use net_transfer.Protocol.Payload.{deserialize_discovery}
use net_transfer.Discovery.{
  DiscoveryService, Event, Completion, failed, received, learn, reply, on_broadcast, on_reply,
  dispatch, on_header, on_receive, check_expired_devices, on_timer, fill,
}
use net_transfer.Discovery.Devices.{touch}
use net_transfer.Discovery.Invariant.{After}

-- A service with the name and the port of another.
abbrev pub SameSelf : DiscoveryService → DiscoveryService → Type 0
SameSelf s s' = (s'.device_name ≡ s.device_name) × (s'.tcp_port ≡ s.tcp_port)

learn-SameSelf :
    (s : DiscoveryService) (dp : DiscoveryPayload) (sender : List ℕ) (now : ℕ)
    → SameSelf s (learn s dp sender now).0
unfolding learn
learn-SameSelf s dp sender now =
    elim (Option-cases (touch dp.device_name now s.discovered_devices)) [
      | inl miss ↦ rw (miss, learn) (refl, refl)
      | inr (devices, hit) ↦ rw (hit, learn) (refl, refl)
    ]

reply-SameSelf :
    (s : DiscoveryService) (sender : List ℕ) (send_ok : Bool) (r : DiscoveryService × List Event)
    → SameSelf s r.0
    → After (SameSelf s) (reply sender send_ok r)
unfolding reply
reply-SameSelf s sender true (s', events) h = h
reply-SameSelf s sender false (s', events) h = h

on_broadcast-SameSelf :
    (s : DiscoveryService) (sender : List ℕ) (now : ℕ) (send_ok : Bool)
    (r : Outcome DiscoveryPayload)
    → After (SameSelf s) (on_broadcast s sender now send_ok r)
unfolding on_broadcast
on_broadcast-SameSelf s sender now send_ok refused = (refl, refl)
on_broadcast-SameSelf s sender now send_ok fault = tt
on_broadcast-SameSelf s sender now send_ok (ok dp) =
    elim (Bool-cases (same dp.device_name s.device_name)) [
      | inl own ↦ rw (own, on_broadcast) (refl, refl)
      | inr foreign ↦
          rw (foreign, on_broadcast)
            (reply-SameSelf s sender send_ok (learn s dp sender now)
              (learn-SameSelf s dp sender now))
    ]

on_reply-SameSelf :
    (s : DiscoveryService) (sender : List ℕ) (now : ℕ) (r : Outcome DiscoveryPayload)
    → After (SameSelf s) (on_reply s sender now r)
unfolding on_reply
on_reply-SameSelf s sender now refused = (refl, refl)
on_reply-SameSelf s sender now fault = tt
on_reply-SameSelf s sender now (ok dp) = elim (Bool-cases (same dp.device_name s.device_name)) [
  | inl own ↦ rw (own, on_reply) (refl, refl)
  | inr foreign ↦ rw (foreign, on_reply) (learn-SameSelf s dp sender now)
]

dispatch-SameSelf :
    (s : DiscoveryService) (sender : List ℕ) (now : ℕ) (send_ok : Bool) (len : ℕ) (t : MessageType)
    → After (SameSelf s) (dispatch s sender now send_ok len t)
unfolding dispatch
dispatch-SameSelf s sender now send_ok len discovery_broadcast =
    on_broadcast-SameSelf s sender now send_ok
      (deserialize_discovery (drop header_size s.buffer_incoming) len)
dispatch-SameSelf s sender now send_ok len discovery_reply =
    on_reply-SameSelf s sender now (deserialize_discovery (drop header_size s.buffer_incoming) len)
dispatch-SameSelf s sender now send_ok len _ = (refl, refl)

on_header-SameSelf :
    (s : DiscoveryService) (sender : List ℕ) (now : ℕ) (send_ok : Bool) (r : Outcome BaseHeader)
    → After (SameSelf s) (on_header s sender now send_ok r)
unfolding on_header
on_header-SameSelf s sender now send_ok refused = (refl, refl)
on_header-SameSelf s sender now send_ok fault = tt
on_header-SameSelf s sender now send_ok (ok base) =
    dispatch-SameSelf s sender now send_ok base.payload_len base.msg_type

pub on_receive-SameSelf :
    (s : DiscoveryService) (now : ℕ) (send_ok : Bool) (c : Completion)
    → After (SameSelf s) (on_receive s now send_ok c)
unfolding on_receive
on_receive-SameSelf s now send_ok failed = (refl, refl)
on_receive-SameSelf s now send_ok (received sender datagram) =
    let s' = record s { buffer_incoming = fill s.buffer_incoming datagram } in
    elim (Bool-cases (same sender s.local_address)) [
      | inl own ↦ rw (own, on_receive) (refl, refl)
      | inr foreign ↦
          rw (foreign, on_receive)
            (on_header-SameSelf s' sender now send_ok (deserialize_header s'.buffer_incoming))
    ]

pub on_timer-SameSelf :
    (s : DiscoveryService) (now : ℕ) (send_ok error : Bool)
    → SameSelf s (on_timer s now send_ok error).0
unfolding on_timer check_expired_devices
on_timer-SameSelf s now send_ok true = (refl, refl)
on_timer-SameSelf s now send_ok false = (refl, refl)
