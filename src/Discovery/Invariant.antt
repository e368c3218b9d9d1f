-- ===== src/Discovery/Invariant.antt =====
-- DiscoveryService: the well-formedness of its device list, through its handlers.
use net_transfer.Base.{
  ℕ, ◌≡◌, refl, ◌∙◌, arith, Bool, true, false, List, [], ◌∷◌, ◌++◌, map, Option, none, some, same,
  same_sym, Bool-cases, Option-cases, inl, inr, drop,
}
use mathlib.Core.List.{map-append}
use net_transfer.Protocol.{
  BaseHeader, DiscoveryPayload, MessageType, discovery_broadcast, discovery_reply, header_size,
}
use net_transfer.Protocol.Header.{deserialize_header}
use net_transfer.Protocol.Reader.{Outcome, ok, refused, fault}
use net_transfer.Protocol.Payload.{deserialize_discovery}
use net_transfer.Discovery.{
  DiscoveryService, Event, Handled, listening, thrown, undefined, Completion, failed, received,
  learn, reply, on_broadcast, on_reply, dispatch, on_header, on_receive, check_expired_devices,
  fill,
}
use net_transfer.Discovery.Devices.{DiscoveredDevice, touch, kept, expire_lem}

abbrev pub names : List DiscoveredDevice → List (List ℕ)
names = map λ d. d.name

abbrev pub Absent : List ℕ → List (List ℕ) → Type 0
Absent name [] = Unit {0}
Absent name (n ∷ ns) = (same n name ≡ false) × Absent name ns

abbrev pub Distinct : List (List ℕ) → Type 0
Distinct [] = Unit {0}
Distinct (n ∷ ns) = Absent n ns × Distinct ns

pub record IsValid (s : DiscoveryService) : Type 0 where
  pub distinct : Distinct (names s.discovered_devices)
  pub own_absent : Absent s.device_name (names s.discovered_devices)

-- The state that a handler leaves behind, if it leaves one.
abbrev pub After : (DiscoveryService → Type 0) → Handled → Type 0
After P (listening s events) = P s
After P (thrown s events) = P s
After P undefined = Unit {0}

-- A hit keeps all names; a miss means that the name is not there.
abbrev Touched : List ℕ → List DiscoveredDevice → Option (List DiscoveredDevice) → Type 0
Touched name ds none = Absent name (names ds)
Touched name ds (some ds') = names ds' ≡ names ds

touch-Touched :
    (name : List ℕ) (now : ℕ) (ds : List DiscoveredDevice) → Touched name ds (touch name now ds)
unfolding touch
touch-Touched name now [] = tt
touch-Touched name now (d ∷ ds) = ground (arith, touch-Touched name now ds)

Absent-snoc :
    (n : List ℕ) (ns : List (List ℕ)) (m : List ℕ)
    → Absent n ns
    → same m n ≡ false
    → Absent n (ns ++ m ∷ [])
Absent-snoc n [] m a e = (e, tt)
Absent-snoc n (x ∷ ns) m a e = (a.0, Absent-snoc n ns m a.1 e)

Distinct-snoc :
    (ns : List (List ℕ)) (m : List ℕ) → Distinct ns → Absent m ns → Distinct (ns ++ m ∷ [])
Distinct-snoc [] m h a = (tt, tt)
Distinct-snoc (x ∷ ns) m h a =
    (Absent-snoc x ns m h.0 (same_sym m x ∙ a.0), Distinct-snoc ns m h.1 a.1)

-- Learning of a device of another name keeps the list valid.
learn-IsValid :
    (s : DiscoveryService) (dp : DiscoveryPayload) (sender : List ℕ) (now : ℕ)
    → same dp.device_name s.device_name ≡ false
    → IsValid s
    → IsValid (learn s dp sender now).0 × ((learn s dp sender now).0.device_name ≡ s.device_name)
unfolding learn
learn-IsValid s dp sender now other v =
    let t = touch-Touched dp.device_name now s.discovered_devices in
    elim (Option-cases (touch dp.device_name now s.discovered_devices)) [
      | inl miss ↦
          let absent : Absent dp.device_name (names s.discovered_devices) = rw miss at t in
          rw (miss, learn)
            (
              record {
                distinct =
                    rw map-append
                      (Distinct-snoc (names s.discovered_devices) dp.device_name v.distinct absent);
                own_absent = rw map-append (
                    Absent-snoc s.device_name (names s.discovered_devices) dp.device_name
                      v.own_absent other);
              },
              refl,
            )
      | inr (ds', hit) ↦
          let e : names ds' ≡ names s.discovered_devices = rw hit at t in
          rw (hit, learn)
            (record { distinct = rw e v.distinct; own_absent = rw e v.own_absent }, refl)
    ]

reply-IsValid :
    (sender : List ℕ) (send_ok : Bool) (r : DiscoveryService × List Event)
    → IsValid r.0
    → After IsValid (reply sender send_ok r)
unfolding reply
reply-IsValid sender true (s, events) v = v
reply-IsValid sender false (s, events) v = v

on_broadcast-IsValid :
    (s : DiscoveryService) (sender : List ℕ) (now : ℕ) (send_ok : Bool)
    (r : Outcome DiscoveryPayload)
    → IsValid s
    → After IsValid (on_broadcast s sender now send_ok r)
unfolding on_broadcast
on_broadcast-IsValid s sender now send_ok refused v = v
on_broadcast-IsValid s sender now send_ok fault v = tt
on_broadcast-IsValid s sender now send_ok (ok dp) v =
    elim (Bool-cases (same dp.device_name s.device_name)) [
      | inl own ↦ rw (own, on_broadcast) v
      | inr other ↦
          rw (other, on_broadcast)
            (reply-IsValid sender send_ok (learn s dp sender now)
              (learn-IsValid s dp sender now other v).0)
    ]

on_reply-IsValid :
    (s : DiscoveryService) (sender : List ℕ) (now : ℕ) (r : Outcome DiscoveryPayload)
    → IsValid s
    → After IsValid (on_reply s sender now r)
unfolding on_reply
on_reply-IsValid s sender now refused v = v
on_reply-IsValid s sender now fault v = tt
on_reply-IsValid s sender now (ok dp) v = elim (Bool-cases (same dp.device_name s.device_name)) [
  | inl own ↦ rw (own, on_reply) v
  | inr other ↦ rw (other, on_reply) (learn-IsValid s dp sender now other v).0
]

dispatch-IsValid :
    (s : DiscoveryService) (sender : List ℕ) (now : ℕ) (send_ok : Bool) (len : ℕ) (t : MessageType)
    → IsValid s
    → After IsValid (dispatch s sender now send_ok len t)
unfolding dispatch
dispatch-IsValid s sender now send_ok len discovery_broadcast v =
    on_broadcast-IsValid s sender now send_ok
      (deserialize_discovery (drop header_size s.buffer_incoming) len) v
dispatch-IsValid s sender now send_ok len discovery_reply v =
    on_reply-IsValid s sender now (deserialize_discovery (drop header_size s.buffer_incoming) len) v
dispatch-IsValid s sender now send_ok len _ v = v

on_header-IsValid :
    (s : DiscoveryService) (sender : List ℕ) (now : ℕ) (send_ok : Bool) (r : Outcome BaseHeader)
    → IsValid s
    → After IsValid (on_header s sender now send_ok r)
unfolding on_header
on_header-IsValid s sender now send_ok refused v = v
on_header-IsValid s sender now send_ok fault v = tt
on_header-IsValid s sender now send_ok (ok base) v =
    dispatch-IsValid s sender now send_ok base.payload_len base.msg_type v

-- Whatever arrives, from whomever, a handler that ends without undefined behaviour, be it by an
-- exception, leaves a list without duplicates and without
-- the service's own name, if it found one.
pub on_receive-IsValid :
    (s : DiscoveryService) (now : ℕ) (send_ok : Bool) (c : Completion)
    → IsValid s
    → After IsValid (on_receive s now send_ok c)
unfolding on_receive
on_receive-IsValid s now send_ok failed v = v
on_receive-IsValid s now send_ok (received sender datagram) v =
    let s' = record s { buffer_incoming = fill s.buffer_incoming datagram } in
    let v' : IsValid s' = record { distinct = v.distinct; own_absent = v.own_absent } in
    elim (Bool-cases (same sender s.local_address)) [
      | inl own ↦ rw (own, on_receive) v'
      | inr other ↦
          rw (other, on_receive)
            (on_header-IsValid s' sender now send_ok (deserialize_header s'.buffer_incoming) v')
    ]

Absent-kept :
    (n : List ℕ) (now : ℕ) (ds : List DiscoveredDevice)
    → Absent n (names ds)
    → Absent n (names (kept now ds))
Absent-kept n now [] a = tt
Absent-kept n now (d ∷ ds) a = ground (arith, Absent-kept n now ds a.1)

Distinct-kept :
    (now : ℕ) (ds : List DiscoveredDevice) → Distinct (names ds) → Distinct (names (kept now ds))
Distinct-kept now [] h = tt
Distinct-kept now (d ∷ ds) h =
    ground (arith, Distinct-kept now ds h.1, Absent-kept d.name now ds h.0)

-- The sweep keeps a list without duplicates and without the service's own name such.
pub check_expired_devices-IsValid :
    (s : DiscoveryService) (now : ℕ) → IsValid s → IsValid (check_expired_devices s now).0
unfolding check_expired_devices
check_expired_devices-IsValid s now v = rw (expire_lem now s.discovered_devices) (record {
  distinct = Distinct-kept now s.discovered_devices v.distinct;
  own_absent = Absent-kept s.device_name now s.discovered_devices v.own_absent;
})
