-- ===== src/Gui/Follows.antt =====
-- The window's list and the service's list.
use net_transfer.Base.{
  ℕ, ◌≡◌, refl, sym, ◌∙◌, arith, Bool, true, false, List, [], ◌∷◌, ◌++◌, map, Option, none, some,
  same, Bool-cases, Option-cases, inl, inr, drop,
}
use mathlib.Core.List.{map-append}
use net_transfer.Protocol.{
  BaseHeader, DiscoveryPayload, MessageType, discovery_broadcast, discovery_reply, header_size,
}
use net_transfer.Protocol.Header.{deserialize_header}
use net_transfer.Protocol.Reader.{Outcome, ok, refused, fault}
use net_transfer.Protocol.Payload.{deserialize_discovery}
use net_transfer.Discovery.{
  DiscoveryService, Event, device_found, device_left, sent, Handled, listening, thrown, undefined,
  Completion, failed, received, learn, reply, on_broadcast, on_reply, dispatch, on_header,
  on_receive, fill,
}
use net_transfer.Discovery.Devices.{DiscoveredDevice, touch}
use net_transfer.Gui.{MainWindow, label, discovery_signals, deliver, on_device_found}

module _ (text : List ℕ → List ℕ) (percent : ℕ → ℕ → ℕ) where
  abbrev pub labels : List DiscoveredDevice → List (List ℕ)
  labels = map (label text)

  -- The window after the signals of some events.
  abbrev pub after : MainWindow → List Event → MainWindow
  after w es = deliver percent w (discovery_signals text es)

  -- The window shows the devices of a service.
  abbrev pub Shows : MainWindow → DiscoveryService → Type 0
  Shows w s = w.device_list ≡ labels s.discovered_devices

  -- A window that shows a service before a handler shows it again once the handler's signals arrive.
  abbrev pub Follows : MainWindow → Handled → Type 0
  Follows w (listening s es) = Shows (after w es) s
  Follows w (thrown s es) = Shows (after w es) s
  Follows w undefined = Unit {0}

  -- A renewed `last_seen` changes no label.
  abbrev Relabelled : List DiscoveredDevice → Option (List DiscoveredDevice) → Type 0
  Relabelled ds none = Unit {0}
  Relabelled ds (some ds') = labels ds' ≡ labels ds

  touch-Relabelled :
      (name : List ℕ) (now : ℕ) (ds : List DiscoveredDevice) → Relabelled ds (touch name now ds)
  unfolding touch
  touch-Relabelled name now [] = tt
  touch-Relabelled name now (d ∷ ds) = ground (arith, touch-Relabelled name now ds)

  learn-Shows :
      (w : MainWindow) (s : DiscoveryService) (dp : DiscoveryPayload) (sender : List ℕ) (now : ℕ)
      → Shows w s
      → Shows (after w (learn s dp sender now).1) (learn s dp sender now).0
  unfolding learn deliver discovery_signals on_device_found
  learn-Shows w s dp sender now v =
      let t = touch-Relabelled dp.device_name now s.discovered_devices in
      elim (Option-cases (touch dp.device_name now s.discovered_devices)) [
        | inl miss ↦ rw (miss, learn) (rw (v, map-append) refl)
        | inr (ds', hit) ↦
            let renewed : labels ds' ≡ labels s.discovered_devices = rw hit at t in
            rw (hit, learn) (v ∙ sym renewed)
      ]

  -- A message sent is no signal.
  signals-sent :
      (es : List Event) (message address : List ℕ)
      → discovery_signals text (es ++ sent message address ∷ []) ≡ discovery_signals text es
  unfolding discovery_signals
  signals-sent [] message address = refl
  signals-sent (device_found d ∷ es) message address = rw (signals-sent es message address) refl
  signals-sent (device_left d ∷ es) message address = rw (signals-sent es message address) refl
  signals-sent (sent m a ∷ es) message address = signals-sent es message address

  reply-Follows :
      (w : MainWindow) (sender : List ℕ) (send_ok : Bool) (r : DiscoveryService × List Event)
      → Shows (after w r.1) r.0
      → Follows w (reply sender send_ok r)
  unfolding reply
  reply-Follows w sender true (s, es) v = rw (signals-sent es _ sender) v
  reply-Follows w sender false (s, es) v = v

  on_broadcast-Follows :
      (w : MainWindow) (s : DiscoveryService) (sender : List ℕ) (now : ℕ) (send_ok : Bool)
      (r : Outcome DiscoveryPayload)
      → Shows w s
      → Follows w (on_broadcast s sender now send_ok r)
  unfolding on_broadcast deliver discovery_signals
  on_broadcast-Follows w s sender now send_ok refused v = v
  on_broadcast-Follows w s sender now send_ok fault v = tt
  on_broadcast-Follows w s sender now send_ok (ok dp) v =
      elim (Bool-cases (same dp.device_name s.device_name)) [
        | inl own ↦ rw (own, on_broadcast) v
        | inr other ↦
            rw (other, on_broadcast)
              (reply-Follows w sender send_ok (learn s dp sender now)
                (learn-Shows w s dp sender now v))
      ]

  on_reply-Follows :
      (w : MainWindow) (s : DiscoveryService) (sender : List ℕ) (now : ℕ)
      (r : Outcome DiscoveryPayload)
      → Shows w s
      → Follows w (on_reply s sender now r)
  unfolding on_reply deliver discovery_signals
  on_reply-Follows w s sender now refused v = v
  on_reply-Follows w s sender now fault v = tt
  on_reply-Follows w s sender now (ok dp) v =
      elim (Bool-cases (same dp.device_name s.device_name)) [
        | inl own ↦ rw (own, on_reply) v
        | inr other ↦ rw (other, on_reply) (learn-Shows w s dp sender now v)
      ]

  dispatch-Follows :
      (w : MainWindow) (s : DiscoveryService) (sender : List ℕ) (now : ℕ) (send_ok : Bool) (len : ℕ)
      (t : MessageType)
      → Shows w s
      → Follows w (dispatch s sender now send_ok len t)
  unfolding dispatch deliver discovery_signals
  dispatch-Follows w s sender now send_ok len discovery_broadcast v =
      on_broadcast-Follows w s sender now send_ok
        (deserialize_discovery (drop header_size s.buffer_incoming) len) v
  dispatch-Follows w s sender now send_ok len discovery_reply v =
      on_reply-Follows w s sender now
        (deserialize_discovery (drop header_size s.buffer_incoming) len) v
  dispatch-Follows w s sender now send_ok len _ v = v

  on_header-Follows :
      (w : MainWindow) (s : DiscoveryService) (sender : List ℕ) (now : ℕ) (send_ok : Bool)
      (r : Outcome BaseHeader)
      → Shows w s
      → Follows w (on_header s sender now send_ok r)
  unfolding on_header deliver discovery_signals
  on_header-Follows w s sender now send_ok refused v = v
  on_header-Follows w s sender now send_ok fault v = tt
  on_header-Follows w s sender now send_ok (ok base) v =
      dispatch-Follows w s sender now send_ok base.payload_len base.msg_type v

  -- If the window shows the service's devices, then it shows them again after any datagram, once the
  -- signals of the handler that read it have arrived, whether that handler ends well or by an
  -- exception.
  pub on_receive-Follows :
      (w : MainWindow) (s : DiscoveryService) (now : ℕ) (send_ok : Bool) (c : Completion)
      → Shows w s
      → Follows w (on_receive s now send_ok c)
  unfolding on_receive deliver discovery_signals
  on_receive-Follows w s now send_ok failed v = v
  on_receive-Follows w s now send_ok (received sender datagram) v =
      let s' = record s { buffer_incoming = fill s.buffer_incoming datagram } in
      elim (Bool-cases (same sender s.local_address)) [
        | inl own ↦ rw (own, on_receive) v
        | inr other ↦
            rw (other, on_receive)
              (on_header-Follows w s' sender now send_ok (deserialize_header s'.buffer_incoming) v)
      ]
