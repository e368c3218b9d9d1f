-- ===== src/Discovery/Introduced.antt =====
-- Two services of src/core/discovery.cpp on one network: a broadcast and its reply.
use net_transfer.Base.{
  ℕ, ◌≡◌, refl, ◌∙◌, true, false, List, [], ◌∷◌, ◌++◌, none, same, length, drop,
}
use net_transfer.Protocol.{discovery_broadcast, discovery_reply, type_of, type_code}
use net_transfer.Protocol.Header.{deserialize_header}
use net_transfer.Discovery.{
  DiscoveryService, listening, received, device_found, sent, learn, announcement, on_reply,
  dispatch, on_header, on_receive,
}
use net_transfer.Discovery.Devices.{touch}
use net_transfer.Discovery.Heard.{
  IsHearable, entry, announcement_read, fill-announcement, on_receive-remote,
  on_receive-new_broadcast,
}

-- A handler that finds `a`'s reply at the front of the buffer.
on_header-reply :
    (s a : DiscoveryService) (sender junk : List ℕ) (now : ℕ)
    → IsHearable a
    → same a.device_name s.device_name ≡ false
    → touch a.device_name now s.discovered_devices ≡ none
    → let buffer = announcement discovery_reply a ++ junk in
      let s' = record s {
        discovered_devices = s.discovered_devices ++ entry a sender now ∷ [];
        buffer_incoming = buffer;
      } in
      on_header (record s { buffer_incoming = buffer }) sender now true (deserialize_header buffer)
      ≡ listening s' (device_found (entry a sender now) ∷ [])
unfolding on_header dispatch on_reply learn
on_header-reply s a sender junk now h other new =
    let (base, r, t, p) =
      announcement_read discovery_reply a junk (unfold type_of type_code in refl) h in
    rw (r, t, p, other, new, on_header, on_reply, dispatch, learn) refl

-- Two services with different names and addresses, both with a name of at most 486 bytes and a port
-- of 16 bits, that do not know each other: when the second hears the first's broadcast, it lists
-- and reports the first and sends an answer to it, and when the first hears that answer, it lists and
-- reports the second. One broadcast is enough for both, if sending succeeds and nothing is lost.
pub on_receive-introduces :
    (a b : DiscoveryService) (a_address b_address : List ℕ) (now later : ℕ)
    → IsHearable a
    → IsHearable b
    → same a_address b.local_address ≡ false
    → same b_address a.local_address ≡ false
    → same a.device_name b.device_name ≡ false
    → same b.device_name a.device_name ≡ false
    → touch a.device_name now b.discovered_devices ≡ none
    → touch b.device_name later a.discovered_devices ≡ none
    → let broadcast = announcement discovery_broadcast a in
      let answer = announcement discovery_reply b in
      let b' = record b {
        discovered_devices = b.discovered_devices ++ entry a a_address now ∷ [];
        buffer_incoming = broadcast ++ drop (length broadcast) b.buffer_incoming;
      } in
      let a' = record a {
        discovered_devices = a.discovered_devices ++ entry b b_address later ∷ [];
        buffer_incoming = answer ++ drop (length answer) a.buffer_incoming;
      } in
      (on_receive b now true (received a_address broadcast)
        ≡ listening b' (device_found (entry a a_address now) ∷ sent answer a_address ∷ []))
      × (on_receive a later true (received b_address answer)
          ≡ listening a' (device_found (entry b b_address later) ∷ []))
unfolding announcement
on_receive-introduces a b a_address b_address now later ha hb remote remote' other other' new new' =
    let answer : List ℕ = announcement discovery_reply b in
    (
      on_receive-new_broadcast b a a_address now ha remote other new,
      on_receive-remote a b_address answer _ later true remote'
            (fill-announcement discovery_reply b a.buffer_incoming hb)
          ∙ on_header-reply a b b_address (drop (length answer) a.buffer_incoming) later hb other'
              new',
    )
