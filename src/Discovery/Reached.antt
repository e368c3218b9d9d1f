-- ===== src/Discovery/Reached.antt =====
-- DiscoveryService: the states that its handlers reach, in any order.
use net_transfer.Base.{ℕ, ◌≡◌, Bool, true, false, List, [], ◌++◌}
use net_transfer.Discovery.{DiscoveryService, Event, listening, Completion, on_receive, on_timer}
use net_transfer.Discovery.Invariant.{IsValid, on_receive-IsValid, check_expired_devices-IsValid}
use net_transfer.Discovery.Reported.{
  Listed, Reported, Reported-split, on_receive-Covered, on_timer-Listed,
}

-- The service after any number of handlers, each of which has ended by listening again, with all that
-- they have reported and sent.
pub data Reached (s₀ : DiscoveryService) : DiscoveryService → List Event → Type 0 where
  initial : Reached s₀ s₀ []
  heard :
      {s s' : DiscoveryService} {es es' : List Event} (now : ℕ) (send_ok : Bool) (c : Completion)
      → Reached s₀ s es
      → on_receive s now send_ok c ≡ listening s' es'
      → Reached s₀ s' (es ++ es')
  fired :
      {s : DiscoveryService} {es : List Event} (now : ℕ) (send_ok error : Bool)
      → Reached s₀ s es
      → Reached s₀ (on_timer s now send_ok error).0 (es ++ (on_timer s now send_ok error).1)

on_timer-IsValid :
    (s : DiscoveryService) (now : ℕ) (send_ok error : Bool)
    → IsValid s
    → IsValid (on_timer s now send_ok error).0
unfolding on_timer
on_timer-IsValid s now send_ok true v = record { distinct = v.distinct; own_absent = v.own_absent }
on_timer-IsValid s now send_ok false v =
    let v' = check_expired_devices-IsValid s now v in
    record { distinct = v'.distinct; own_absent = v'.own_absent }

-- In every state that is reached from one without duplicates and without the service's own name, the
-- list is such again.
pub Reached-IsValid :
    {s₀ s : DiscoveryService} {es : List Event} → IsValid s₀ → Reached s₀ s es → IsValid s
Reached-IsValid v initial = v
Reached-IsValid {s₀} v (heard {s} {s'} {es} {es'} now send_ok c r e) =
    let v' = on_receive-IsValid s now send_ok c (Reached-IsValid v r) in rw e at v'
Reached-IsValid v (fired {s} now send_ok error r) =
    on_timer-IsValid s now send_ok error (Reached-IsValid v r)

-- In every state that is reached, what is listed was listed before or was reported.
pub Reached-Listed :
    (P : List ℕ → List ℕ → Type 0) {s₀ s : DiscoveryService} {es : List Event}
    → Listed P s₀.discovered_devices
    → Reached s₀ s es
    → Reported P es
    → Listed P s.discovered_devices
Reached-Listed P h initial k = h
Reached-Listed P h (heard {s} {s'} {es} {es'} now send_ok c r e) k =
    let (front, back) = Reported-split P es es' k in
    let covered = on_receive-Covered P s now send_ok c (Reached-Listed P h r front) in
    rw e at covered back
Reached-Listed P h (fired {s} {es} now send_ok error r) k =
    on_timer-Listed P s now send_ok error (Reached-Listed P h r (Reported-split P es _ k).0)
