-- ===== src/Discovery/Devices.antt =====
-- The vector of discovered devices, and the loops over it.
use net_transfer.Base.{
  ℕ, zero, suc, ◌+◌, ◌*◌, ◌≤◌, ◌≡◌, refl, ap, ◌∙◌, arith, Bool, true, false, List, [], ◌∷◌, ◌++◌,
  append_assoc, append-nil, Option, none, some, same, ltb, if◌then◌else◌, length, get_elem?,
  Bool-cases, inl, inr,
}

pub record DiscoveredDevice : Type 0 where
  pub name : List ℕ
  pub ip : List ℕ
  pub tcp_port : ℕ
  pub last_seen : ℕ

-- WAIT_TIME seconds
abbrev pub wait_time : ℕ
wait_time = 15 * 1000000000

-- The loop that looks for a name, and renews `last_seen` of the first device that has it; `none` if
-- `deviceInList` stays false.
unfoldable pub touch : List ℕ → ℕ → List DiscoveredDevice → Option (List DiscoveredDevice)
touch name now [] = none
touch name now (d ∷ ds) =
    let rest = touch name now ds in
    if same d.name name
    then some (record d { last_seen = now } ∷ ds)
    else elim rest [ none ↦ none | some ds' ↦ some (d ∷ ds') ]

-- vector::erase
unfoldable pub erase_at : ℕ → List DiscoveredDevice → List DiscoveredDevice
erase_at i [] = []
erase_at zero (d ∷ ds) = ds
erase_at (suc i) (d ∷ ds) = d ∷ erase_at i ds

abbrev pub is_expired : ℕ → DiscoveredDevice → Bool
is_expired now d = ltb (d.last_seen + wait_time) now

-- The loop of checkExpiredDevices at index `i`, on fuel: `i--` and `i++` leave the index alone after
-- an erasure. Every round lowers `devices.size() - i` by one.
unfoldable pub expire_loop :
    ℕ
    → ℕ
    → ℕ
    → List DiscoveredDevice
    → List DiscoveredDevice
    → List DiscoveredDevice × List DiscoveredDevice
expire_loop zero now i devices expired = (devices, expired)
expire_loop (suc fuel) now i devices expired = elim (get_elem? devices i) [
  | none ↦ (devices, expired)
  | some d ↦ elim (is_expired now d) [
    | true ↦ expire_loop fuel now i (erase_at i devices) (expired ++ d ∷ [])
    | false ↦ expire_loop fuel now (i + 1) devices expired
  ]
]

unfoldable pub expire : ℕ → List DiscoveredDevice → List DiscoveredDevice × List DiscoveredDevice
unfolding expire_loop
expire now devices = expire_loop (length devices) now 0 devices []

-- The devices that a sweep keeps, and those that it drops, in their order.
abbrev pub kept : ℕ → List DiscoveredDevice → List DiscoveredDevice
kept now [] = []
kept now (d ∷ ds) = let rest = kept now ds in if is_expired now d then rest else d ∷ rest

abbrev pub gone : ℕ → List DiscoveredDevice → List DiscoveredDevice
gone now [] = []
gone now (d ∷ ds) = let rest = gone now ds in if is_expired now d then d ∷ rest else rest

get_elem?-middle :
    (front : List DiscoveredDevice) (d : DiscoveredDevice) (ds : List DiscoveredDevice)
    → get_elem? (front ++ d ∷ ds) (length front) ≡ some d
get_elem?-middle [] d ds = refl
get_elem?-middle (x ∷ front) d ds = get_elem?-middle front d ds

get_elem?-end : (front : List DiscoveredDevice) → get_elem? front (length front) ≡ none
get_elem?-end [] = refl
get_elem?-end (x ∷ front) = get_elem?-end front

erase_at-middle :
    (front : List DiscoveredDevice) (d : DiscoveredDevice) (ds : List DiscoveredDevice)
    → erase_at (length front) (front ++ d ∷ ds) ≡ front ++ ds
unfolding erase_at
erase_at-middle [] d ds = refl
erase_at-middle (x ∷ front) d ds = ap (λ xs. x ∷ xs) (erase_at-middle front d ds)

length-snoc :
    (front : List DiscoveredDevice) (d : DiscoveredDevice)
    → length (front ++ d ∷ []) ≡ length front + 1
length-snoc [] d = refl
length-snoc (x ∷ front) d = omega (arith, length-snoc front d)

expire_loop_lem :
    (fuel now : ℕ) (front ds expired : List DiscoveredDevice)
    → length ds ≤ fuel
    → expire_loop fuel now (length front) (front ++ ds) expired
      ≡ (front ++ kept now ds, expired ++ gone now ds)
unfolding expire_loop
expire_loop_lem zero now front [] expired h = rw (append-nil expired) refl
expire_loop_lem zero now front (d ∷ ds) expired h = absurd (omega arith)
expire_loop_lem (suc fuel) now front [] expired h =
    rw (append-nil front, get_elem?-end front, append-nil expired, expire_loop)
      (rw (append-nil front) refl)
expire_loop_lem (suc fuel) now front (d ∷ ds) expired h = elim (Bool-cases (is_expired now d)) [
  | inl old ↦
      rw (get_elem?-middle front d ds, old, erase_at-middle front d ds, expire_loop)
        (expire_loop_lem fuel now front ds (expired ++ d ∷ []) (omega arith)
          ∙ rw (append_assoc expired (d ∷ []) (gone now ds)) refl)
  | inr fresh ↦
      let ih = expire_loop_lem fuel now (front ++ d ∷ []) ds expired (omega arith) in
      rw (get_elem?-middle front d ds, fresh, ← length-snoc front d, expire_loop)
        (rw (append_assoc front (d ∷ []) ds, append_assoc front (d ∷ []) (kept now ds)) at ih)
]

-- The sweep keeps the devices seen within WAIT_TIME, in their order, and reports the others.
pub expire_lem : (now : ℕ) (ds : List DiscoveredDevice) → expire now ds ≡ (kept now ds, gone now ds)
unfolding expire
expire_lem now ds = expire_loop_lem (length ds) now [] ds [] (omega arith)
