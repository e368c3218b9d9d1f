-- ===== src/Transfer/Receiver/Files.antt =====
-- resolveFilePath and the file part of cleanupFailedTransfer.
use net_transfer.Base.{
  is_empty, ℕ, zero, suc, ◌+◌, ◌<◌, ◌≡◌, ◌≢◌, refl, arith, false, not, List, [], ◌∷◌, ◌++◌, Option,
  none, some, ◌&&◌, same, same→eq, if◌then◌else◌, Bool-cases, inl, inr,
}
use net_transfer.Transfer.Platform.{Paths, Disk, exists, remove}

-- dir / (stem + " (" + std::to_string(counter) + ")" + ext)
unfoldable pub numbered : Paths → List ℕ → List ℕ → ℕ → List ℕ
numbered paths dir candidate counter = paths.join dir (
    paths.stem candidate
    ++ ((0x20 ∷ 0x28 ∷ []) ++ (paths.to_string counter ++ (0x29 ∷ paths.extension candidate))))

-- The loop over the counter, on fuel: `none` if all the names that it tries exist.
unfoldable pub first_free : (ℕ → List ℕ) → Disk → ℕ → ℕ → Option (List ℕ)
first_free name disk zero counter = none
first_free name disk (suc fuel) counter =
    let rest = first_free name disk fuel (counter + 1) in
    if exists disk (name counter) then rest else some (name counter)

unfoldable pub resolve_file_path : Paths → Disk → ℕ → List ℕ → List ℕ → Option (List ℕ)
unfolding first_free numbered
resolve_file_path paths disk fuel dir filename =
    let candidate = paths.join dir filename in
    if not (exists disk candidate)
    then some candidate
    else first_free (numbered paths dir candidate) disk fuel 1

-- `if (!file_path.empty() && exists(file_path)) remove(file_path);`
unfoldable pub cleaned : Disk → List ℕ → Disk
cleaned disk path = if not (is_empty path) && exists disk path then remove disk path else disk

some-eq : {a b : List ℕ} → some a ≡ some b → a ≡ b
some-eq e = cc

first_free_new :
    (name : ℕ → List ℕ) (disk : Disk) (fuel counter : ℕ) (path : List ℕ)
    → first_free name disk fuel counter ≡ some path
    → exists disk path ≡ false
unfolding first_free
first_free_new name disk zero counter path e = cc
first_free_new name disk (suc fuel) counter path e =
    elim (Bool-cases (exists disk (name counter))) [
      | inl taken ↦ first_free_new name disk fuel (counter + 1) path (rw (taken, first_free) at e)
      | inr free ↦
          let same_path : name counter ≡ path = some-eq (rw (free, first_free) at e) in
          rw (← same_path) free
    ]

-- The name that a received file gets is not the name of a file that exists.
pub resolve_file_path_new :
    (paths : Paths) (disk : Disk) (fuel : ℕ) (dir filename path : List ℕ)
    → resolve_file_path paths disk fuel dir filename ≡ some path
    → exists disk path ≡ false
unfolding resolve_file_path
resolve_file_path_new paths disk fuel dir filename path e =
    let candidate : List ℕ = paths.join dir filename in
    elim (Bool-cases (exists disk candidate)) [
      | inl taken ↦
          first_free_new (numbered paths dir candidate) disk fuel 1 path
            (rw (taken, resolve_file_path) at e)
      | inr free ↦
          let same_path : candidate ≡ path = some-eq (rw (free, resolve_file_path) at e) in
          rw (← same_path) free
    ]

first_free_found :
    (name : ℕ → List ℕ) (disk : Disk) (fuel counter k : ℕ)
    → k < fuel
    → exists disk (name (counter + k)) ≡ false
    → (path : List ℕ) × (first_free name disk fuel counter ≡ some path)
unfolding first_free
first_free_found name disk zero counter k h free = absurd (omega arith)
first_free_found name disk (suc fuel) counter zero h free =
    let here : counter + zero ≡ counter = omega arith in
    (name counter, rw (rw here at free, first_free) refl)
first_free_found name disk (suc fuel) counter (suc k) h free =
    elim (Bool-cases (exists disk (name counter))) [
      | inl taken ↦
          let next : counter + suc k ≡ counter + 1 + k = omega arith in
          let (path, e) =
            first_free_found name disk fuel (counter + 1) k (omega arith) (rw next at free) in
          (path, rw (taken, first_free) e)
      | inr stop ↦ (name counter, rw (stop, first_free) refl)
    ]

resolve_file_path_found :
    (paths : Paths) (disk : Disk) (fuel k : ℕ) (dir filename : List ℕ)
    → k < fuel
    → exists disk (numbered paths dir (paths.join dir filename) (1 + k)) ≡ false
    → (path : List ℕ) × (resolve_file_path paths disk fuel dir filename ≡ some path)
unfolding resolve_file_path
resolve_file_path_found paths disk fuel k dir filename h free =
    let candidate : List ℕ = paths.join dir filename in
    elim (Bool-cases (exists disk candidate)) [
      | inl taken ↦
          let (path, e) = first_free_found (numbered paths dir candidate) disk fuel 1 k h free in
          (path, rw (taken, resolve_file_path) e)
      | inr new ↦ (candidate, rw (new, resolve_file_path) refl)
    ]

-- The loop ends as soon as one of the numbered names is free: with more rounds than the number of that
-- name a name is found, and no file of that name exists.
pub resolve_file_path_lem :
    (paths : Paths) (disk : Disk) (fuel k : ℕ) (dir filename : List ℕ)
    → k < fuel
    → exists disk (numbered paths dir (paths.join dir filename) (1 + k)) ≡ false
    → (path : List ℕ) × (resolve_file_path paths disk fuel dir filename ≡ some path)
      × (exists disk path ≡ false)
resolve_file_path_lem paths disk fuel k dir filename h free =
    let (path, e) = resolve_file_path_found paths disk fuel k dir filename h free in
    (path, e, resolve_file_path_new paths disk fuel dir filename path e)

not-exists : (disk : Disk) (path : List ℕ) → exists disk path ≡ false → disk path ≡ none
not-exists disk path e = ground arith

-- A failed transfer leaves no file at its path, and touches no other file.
cleaned_lem :
    (disk : Disk) (path p : List ℕ)
    → path ≢ []
    → cleaned disk path p ≡ (if same p path then none else disk p)
unfolding cleaned
cleaned_lem disk [] p named = absurd (named refl)
cleaned_lem disk (x ∷ xs) p named = elim (Bool-cases (exists disk (x ∷ xs))) [
  | inl found ↦ rw (found, cleaned) refl
  | inr missing ↦ elim (Bool-cases (same p (x ∷ xs))) [
    | inl hit ↦
        let e : p ≡ x ∷ xs = same→eq p (x ∷ xs) hit in
        rw (missing, hit, cleaned) (rw e (not-exists disk (x ∷ xs) missing))
    | inr miss ↦ rw (missing, miss, cleaned) refl
  ]
]
