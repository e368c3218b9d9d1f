-- ===== src/App/Certificates/Tests.antt =====
-- A certificate that has ended, and its successor.
use net_transfer.Base.{
  ℕ, zero, suc, ◌≡◌, refl, true, false, List, [], ◌∷◌, ◌++◌, Option, some, Bool, ◌⊎◌,
}
use net_transfer.App.{returned}
use net_transfer.App.Certificates.{Identity, Surroundings, ensure_cert_exists}
use net_transfer.App.Certificates.Ensured.{IsReady, made, ensure_cert_exists_lem}

-- A certificate is the key and the name; one of the key 1 has ended.
abbrev left : List ℕ → Option Bool
left (suc zero ∷ name) = some false
left text = some true

abbrev around : Surroundings
around = record {
  new_key = 2 ∷ [];
  certify = λ key name. key ++ name;
  days_left = left;
  can_read = true;
  can_write_key = true;
  can_write_certificate = true;
}

abbrev old : Identity
old = record { key = some (1 ∷ []); certificate = some (1 ∷ 0x64 ∷ []) }

ensure_cert_exists_lem_example :
    (out : Identity) × (ensure_cert_exists around (0x64 ∷ []) old ≡ returned out)
    × IsReady around out
    × (((out ≡ old) × IsReady around old) ⊎ (out ≡ made around (0x64 ∷ [])))
    × (ensure_cert_exists around (0x64 ∷ []) out ≡ returned out)
ensure_cert_exists_lem_example =
    ensure_cert_exists_lem around (0x64 ∷ []) old refl refl refl old_known refl
  where
    old_known : (c : List ℕ) → some (1 ∷ 0x64 ∷ []) ≡ some c → (b : Bool) × (left c ≡ some b)
    old_known c e = let same : 1 ∷ 0x64 ∷ [] ≡ c = cc in rw (← same) (false, refl)
