-- ===== src/App/Certificates/Ensured.antt =====
-- What ensureCertExists of src/core/NetTransfer.cpp leaves in the configuration directory.
use net_transfer.Base.{
  ℕ, ◌≡◌, refl, ap, ◌∙◌, Bool, true, List, Option, none, some, if◌then◌else◌, ◌⊎◌, inl, inr,
  Bool-cases,
}
use net_transfer.App.{Call, returned}
use net_transfer.App.Certificates.{
  Identity, Surroundings, write_certificate, generate, check_certificate, both_exist,
  ensure_cert_exists,
}

module _ (around : Surroundings) where
  open around use {new_key, certify, days_left, can_read, can_write_key, can_write_certificate}

  -- A key and a certificate that has not ended, with a text for each.
  pub record IsReady (files : Identity) : Type 0 where
    pub key : List ℕ
    pub certificate : List ℕ
    pub has_key : files.key ≡ some key
    pub has_certificate : files.certificate ≡ some certificate
    pub lasts : days_left certificate ≡ some true

  abbrev pub made : List ℕ → Identity
  made device_name = record { key = some new_key; certificate = some (certify new_key device_name) }

  generate_lem :
      (device_name : List ℕ) (files : Identity)
      → can_write_key ≡ true
      → can_write_certificate ≡ true
      → generate around device_name files ≡ made device_name
  unfolding generate write_certificate
  generate_lem device_name files wk wc = rw (wk, wc) refl

  made-IsReady :
      (device_name : List ℕ)
      → days_left (certify new_key device_name) ≡ some true
      → IsReady (made device_name)
  made-IsReady device_name lasts = record {
    key = new_key;
    certificate = certify new_key device_name;
    has_key = refl;
    has_certificate = refl;
    lasts = lasts;
  }

  both_exist-some :
      (device_name key certificate : List ℕ) (files : Identity) (left : Bool)
      → can_read ≡ true
      → days_left certificate ≡ some left
      → both_exist around device_name files (some key) (some certificate)
        ≡ returned (if left then files else generate around device_name files)
  unfolding both_exist check_certificate
  both_exist-some device_name key certificate files left readable e =
      rw (readable, e, check_certificate) refl

  -- What is ready is left alone.
  ensure_cert_exists-IsReady :
      (device_name : List ℕ) (files : Identity)
      → can_read ≡ true
      → IsReady files
      → ensure_cert_exists around device_name files ≡ returned files
  unfolding ensure_cert_exists
  ensure_cert_exists-IsReady device_name files readable v =
      ap (λ k. both_exist around device_name files k files.certificate) v.has_key
      ∙ ap (λ c. both_exist around device_name files (some v.key) c) v.has_certificate
      ∙ both_exist-some device_name v.key v.certificate files true readable v.lasts

  -- What the call ends with: the files as they were, ready, or a new key with its certificate.
  abbrev Ensured : List ℕ → Identity → Call Identity → Type 0
  Ensured device_name files c =
      (out : Identity) × (c ≡ returned out)
      × (((out ≡ files) × IsReady files) ⊎ (out ≡ made device_name))

  both_exist-Ensured :
      (device_name : List ℕ) (files : Identity) (key certificate : Option (List ℕ))
      → files.key ≡ key
      → files.certificate ≡ certificate
      → can_read ≡ true
      → can_write_key ≡ true
      → can_write_certificate ≡ true
      → ((c : List ℕ) → certificate ≡ some c → (left : Bool) × (days_left c ≡ some left))
      → Ensured device_name files (both_exist around device_name files key certificate)
  unfolding both_exist
  both_exist-Ensured device_name files none certificate ek ec readable wk wc known =
      (made device_name, ap returned (generate_lem device_name files wk wc), inr refl)
  both_exist-Ensured device_name files (some key) none ek ec readable wk wc known =
      (made device_name, ap returned (generate_lem device_name files wk wc), inr refl)
  both_exist-Ensured device_name files (some key) (some certificate) ek ec readable wk wc known =
      let (left, e) = known certificate refl in
      let result = both_exist-some device_name key certificate files left readable e in
      elim (Bool-cases left) [
        | inl lasts ↦ (
          files,
          result ∙ rw lasts refl,
          inl (
            refl,
            record {
              key = key;
              certificate = certificate;
              has_key = ek;
              has_certificate = ec;
              lasts = e ∙ ap some lasts;
            },
          ),
        )
        | inr over ↦ (
          made device_name,
          result ∙ rw over (ap returned (generate_lem device_name files wk wc)),
          inr refl,
        )
      ]

  -- If both files can be written, cert.pem can be read and, where it is there, holds a certificate, and a
  -- certificate that is made now has not ended: then afterwards there is a key with a certificate that
  -- has not ended, either the two that were there, or a new key and a certificate for it in the
  -- device's name; and a second call changes nothing.
  pub ensure_cert_exists_lem :
      (device_name : List ℕ) (files : Identity)
      → can_read ≡ true
      → can_write_key ≡ true
      → can_write_certificate ≡ true
      → ((c : List ℕ) → files.certificate ≡ some c → (left : Bool) × (days_left c ≡ some left))
      → days_left (certify new_key device_name) ≡ some true
      → (out : Identity) × (ensure_cert_exists around device_name files ≡ returned out)
        × IsReady out
        × (((out ≡ files) × IsReady files) ⊎ (out ≡ made device_name))
        × (ensure_cert_exists around device_name out ≡ returned out)
  unfolding ensure_cert_exists
  ensure_cert_exists_lem device_name files readable wk wc known fresh =
      let (out, e, how) =
        both_exist-Ensured device_name files files.key files.certificate refl refl readable wk wc
          known in
      let ready : IsReady out = elim how [
        | inl (same, v) ↦ rw same v
        | inr new ↦ rw new (made-IsReady device_name fresh)
      ] in
      (out, e, ready, how, ensure_cert_exists-IsReady device_name out readable ready)
