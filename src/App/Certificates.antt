-- ===== src/App/Certificates.antt =====
-- ensureCertExists and getConfigPath of src/core/NetTransfer.cpp: when the key and the certificate are made
-- again. OpenSSL is not under src/: what it makes, and what it says of a file, are arguments.
pub mod Ensured
mod Tests
use net_transfer.Base.{
  ℕ, ◌≡◌, refl, ap, ◌∙◌, Bool, true, List, [], ◌∷◌, Option, none, some, if◌then◌else◌, ◌⊎◌, inl,
  inr, Bool-cases,
}
use net_transfer.Transfer.Platform.{Paths}
use net_transfer.App.{Call, returned, undefined}

-- key.pem and cert.pem, `none` if there is no such file.
pub record Identity : Type 0 where
  pub key : Option (List ℕ)
  pub certificate : Option (List ℕ)

-- OpenSSL and the files: a fresh key, the self-signed certificate for a key and a name, what
-- X509_cmp_current_time says of the end of a certificate (`none` if the file does not hold one; `true`
-- if it is to come), whether cert.pem opens for reading, and whether the two files open for writing.
pub record Surroundings : Type 0 where
  pub new_key : List ℕ
  pub certify : List ℕ → List ℕ → List ℕ
  pub days_left : List ℕ → Option Bool
  pub can_read : Bool
  pub can_write_key : Bool
  pub can_write_certificate : Bool

module _ (around : Surroundings) where
  open around use {new_key, certify, days_left, can_read, can_write_key, can_write_certificate}

  unfoldable pub write_certificate : List ℕ → List ℕ → Identity → Identity
  write_certificate key device_name files =
      if can_write_certificate
      then record files { certificate = some (certify key device_name) }
      else files

  -- A new key, and a certificate for it.
  unfoldable pub generate : List ℕ → Identity → Identity
  unfolding write_certificate
  generate device_name files =
      if can_write_key
      then write_certificate new_key device_name (record files { key = some new_key })
      else files

  -- X509_get_notAfter of a null pointer, where the file holds no certificate, is undefined; so are
  -- PEM_read_X509 and fclose on a file that did not open.
  unfoldable pub check_certificate : List ℕ → Identity → Option Bool → Call Identity
  unfolding generate
  check_certificate device_name files none = undefined
  check_certificate device_name files (some left) =
      returned (if left then files else generate device_name files)

  unfoldable pub both_exist : List ℕ → Identity → Option (List ℕ) → Option (List ℕ) → Call Identity
  unfolding check_certificate generate
  both_exist device_name files (some key) (some certificate) =
      if can_read then check_certificate device_name files (days_left certificate) else undefined
  both_exist device_name files none certificate = returned (generate device_name files)
  both_exist device_name files (some key) none = returned (generate device_name files)

  unfoldable pub ensure_cert_exists : List ℕ → Identity → Call Identity
  unfolding both_exist
  ensure_cert_exists device_name files = both_exist device_name files files.key files.certificate

abbrev pub config_dir : List ℕ
config_dir = 0x2E ∷ 0x63 ∷ 0x6F ∷ 0x6E ∷ 0x66 ∷ 0x69 ∷ 0x67 ∷ []

abbrev pub net_transfer_dir : List ℕ
net_transfer_dir = 0x4E ∷ 0x65 ∷ 0x74 ∷ 0x54 ∷ 0x72 ∷ 0x61 ∷ 0x6E ∷ 0x73 ∷ 0x66 ∷ 0x65 ∷ 0x72 ∷ []

-- getConfigPath, its branch for Linux, before the directory is created: `undefined` if there is no HOME
-- (std::filesystem::path of a null pointer). The texts are ".config", "NetTransfer" and "".
unfoldable pub get_config_path : Paths → Option (List ℕ) → Option (List ℕ) → Call (List ℕ)
get_config_path paths (some xdg) home = returned (paths.join (paths.join xdg net_transfer_dir) [])
get_config_path paths none (some home) =
    returned (paths.join (paths.join (paths.join home config_dir) net_transfer_dir) [])
get_config_path paths none none = undefined
