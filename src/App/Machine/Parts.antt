-- ===== src/App/Machine/Parts.antt =====
-- What the operations of NetTransfer on its configuration and its trust store change.
use net_transfer.Base.{
  ℕ, ◌≡◌, refl, Bool, true, false, List, [], ◌∷◌, Option, none, some, inl, inr, Bool-cases,
  Option-cases, if◌then◌else◌,
}
use net_transfer.Protocol.{OfferPayload}
use net_transfer.Discovery.{DiscoveryService}
use net_transfer.Discovery
use net_transfer.Transfer.Receiver.{TransferReceiver, bind_port}
use net_transfer.Transfer.Receiver
use net_transfer.App.{
  NetTransfer, Call, returned, thrown, undefined, validate_peer_cert, decide, known, read_store,
  get_cert_fingerprint, trust_device, write_store, set_device_name, save_config, device_name_key,
  tcp_port_key,
}
use net_transfer.App.Format.{Json}
use net_transfer.App.Offers.{judged}
use net_transfer.App.Machine.{Leaves, by_return, by_exception}

-- What holds of the state that an operation leaves.
abbrev pub AfterCall : {A : Type 0} → (A → Type 0) → Call A → Type 0
AfterCall P (returned a) = P a
AfterCall P (thrown a) = P a
AfterCall P undefined = Unit {0}

pub Leaves-AfterCall :
    {A : Type 0} (P : A → Type 0) {c : Call A} {a : A} → AfterCall P c → Leaves c a → P a
Leaves-AfterCall P p (by_return a) = p
Leaves-AfterCall P p (by_exception a) = p

if-AfterCall :
    {A : Type 0} (P : A → Type 0) (b : Bool) (x y : Call A)
    → AfterCall P x
    → AfterCall P y
    → AfterCall P (if b then x else y)
if-AfterCall P true x y p q = p
if-AfterCall P false x y p q = q

-- The parts and the configuration are the same.
abbrev pub SameParts : NetTransfer → NetTransfer → Type 0
SameParts m k = (k.discovery ≡ m.discovery) × (k.receiver ≡ m.receiver) × (k.config ≡ m.config)

module _ (json : Json) where
  decide-SameParts :
      (n : NetTransfer) (fingerprint name : List ℕ) → SameParts n (decide json n fingerprint name).1
  unfolding decide
  decide-SameParts n [] name = (refl, refl, refl)
  decide-SameParts n (c ∷ cs) name =
      elim (Bool-cases (known json (read_store json n.trusted_file) (c ∷ cs))) [
        | inl hit ↦ rw (hit, decide) (refl, refl, refl)
        | inr miss ↦ rw (miss, decide) (refl, refl, refl)
      ]

  pub judged-SameParts :
      (garbage : OfferPayload) (n : NetTransfer) (digest : Option (List ℕ))
      (pending : Receiver.Pending) (name : List ℕ)
      → SameParts n (judged json garbage n digest pending name).1
  unfolding judged validate_peer_cert
  judged-SameParts garbage n digest Receiver.undefined name = (refl, refl, refl)
  judged-SameParts garbage n digest _ name = decide-SameParts n (get_cert_fingerprint digest) name

  write_store-SameParts :
      (n : NetTransfer) (can_write : Bool) (text : Option (List ℕ))
      → AfterCall (SameParts n) (write_store json n can_write text)
  unfolding write_store
  write_store-SameParts n true (some text) = (refl, refl, refl)
  write_store-SameParts n true none = (refl, refl, refl)
  write_store-SameParts n false (some text) = (refl, refl, refl)
  write_store-SameParts n false none = (refl, refl, refl)

  pub trust_device-SameParts :
      (n : NetTransfer) (can_write : Bool) → AfterCall (SameParts n) (trust_device json n can_write)
  unfolding trust_device
  trust_device-SameParts n can_write =
      let store = (read_store json n.trusted_file).1 in
      if-AfterCall (SameParts n) n.pending_trust_flag _ _
        (if-AfterCall (SameParts n) (json.is_keyed store) _ _ (write_store-SameParts n can_write _)
          (refl, refl, refl))
        (refl, refl, refl)

  -- Saving the configuration changes its file only.
  save_config-file :
      (n : NetTransfer) (can_write : Bool)
      → AfterCall
          (λ (c : Bool × NetTransfer).
            (file : Option (List ℕ)) × (c.1 ≡ record n { config_file = file }))
          (save_config json n can_write)
  unfolding save_config
  save_config-file n false = (n.config_file, refl)
  save_config-file n true =
      let conf =
        json.set_number (json.set_text json.empty device_name_key n.config.device_name) tcp_port_key
          n.config.tcp_port in
      elim (Option-cases (json.dump conf)) [
        | inl wrong ↦ rw (wrong, save_config) (some [], refl)
        | inr (text, printed) ↦ rw (printed, save_config) (some text, refl)
      ]

  -- A new name goes to the configuration, to the discovery service and to the configuration's file.
  abbrev pub renamed : NetTransfer → List ℕ → Option (List ℕ) → NetTransfer
  renamed n name file = record n {
    config = record { device_name = name; tcp_port = n.config.tcp_port };
    discovery = elim n.discovery [ none ↦ none | some d ↦ some (Discovery.set_device_name d name) ];
    config_file = file;
  }

  set_device_name-changes :
      (n : NetTransfer) (name : List ℕ) (can_write : Bool)
      → AfterCall
          (λ (c : Bool × NetTransfer). (file : Option (List ℕ)) × (c.1 ≡ renamed n name file))
          (set_device_name json n name can_write)
  unfolding set_device_name
  set_device_name-changes n name can_write =
      save_config-file (renamed n name n.config_file) can_write

  pub set_device_name-left :
      (n k : NetTransfer) (name : List ℕ) (can_write fine : Bool)
      → Leaves (set_device_name json n name can_write) (fine, k)
      → (file : Option (List ℕ)) × (k ≡ renamed n name file)
  set_device_name-left n k name can_write fine left =
      Leaves-AfterCall
        (λ (c : Bool × NetTransfer). (file : Option (List ℕ)) × (c.1 ≡ renamed n name file))
        (set_device_name-changes n name can_write) left
