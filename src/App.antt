-- ===== src/App.antt =====
-- include/NetTransfer.h and src/core/NetTransfer.cpp: the configuration, and which devices are trusted.
-- The two files of the configuration directory are part of the state (`none`: no such file, or one that
-- does not open). The key and the certificate are in App.Certificates.
pub mod Format
pub mod Trust
pub mod Fingerprint
pub mod Stored
pub mod Run
pub mod Offers
pub mod Machine
pub mod Certificates
pub mod Tests
use net_transfer.Base.{
  is_empty, ℕ, ◌+◌, ◌/◌, ◌%◌, Bool, true, false, List, [], ◌∷◌, ◌&&◌, Option, none, some, ltb,
  if◌then◌else◌,
}
use net_transfer.Protocol.{tcp_port_min}
use net_transfer.Discovery.{DiscoveryService}
use net_transfer.Discovery
use net_transfer.Transfer.Receiver.{TransferReceiver}
use net_transfer.App.Format.{Json}

pub record Config : Type 0 where
  pub device_name : List ℕ
  pub tcp_port : ℕ

-- A TransferSender as sendFile makes it, before its `start` runs on the io thread.
pub record Job : Type 0 where
  pub target_ip : List ℕ
  pub target_port : ℕ
  pub file_path : List ℕ
  pub device_name : List ℕ

pub record NetTransfer : Type 0 where
  pub config : Config
  pub config_file : Option (List ℕ)
  pub trusted_file : Option (List ℕ)
  pub pending_trust_flag : Bool
  pub pending_trust_fingerprint : List ℕ
  pub pending_trust_device_name : List ℕ
  -- a null pointer before `start`
  pub discovery : Option DiscoveryService
  pub receiver : Option TransferReceiver
  pub active_sender : Option Job
  -- the io thread runs
  pub is_running : Bool

-- The `onNewDevice` callback.
pub data Event : Type 0 where
  new_device : List ℕ → List ℕ → Event

-- An operation returns, or an exception leaves it; the files keep what was done to them. `undefined`: a
-- null pointer was dereferenced.
pub data Call (A : Type 0) : Type 0 where
  returned thrown : A → Call A
  undefined : Call A

-- "device_name" and "tcp_port"
abbrev pub device_name_key : List ℕ
device_name_key = 0x64 ∷ 0x65 ∷ 0x76 ∷ 0x69 ∷ 0x63 ∷ 0x65 ∷ 0x5F ∷ 0x6E ∷ 0x61 ∷ 0x6D ∷ 0x65 ∷ []

abbrev pub tcp_port_key : List ℕ
tcp_port_key = 0x74 ∷ 0x63 ∷ 0x70 ∷ 0x5F ∷ 0x70 ∷ 0x6F ∷ 0x72 ∷ 0x74 ∷ []

-- std::hex of a digit
unfoldable pub hex_digit : ℕ → ℕ
hex_digit d = if ltb d 10 then 0x30 + d else 0x57 + d

-- The loop of getCertFingerprint: two digits for each byte, with colons between.
unfoldable pub hex_text : List ℕ → List ℕ
hex_text [] = []
hex_text (b ∷ []) = hex_digit (b / 16) ∷ hex_digit (b % 16) ∷ []
hex_text (b ∷ c ∷ bs) = hex_digit (b / 16) ∷ hex_digit (b % 16) ∷ 0x3A ∷ hex_text (c ∷ bs)

-- getCertFingerprint, from the digest of the peer's certificate; `none` if there is no certificate, or
-- X509_digest fails.
unfoldable pub get_cert_fingerprint : Option (List ℕ) → List ℕ
unfolding hex_text
get_cert_fingerprint none = []
get_cert_fingerprint (some digest) = hex_text digest

module _ (json : Json) where
  open json use {
    Value, empty, parse, dump, is_keyed, contains, set_text, set_number, get_text, get_number,
  }

  -- The trust store that a file holds, `none` if it is corrupted: then both callers go on, the one
  -- with an empty store, the other with what was parsed.
  unfoldable pub read_store : Option (List ℕ) → Bool × Value
  read_store none = (true, empty)
  read_store (some text) = parse text

  abbrev known : Bool × Value → List ℕ → Bool
  known (true, store) fingerprint = contains store fingerprint
  known (false, store) fingerprint = contains empty fingerprint

  -- A fingerprint that the trust store has is accepted; another is left for the user to decide on.
  unfoldable pub decide : NetTransfer → List ℕ → List ℕ → Bool × NetTransfer × List Event
  unfolding read_store
  decide n [] device_name = (false, n, [])
  decide n (c ∷ cs) device_name =
      let fingerprint = c ∷ cs in
      if known (read_store n.trusted_file) fingerprint then (true, n, []) else (
        false,
        record n {
          pending_trust_fingerprint = fingerprint;
          pending_trust_device_name = device_name;
          pending_trust_flag = true;
        },
        new_device fingerprint device_name ∷ [],
      )

  unfoldable pub validate_peer_cert :
      NetTransfer → Option (List ℕ) → List ℕ → Bool × NetTransfer × List Event
  unfolding decide get_cert_fingerprint
  validate_peer_cert n digest device_name = decide n (get_cert_fingerprint digest) device_name

  -- std::ofstream empties the file before `dump`, which may throw. A file that does not open
  -- (`can_write` is false) takes nothing, and nobody asks.
  unfoldable pub write_store : NetTransfer → Bool → Option (List ℕ) → Call NetTransfer
  write_store n true (some text) =
      returned (record n { trusted_file = some text; pending_trust_flag = false })
  write_store n true none = thrown (record n { trusted_file = some [] })
  write_store n false (some text) = returned (record n { pending_trust_flag = false })
  write_store n false none = thrown n

  unfoldable pub trust_device : NetTransfer → Bool → Call NetTransfer
  unfolding read_store write_store
  trust_device n can_write =
      let store = (read_store n.trusted_file).1 in
      let store' = set_text store n.pending_trust_fingerprint n.pending_trust_device_name in
      if n.pending_trust_flag
      then (if is_keyed store then write_store n can_write (dump store') else thrown n)
      else returned n

  -- saveConfig, and whether the file was written.
  unfoldable pub save_config : NetTransfer → Bool → Call (Bool × NetTransfer)
  save_config n false = returned (false, n)
  save_config n true =
      let conf =
        set_number (set_text empty device_name_key n.config.device_name) tcp_port_key
          n.config.tcp_port in
      elim (dump conf) [
        | some text ↦ returned (true, record n { config_file = some text })
        | none ↦ thrown (false, record n { config_file = some [] })
      ]

  -- A failure to write is only logged.
  unfoldable pub set_device_name : NetTransfer → List ℕ → Bool → Call (Bool × NetTransfer)
  unfolding save_config
  set_device_name n name can_write =
      save_config
        (record n {
          config = record { device_name = name; tcp_port = n.config.tcp_port };
          discovery = elim n.discovery [
            | none ↦ none
            | some d ↦ some (Discovery.set_device_name d name)
          ];
        })
        can_write

  -- `config.device_name = conf["device_name"]` and then the port; a conversion may throw.
  unfoldable pub take_config : NetTransfer → Option (List ℕ) → Option ℕ → Call (Bool × NetTransfer)
  take_config n none port = thrown (false, n)
  take_config n (some name) none =
      thrown
        (false, record n { config = record { device_name = name; tcp_port = n.config.tcp_port } })
  take_config n (some name) (some port) =
      returned (true, record n { config = record { device_name = name; tcp_port = port } })

  unfoldable pub load_parsed : NetTransfer → Bool × Value → Call (Bool × NetTransfer)
  unfolding take_config
  load_parsed n (false, conf) = returned (false, n)
  load_parsed n (true, conf) =
      if contains conf device_name_key && contains conf tcp_port_key
      then take_config n (get_text conf device_name_key) (get_number conf tcp_port_key)
      else returned (false, n)

  unfoldable pub load_config : NetTransfer → Call (Bool × NetTransfer)
  unfolding load_parsed
  load_config n = elim n.config_file [
    | none ↦ returned (false, n)
    | some text ↦ load_parsed n (parse text)
  ]

unfoldable pub ignore_pending_trust : NetTransfer → NetTransfer
ignore_pending_trust n = record n { pending_trust_flag = false }

abbrev pub has_pending_trust : NetTransfer → Bool
has_pending_trust n = n.pending_trust_flag

-- The first step of NetTransfer::start: a configuration without a name gets one, "NetTransfer".
unfoldable pub default_config : NetTransfer → NetTransfer
default_config n =
    if is_empty n.config.device_name
    then record n {
      config = record {
        device_name =
            0x4E ∷ 0x65 ∷ 0x74 ∷ 0x54 ∷ 0x72 ∷ 0x61 ∷ 0x6E ∷ 0x73 ∷ 0x66 ∷ 0x65 ∷ 0x72 ∷ [];
        tcp_port = tcp_port_min;
      };
    }
    else n
