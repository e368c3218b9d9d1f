-- ===== src/App/Offers.antt =====
-- setOnValidateCert in NetTransfer::start of src/core/NetTransfer.cpp: the receiver asks NetTransfer about
-- the peer that sends an offer.
pub mod Again
pub mod Tests
use net_transfer.Base.{
  ℕ, ◌≡◌, refl, Bool, true, false, List, [], ◌∷◌, Option, none, some, Bool-cases, ◌⊎◌, inl, inr,
}
use net_transfer.Protocol.{OfferPayload}
use net_transfer.Transfer.Sender.{Completion, failed, done}
use net_transfer.Transfer.Receiver.{TransferReceiver, Notice}
use net_transfer.Transfer.Receiver
use net_transfer.App.{
  NetTransfer, Event, validate_peer_cert, decide, known, read_store, get_cert_fingerprint, hex_text,
}
use net_transfer.App.Format.{Json}

module _ (json : Json) where
  open json use {Value, contains, contains_empty}

  -- The trust store can be read and has the fingerprint of the certificate.
  abbrev pub IsTrusted : NetTransfer → Option (List ℕ) → Type 0
  IsTrusted n digest =
      (b : ℕ) × (bs : List ℕ) × (v : Value) × (digest ≡ some (b ∷ bs))
      × (read_store json n.trusted_file ≡ (true, v))
      × (contains v (hex_text (b ∷ bs)) ≡ true)

  store-known :
      (p : Bool × Value) (fingerprint : List ℕ)
      → known json p fingerprint ≡ true
      → (v : Value) × (p ≡ (true, v)) × (contains v fingerprint ≡ true)
  store-known (true, v) fingerprint k = (v, refl, k)
  store-known (false, v) fingerprint k = cc (k, contains_empty fingerprint)

  decide-known :
      (n : NetTransfer) (fingerprint name : List ℕ)
      → (decide json n fingerprint name).0 ≡ true
      → (v : Value) × (read_store json n.trusted_file ≡ (true, v)) × (contains v fingerprint ≡ true)
  unfolding decide
  decide-known n [] name h = cc
  decide-known n (c ∷ cs) name h =
      elim (Bool-cases (known json (read_store json n.trusted_file) (c ∷ cs))) [
        | inl hit ↦ store-known (read_store json n.trusted_file) (c ∷ cs) hit
        | inr miss ↦ cc (rw (miss, decide) at h)
      ]

  pub validate_peer_cert-IsTrusted :
      (n : NetTransfer) (digest : Option (List ℕ)) (name : List ℕ)
      → (validate_peer_cert json n digest name).0 ≡ true
      → IsTrusted n digest
  unfolding validate_peer_cert get_cert_fingerprint hex_text decide
  validate_peer_cert-IsTrusted n none name h = cc
  validate_peer_cert-IsTrusted n (some []) name h = cc
  validate_peer_cert-IsTrusted n (some (b ∷ bs)) name h =
      let (v, e, c) = decide-known n (hex_text (b ∷ bs)) name h in (b, bs, v, refl, e, c)

module _ (json : Json) (garbage : OfferPayload) where
  -- What the receiver and NetTransfer end with.
  unfoldable pub answered :
      TransferReceiver × List Notice
      → Bool × NetTransfer × List Event
      → NetTransfer × List Notice × List Event
  answered (r, notices) (valid, n, events) = (record n { receiver = some r }, notices, events)

  -- NetTransfer is asked, unless reading the offer was undefined behaviour.
  unfoldable pub judged :
      NetTransfer → Option (List ℕ) → Receiver.Pending → List ℕ → Bool × NetTransfer × List Event
  judged n digest Receiver.undefined name = (false, n, [])
  judged n digest _ name = validate_peer_cert json n digest name

  -- The handler of an offer's payload in a NetTransfer: `digest` is the hash of the peer's certificate.
  unfoldable pub on_offer :
      NetTransfer
      → TransferReceiver
      → Option (List ℕ)
      → ℕ
      → Completion
      → NetTransfer × List Notice × List Event
  unfolding answered judged
  on_offer n r digest len failed =
      let (r', notices) =
        Receiver.on_offer (λ name. (validate_peer_cert json n digest name).0) garbage r len
          failed in
      (record n { receiver = some r' }, notices, [])
  on_offer n r digest len (done bytes) =
      let heard =
        Receiver.on_offer (λ name. (validate_peer_cert json n digest name).0) garbage r len
          (done bytes) in
      answered heard (judged n digest heard.0.pending heard.0.pending_offer.device_name)

  -- What a handler of the receiver tells is nothing, or an offer of a peer that `valid` lets in.
  abbrev Vetted : (List ℕ → Bool) → List Notice → Type 0
  Vetted valid notices =
      (notices ≡ [])
      ⊎ ((op : OfferPayload) × (valid op.device_name ≡ true) × (notices ≡ Receiver.offer op ∷ []))
