-- ===== src/App/Machine/Untouched.antt =====
-- The operations of NetTransfer that leave its trust store, its files and its user alone.
use net_transfer.Base.{
  ℕ, ◌≡◌, refl, ◌∙◌, Bool, true, false, List, Option, none, some, inl, inr, Bool-cases,
  Option-cases,
}
use net_transfer.Protocol.{OfferPayload}
use net_transfer.Discovery.{DiscoveryService}
use net_transfer.Discovery
use net_transfer.Transfer.Sender.{Completion, failed, done}
use net_transfer.Transfer.Receiver.{TransferReceiver, Notice, idle}
use net_transfer.Transfer.Receiver
use net_transfer.Transfer.Receiver.Machine.Untouched.{on_offer-Same}
use net_transfer.Transfer.Receiver.Machine.Unasked.{IsUnasked, on_offer-IsUnasked}
use net_transfer.App.{NetTransfer, validate_peer_cert, get_cert_fingerprint}
use net_transfer.App.Format.{Json}
use net_transfer.App.Trust.{decide-file}
use net_transfer.App.Offers.{IsTrusted, validate_peer_cert-IsTrusted, answered, judged, on_offer}
use net_transfer.App.Run.{stop, stop_parts}
use net_transfer.App.Machine.Parts.{AfterCall}

-- The trust store and the files are those of the beginning, and the user has not been asked.
pub record Untouched (n : NetTransfer) (r : TransferReceiver) (m : NetTransfer) : Type 0 where
  pub same_store : m.trusted_file ≡ n.trusted_file
  pub now : TransferReceiver
  pub has_receiver : m.receiver ≡ some now
  pub same_disk : now.disk ≡ r.disk
  pub unasked : IsUnasked now.pending

pub keep-Untouched :
    {n m k : NetTransfer} {r : TransferReceiver}
    → Untouched n r m
    → k.receiver ≡ m.receiver
    → k.trusted_file ≡ m.trusted_file
    → Untouched n r k
keep-Untouched u receiver store = record {
  same_store = store ∙ u.same_store;
  now = u.now;
  has_receiver = receiver ∙ u.has_receiver;
  same_disk = u.same_disk;
  unasked = u.unasked;
}

stop_parts-Untouched :
    (n m : NetTransfer) (r : TransferReceiver) (udp_closed tcp_closed : Bool) (d : DiscoveryService)
    (u : Untouched n r m)
    → AfterCall
        (λ (c : Bool × NetTransfer). Untouched n r c.1)
        (stop_parts m udp_closed tcp_closed d u.now)
unfolding stop_parts Discovery.stop Receiver.stop
stop_parts-Untouched n m r false tcp_closed d u = u
stop_parts-Untouched n m r true false d u = keep-Untouched u refl refl
stop_parts-Untouched n m r true true d u =
    let closed : TransferReceiver = record u.now { file = none } in
    elim (Bool-cases m.is_running) [
      | inl running ↦
          rw (running, stop_parts)
            (record {
              same_store = u.same_store;
              now = closed;
              has_receiver = refl;
              same_disk = u.same_disk;
              unasked = u.unasked;
            })
      | inr stopped ↦
          rw (stopped, stop_parts)
            (record {
              same_store = u.same_store;
              now = closed;
              has_receiver = refl;
              same_disk = u.same_disk;
              unasked = u.unasked;
            })
    ]

pub stop-Untouched :
    (n m : NetTransfer) (r : TransferReceiver) (udp_closed tcp_closed : Bool)
    → Untouched n r m
    → AfterCall (λ (c : Bool × NetTransfer). Untouched n r c.1) (stop m udp_closed tcp_closed)
unfolding stop
stop-Untouched n m r udp_closed tcp_closed u = elim (Option-cases m.discovery) [
  | inl missing ↦ rw (missing, stop) tt
  | inr (d, has_discovery) ↦
      rw (has_discovery, u.has_receiver, stop)
        (stop_parts-Untouched n m r udp_closed tcp_closed d u)
]

module _ (json : Json) where
  validate_peer_cert-file :
      (n : NetTransfer) (digest : Option (List ℕ)) (name : List ℕ)
      → (validate_peer_cert json n digest name).1.trusted_file ≡ n.trusted_file
  unfolding validate_peer_cert
  validate_peer_cert-file n digest name = decide-file json n (get_cert_fingerprint digest) name

  judged-file :
      (garbage : OfferPayload) (n : NetTransfer) (digest : Option (List ℕ))
      (pending : Receiver.Pending) (name : List ℕ)
      → (judged json garbage n digest pending name).1.trusted_file ≡ n.trusted_file
  unfolding judged
  judged-file garbage n digest Receiver.undefined name = refl
  judged-file garbage n digest _ name = validate_peer_cert-file n digest name

  unknown-refused :
      (n m : NetTransfer) (digest : Option (List ℕ)) (name : List ℕ)
      → m.trusted_file ≡ n.trusted_file
      → (¬ IsTrusted json n digest)
      → (validate_peer_cert json m digest name).0 ≡ false
  unknown-refused n m digest name store unknown =
      elim (Bool-cases (validate_peer_cert json m digest name).0) [
        | inl good ↦
            absurd (unknown (rw (← store) (validate_peer_cert-IsTrusted json m digest name good)))
        | inr bad ↦ bad
      ]

  -- The offer of such a peer.
  pub on_offer-Untouched :
      (n m : NetTransfer) (r s : TransferReceiver) (garbage : OfferPayload) (k : ℕ)
      (digest : Option (List ℕ)) (c : Completion)
      → m.trusted_file ≡ n.trusted_file
      → s.disk ≡ r.disk
      → (¬ IsTrusted json n digest)
      → Untouched n r (on_offer json garbage m s digest k c).0
  unfolding on_offer answered
  on_offer-Untouched n m r s garbage k digest failed store disk unknown =
      let valid : List ℕ → Bool = λ name. (validate_peer_cert json m digest name).0 in
      let turns = λ (name : List ℕ). unknown-refused n m digest name store unknown in
      record {
        same_store = store;
        now = (Receiver.on_offer valid garbage s k failed).0;
        has_receiver = refl;
        same_disk = (on_offer-Same valid garbage s k failed).same_disk ∙ disk;
        unasked = on_offer-IsUnasked valid garbage s k failed turns;
      }
  on_offer-Untouched n m r s garbage k digest (done bytes) store disk unknown =
      let valid : List ℕ → Bool = λ name. (validate_peer_cert json m digest name).0 in
      let turns = λ (name : List ℕ). unknown-refused n m digest name store unknown in
      record {
        same_store = judged-file garbage m digest _ _ ∙ store;
        now = (Receiver.on_offer valid garbage s k (done bytes)).0;
        has_receiver = refl;
        same_disk = (on_offer-Same valid garbage s k (done bytes)).same_disk ∙ disk;
        unasked = on_offer-IsUnasked valid garbage s k (done bytes) turns;
      }
