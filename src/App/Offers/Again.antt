-- ===== src/App/Offers/Again.antt =====
-- A peer that is unknown, trusted, and sends again.
use net_transfer.Base.{
  ℕ, ◌≡◌, refl, ap, ◌∙◌, Bool, true, false, List, [], ◌∷◌, ◌++◌, Option, some, same_refl, length,
}
use net_transfer.Protocol.{OfferPayload, IsWireOffer, header_size}
use net_transfer.Protocol.Offer.{serialize_offer}
use net_transfer.Transfer.Sender.{done}
use net_transfer.Transfer.Receiver.{TransferReceiver, accepting, offered, take_offer, store, listen}
use net_transfer.Transfer.Receiver
use net_transfer.App.{
  NetTransfer, Event, new_device, returned, validate_peer_cert, decide, known, read_store,
  trust_device, get_cert_fingerprint, hex_text,
}
use net_transfer.App.Format.{Json}
use net_transfer.App.Trust.{hex_text-cons, trust_device-validate_peer_cert}
use net_transfer.App.Offers.{answered, judged, on_offer}
use net_transfer.Transfer.Receiver.Offered.{on_offer-serialize_offer}

module _ (json : Json) (garbage : OfferPayload) where
  open json use {Value, dump, is_keyed, contains, set_text, parse_dump, contains_text}

  -- What NetTransfer answers about a certificate, in full.
  validate_peer_cert-unknown :
      (n : NetTransfer) (b : ℕ) (bs name : List ℕ)
      → known json (read_store json n.trusted_file) (hex_text (b ∷ bs)) ≡ false
      → validate_peer_cert json n (some (b ∷ bs)) name ≡ (
        false,
        record n {
          pending_trust_fingerprint = hex_text (b ∷ bs);
          pending_trust_device_name = name;
          pending_trust_flag = true;
        },
        new_device (hex_text (b ∷ bs)) name ∷ [],
      )
  unfolding validate_peer_cert get_cert_fingerprint decide
  validate_peer_cert-unknown n b bs name unknown =
      let (c, cs, e) = hex_text-cons b bs in rw (e, rw e at unknown, decide) refl

  validate_peer_cert-trusted :
      (n : NetTransfer) (b : ℕ) (bs name : List ℕ)
      → known json (read_store json n.trusted_file) (hex_text (b ∷ bs)) ≡ true
      → validate_peer_cert json n (some (b ∷ bs)) name ≡ (true, n, [])
  unfolding validate_peer_cert get_cert_fingerprint decide
  validate_peer_cert-trusted n b bs name trusted =
      let (c, cs, e) = hex_text-cons b bs in rw (e, rw e at trusted, decide) refl

  -- The NetTransfer that has turned an offer away, and its receiver.
  unfoldable pub turned_away :
      NetTransfer → TransferReceiver → OfferPayload → ℕ → List ℕ → NetTransfer
  turned_away n r op b bs = record n {
    pending_trust_fingerprint = hex_text (b ∷ bs);
    pending_trust_device_name = op.device_name;
    pending_trust_flag = true;
    receiver = some (record r {
      buffer = store header_size (serialize_offer op) r.buffer;
      pending_offer = op;
      file_size = op.file_size;
      pending = accepting;
    });
  }

  take_offer-answer :
      (valid : List ℕ → Bool) (r : TransferReceiver) (op : OfferPayload) (good : Bool)
      → valid op.device_name ≡ good
      → take_offer valid r op ≡ take_offer (λ name. good) r op
  unfolding take_offer
  take_offer-answer valid r op good e = rw e refl

  take_offer-pending_offer :
      (r : TransferReceiver) (op : OfferPayload) (good : Bool)
      → (take_offer (λ name. good) r op).0.pending_offer ≡ op
  unfolding take_offer listen
  take_offer-pending_offer r op true = refl
  take_offer-pending_offer r op false = refl

  take_offer-judged :
      (n : NetTransfer) (digest : Option (List ℕ)) (r : TransferReceiver) (op : OfferPayload)
      (name : List ℕ) (good : Bool)
      → judged json garbage n digest (take_offer (λ name'. good) r op).0.pending name
        ≡ validate_peer_cert json n digest name
  unfolding judged take_offer listen
  take_offer-judged n digest r op name true = refl
  take_offer-judged n digest r op name false = refl

  -- The handler, from what NetTransfer answers.
  on_offer-answer :
      (n : NetTransfer) (r : TransferReceiver) (op : OfferPayload) (header junk : List ℕ) (b : ℕ)
      (bs : List ℕ) (n' : NetTransfer) (good : Bool) (events : List Event)
      → IsWireOffer op
      → r.buffer ≡ header ++ junk
      → length header ≡ header_size
      → validate_peer_cert json n (some (b ∷ bs)) op.device_name ≡ (good, n', events)
      → let payload = serialize_offer op in
        on_offer json garbage n r (some (b ∷ bs)) (length payload) (done payload)
        ≡ answered json garbage
            (take_offer
              (λ name. good)
              (record r { buffer = store header_size payload r.buffer })
              op)
            (good, n', events)
  unfolding on_offer
  on_offer-answer n r op header junk b bs n' good events wire shape whole answer =
      let asks : List ℕ → Bool × NetTransfer × List Event =
        validate_peer_cert json n (some (b ∷ bs)) in
      let valid : List ℕ → Bool = λ name. (asks name).0 in
      let r' : TransferReceiver = record r {
        buffer = store header_size (serialize_offer op) r.buffer;
      } in
      let told = take_offer (λ name. good) r' op in
      let judges = judged json garbage n (some (b ∷ bs)) in
      ap
        (λ heard.
          answered json garbage heard (judges heard.0.pending heard.0.pending_offer.device_name))
        (on_offer-serialize_offer garbage valid r op header junk wire shape whole
          ∙ take_offer-answer valid r' op good (ap (λ v. v.0) answer))
      ∙ ap (λ o. answered json garbage told (judges told.0.pending o.device_name))
          (take_offer-pending_offer r' op good)
      ∙ ap (answered json garbage told)
          (take_offer-judged n (some (b ∷ bs)) r' op op.device_name good)
      ∙ ap (answered json garbage told) answer

  -- A peer with a certificate that the trust store does not have sends an offer, the user decides to
  -- trust it, and it sends again. If the store could be read, and the one with the new name can be
  -- printed and written, then at first the user is told nothing but that there is a new device, while
  -- the receiver accepts connections again; and the second offer, of any kind, is put before the user.
  pub on_offer_again :
      (n : NetTransfer) (r again : TransferReceiver) (op op' : OfferPayload)
      (header junk header' junk' : List ℕ) (b : ℕ) (bs : List ℕ) (v : Value) (text : List ℕ)
      → IsWireOffer op
      → IsWireOffer op'
      → r.buffer ≡ header ++ junk
      → length header ≡ header_size
      → again.buffer ≡ header' ++ junk'
      → length header' ≡ header_size
      → read_store json n.trusted_file ≡ (true, v)
      → is_keyed v ≡ true
      → contains v (hex_text (b ∷ bs)) ≡ false
      → dump (set_text v (hex_text (b ∷ bs)) op.device_name) ≡ some text
      → let payload = serialize_offer op in
        let payload' = serialize_offer op' in
        let n1 = turned_away n r op b bs in
        let n2 = record n1 { trusted_file = some text; pending_trust_flag = false } in
        (on_offer json garbage n r (some (b ∷ bs)) (length payload) (done payload)
          ≡ (n1, [], new_device (hex_text (b ∷ bs)) op.device_name ∷ []))
        × (trust_device json n1 true ≡ returned n2)
        × (on_offer json garbage n2 again (some (b ∷ bs)) (length payload') (done payload') ≡ (
          record n2 {
            receiver = some (record again {
              buffer = store header_size payload' again.buffer;
              pending_offer = op';
              file_size = op'.file_size;
              pending = offered;
            });
          },
          Receiver.offer op' ∷ [],
          [],
        ))
  unfolding take_offer listen answered turned_away read_store
  on_offer_again n r again op op' header junk header' junk' b bs v text wire wire' shape whole
        shape' whole' parsed keyed unknown printed =
      let fingerprint : List ℕ = hex_text (b ∷ bs) in
      let n1 : NetTransfer = turned_away n r op b bs in
      let n2 : NetTransfer = record n1 { trusted_file = some text; pending_trust_flag = false } in
      let away =
        validate_peer_cert-unknown n b bs op.device_name
          (ap (λ s. known json s fingerprint) parsed ∙ unknown) in
      let (trusts, lets_in) =
        trust_device-validate_peer_cert json n1 v text b bs op'.device_name refl parsed keyed
          printed in
      let stored : known json (read_store json (some text)) fingerprint ≡ true =
        ap (λ s. known json s fingerprint) (parse_dump _ text printed)
        ∙ contains_text v fingerprint op.device_name fingerprint keyed
        ∙ rw (same_refl fingerprint) refl in
      (
        on_offer-answer n r op header junk b bs _ false _ wire shape whole away,
        trusts,
        on_offer-answer n2 again op' header' junk' b bs n2 true [] wire' shape' whole'
            (validate_peer_cert-trusted n2 b bs op'.device_name stored),
      )
