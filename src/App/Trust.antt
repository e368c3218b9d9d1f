-- ===== src/App/Trust.antt =====
-- Which peers validate_peer_cert lets in.
use net_transfer.Base.{
  ℕ, ◌≡◌, refl, ap, sym, ◌∙◌, true, false, List, [], ◌∷◌, ◌||◌, Option, none, some, same,
  Bool-cases, inl, inr,
}
use net_transfer.App.{
  NetTransfer, returned, thrown, validate_peer_cert, decide, known, read_store, trust_device,
  write_store, get_cert_fingerprint, hex_text, ignore_pending_trust,
}
use net_transfer.App.Format.{Json}

-- What may happen between two decisions to trust.
data Step : Type 0 where
  visit : Option (List ℕ) → List ℕ → Step
  ignore : Step

-- The fingerprint of a certificate is not empty.
pub hex_text-cons : (b : ℕ) (bs : List ℕ) → (c : ℕ) × (cs : List ℕ) × (hex_text (b ∷ bs) ≡ c ∷ cs)
unfolding hex_text
hex_text-cons b [] = (_, _, refl)
hex_text-cons b (c ∷ bs) = (_, _, refl)

module _ (json : Json) where
  open json use {
    Value, empty, parse, dump, is_keyed, contains, set_text, parse_dump, contains_text,
    contains_empty,
  }

  unfoldable run : NetTransfer → List Step → NetTransfer
  run n [] = n
  run n (visit digest name ∷ steps) = run (validate_peer_cert json n digest name).1 steps
  run n (ignore ∷ steps) = run (ignore_pending_trust n) steps

  decide-known :
      (n : NetTransfer) (fingerprint name : List ℕ) (c : ℕ) (cs : List ℕ)
      → fingerprint ≡ c ∷ cs
      → (decide json n fingerprint name).0 ≡ known json (read_store json n.trusted_file) fingerprint
  unfolding decide
  decide-known n fingerprint name c cs e =
      let store = read_store json n.trusted_file in
      elim (Bool-cases (known json store (c ∷ cs))) [
        | inl hit ↦ rw (e, hit, decide) refl
        | inr miss ↦ rw (e, miss, decide) refl
      ]

  validate_peer_cert-known :
      (n : NetTransfer) (b : ℕ) (bs name : List ℕ)
      → (validate_peer_cert json n (some (b ∷ bs)) name).0
        ≡ known json (read_store json n.trusted_file) (hex_text (b ∷ bs))
  unfolding validate_peer_cert get_cert_fingerprint
  validate_peer_cert-known n b bs name =
      let (c, cs, e) = hex_text-cons b bs in decide-known n (hex_text (b ∷ bs)) name c cs e

  pub decide-file :
      (n : NetTransfer) (fingerprint name : List ℕ)
      → (decide json n fingerprint name).1.trusted_file ≡ n.trusted_file
  unfolding decide
  decide-file n [] name = refl
  decide-file n (c ∷ cs) name =
      let store = read_store json n.trusted_file in
      elim (Bool-cases (known json store (c ∷ cs))) [
        | inl hit ↦ rw (hit, decide) refl
        | inr miss ↦ rw (miss, decide) refl
      ]

  run-file : (n : NetTransfer) (steps : List Step) → (run n steps).trusted_file ≡ n.trusted_file
  unfolding run validate_peer_cert ignore_pending_trust
  run-file n [] = refl
  run-file n (visit digest name ∷ steps) =
      run-file (validate_peer_cert json n digest name).1 steps
      ∙ decide-file n (get_cert_fingerprint digest) name
  run-file n (ignore ∷ steps) = run-file (ignore_pending_trust n) steps

  -- However many peers come, and however often the user ignores them: without trustDevice, a peer with a
  -- certificate is answered as it was before.
  run-validate_peer_cert :
      (n : NetTransfer) (steps : List Step) (b : ℕ) (bs name : List ℕ)
      → (validate_peer_cert json (run n steps) (some (b ∷ bs)) name).0
        ≡ (validate_peer_cert json n (some (b ∷ bs)) name).0
  run-validate_peer_cert n steps b bs name =
      validate_peer_cert-known (run n steps) b bs name
      ∙ ap (λ file. known json (read_store json file) (hex_text (b ∷ bs))) (run-file n steps)
      ∙ sym (validate_peer_cert-known n b bs name)

  -- With a device pending, a trust store that parses to an object, and a new store that can be printed
  -- and written: trustDevice returns, and then a peer with a certificate is let in exactly if it
  -- has the pending fingerprint or was let in before.
  pub trust_device-validate_peer_cert :
      (n : NetTransfer) (store : Value) (text : List ℕ) (b : ℕ) (bs name : List ℕ)
      → n.pending_trust_flag ≡ true
      → read_store json n.trusted_file ≡ (true, store)
      → is_keyed store ≡ true
      → dump (set_text store n.pending_trust_fingerprint n.pending_trust_device_name) ≡ some text
      → let n' = record n { trusted_file = some text; pending_trust_flag = false } in
        (trust_device json n true ≡ returned n')
        × ((validate_peer_cert json n' (some (b ∷ bs)) name).0 ≡ (
            same n.pending_trust_fingerprint (hex_text (b ∷ bs))
            || (validate_peer_cert json n (some (b ∷ bs)) name).0))
  unfolding trust_device write_store read_store
  trust_device-validate_peer_cert n store text b bs name pending parsed keyed printed =
      let n' : NetTransfer = record n { trusted_file = some text; pending_trust_flag = false } in
      let fingerprint : List ℕ = hex_text (b ∷ bs) in
      let before =
        validate_peer_cert-known n b bs name ∙ ap (λ s. known json s fingerprint) parsed in
      (
        rw (trust_device, pending, parsed, keyed, printed) refl,
        validate_peer_cert-known n' b bs name
            ∙ ap (λ s. known json s fingerprint) (parse_dump _ text printed)
            ∙ contains_text store n.pending_trust_fingerprint n.pending_trust_device_name
                fingerprint keyed
            ∙ ap (λ x. same n.pending_trust_fingerprint fingerprint || x) (sym before),
      )

  -- With a device pending, a trust store that parses to an object and whose file opens for writing: if the
  -- name of the device cannot be printed, then the exception finds the store already emptied, and
  -- nobody is let in any more, whoever was before. (An empty file does not parse.)
  pub trust_device_empties :
      (n : NetTransfer) (store partial : Value) (b : ℕ) (bs name : List ℕ)
      → n.pending_trust_flag ≡ true
      → read_store json n.trusted_file ≡ (true, store)
      → is_keyed store ≡ true
      → dump (set_text store n.pending_trust_fingerprint n.pending_trust_device_name) ≡ none
      → parse [] ≡ (false, partial)
      → let n' = record n { trusted_file = some [] } in
        (trust_device json n true ≡ thrown n')
        × ((validate_peer_cert json n' (some (b ∷ bs)) name).0 ≡ false)
  unfolding trust_device write_store read_store
  trust_device_empties n store partial b bs name pending parsed keyed printed ill_formed =
      let n' : NetTransfer = record n { trusted_file = some [] } in
      let fingerprint : List ℕ = hex_text (b ∷ bs) in
      (
        rw (trust_device, pending, parsed, keyed, printed) refl,
        validate_peer_cert-known n' b bs name
            ∙ ap (λ s. known json s fingerprint) ill_formed
            ∙ contains_empty fingerprint,
      )

  decide-unknown :
      (n : NetTransfer) (fingerprint name : List ℕ) (c : ℕ) (cs : List ℕ)
      → fingerprint ≡ c ∷ cs
      → known json (read_store json n.trusted_file) fingerprint ≡ false
      → (decide json n fingerprint name).1 ≡ record n {
        pending_trust_fingerprint = fingerprint;
        pending_trust_device_name = name;
        pending_trust_flag = true;
      }
  unfolding decide
  decide-unknown n fingerprint name c cs e unknown = rw (e, rw e at unknown, decide) refl

  -- An unknown peer takes the place of whoever was pending.
  pub validate_peer_cert-unknown :
      (n : NetTransfer) (b : ℕ) (bs name : List ℕ)
      → (validate_peer_cert json n (some (b ∷ bs)) name).0 ≡ false
      → (validate_peer_cert json n (some (b ∷ bs)) name).1 ≡ record n {
        pending_trust_fingerprint = hex_text (b ∷ bs);
        pending_trust_device_name = name;
        pending_trust_flag = true;
      }
  unfolding validate_peer_cert get_cert_fingerprint
  validate_peer_cert-unknown n b bs name unknown =
      let (c, cs, e) = hex_text-cons b bs in
      decide-unknown n (hex_text (b ∷ bs)) name c cs e
        (sym (validate_peer_cert-known n b bs name) ∙ unknown)

  -- The trust store, and whether a peer is known, do not depend on whom was asked about.
  pub asked_about :
      (n : NetTransfer) (a : ℕ) (cs name : List ℕ)
      → let n' = (validate_peer_cert json n (some (a ∷ cs)) name).1 in
        (n'.trusted_file ≡ n.trusted_file)
        × ((b : ℕ) (bs other : List ℕ)
            → (validate_peer_cert json n' (some (b ∷ bs)) other).0
              ≡ (validate_peer_cert json n (some (b ∷ bs)) other).0)
  unfolding run
  asked_about n a cs name =
      let steps : List Step = visit (some (a ∷ cs)) name ∷ [] in
      (run-file n steps, λ b bs other. run-validate_peer_cert n steps b bs other)
