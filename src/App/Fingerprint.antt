-- ===== src/App/Fingerprint.antt =====
-- Fingerprints of src/core/NetTransfer.cpp, the digests that they come from, and whom trustDevice lets in.
use net_transfer.Base.{
  ℕ, ◌/◌, ◌%◌, ◌<◌, ◌≡◌, ◌≢◌, ◌∙◌, refl, ap, sym, arith, Option, Bool, true, false, List, [], ◌∷◌,
  some, same, same_refl, same→eq, Bool-cases, inl, inr, All,
}
use net_transfer.Protocol.{IsByte}
use net_transfer.App.{
  NetTransfer, returned, validate_peer_cert, trust_device, read_store, hex_digit, hex_text,
}
use net_transfer.App.Format.{Json}
use net_transfer.App.Trust.{
  trust_device-validate_peer_cert, validate_peer_cert-unknown, asked_about,
}

hex_digit_injective : (a b : ℕ) → hex_digit a ≡ hex_digit b → a < 16 → b < 16 → a ≡ b
unfolding hex_digit
hex_digit_injective a b e ha hb = ground arith

byte_of_digits :
    (a b : ℕ)
    → IsByte a
    → IsByte b
    → hex_digit (a / 16) ≡ hex_digit (b / 16)
    → hex_digit (a % 16) ≡ hex_digit (b % 16)
    → a ≡ b
byte_of_digits a b ha hb high low =
    let h = hex_digit_injective (a / 16) (b / 16) high (omega arith) (omega arith) in
    let l = hex_digit_injective (a % 16) (b % 16) low (omega arith) (omega arith) in
    omega (arith, h, l)

-- Digests with one fingerprint are equal.
hex_text_injective :
    (xs ys : List ℕ) → All IsByte xs → All IsByte ys → hex_text xs ≡ hex_text ys → xs ≡ ys
unfolding hex_text
hex_text_injective [] [] hx hy e = refl
hex_text_injective [] (y ∷ []) hx hy e = cc
hex_text_injective [] (y ∷ y' ∷ ys) hx hy e = cc
hex_text_injective (x ∷ []) [] hx hy e = cc
hex_text_injective (x ∷ x' ∷ xs) [] hx hy e = cc
hex_text_injective (x ∷ []) (y ∷ y' ∷ ys) hx hy e = cc
hex_text_injective (x ∷ x' ∷ xs) (y ∷ []) hx hy e = cc
hex_text_injective (x ∷ []) (y ∷ []) hx hy e =
    let high : hex_digit (x / 16) ≡ hex_digit (y / 16) = cc in
    let low : hex_digit (x % 16) ≡ hex_digit (y % 16) = cc in
    let same_byte : x ≡ y = byte_of_digits x y hx.0 hy.0 high low in cc
hex_text_injective (x ∷ x' ∷ xs) (y ∷ y' ∷ ys) hx hy e =
    let high : hex_digit (x / 16) ≡ hex_digit (y / 16) = cc in
    let low : hex_digit (x % 16) ≡ hex_digit (y % 16) = cc in
    let rest : hex_text (x' ∷ xs) ≡ hex_text (y' ∷ ys) = cc in
    let same_byte : x ≡ y = byte_of_digits x y hx.0 hy.0 high low in
    let same_rest : x' ∷ xs ≡ y' ∷ ys = hex_text_injective (x' ∷ xs) (y' ∷ ys) hx.1 hy.1 rest in cc

module _ (json : Json) where
  open json use {Value, dump, is_keyed, set_text}

  -- A device that the user was asked about, by the digest of its certificate, is trusted: if the trust
  -- store parses to an object, and the new one can be printed and written, then the device is let in,
  -- and a device with any other digest is answered as it was before, whatever their names are.
  pub trust_device_others :
      (n : NetTransfer) (store : Value) (text : List ℕ) (x b : ℕ) (xs bs name other : List ℕ)
      → n.pending_trust_flag ≡ true
      → n.pending_trust_fingerprint ≡ hex_text (x ∷ xs)
      → read_store json n.trusted_file ≡ (true, store)
      → is_keyed store ≡ true
      → dump (set_text store n.pending_trust_fingerprint n.pending_trust_device_name) ≡ some text
      → All IsByte (x ∷ xs)
      → All IsByte (b ∷ bs)
      → x ∷ xs ≢ b ∷ bs
      → let n' = record n { trusted_file = some text; pending_trust_flag = false } in
        (trust_device json n true ≡ returned n')
        × ((validate_peer_cert json n' (some (x ∷ xs)) name).0 ≡ true)
        × ((validate_peer_cert json n' (some (b ∷ bs)) other).0
            ≡ (validate_peer_cert json n (some (b ∷ bs)) other).0)
  trust_device_others n store text x b xs bs name other pending asked parsed keyed printed hx hb
        ne =
      let (trusted, first) =
        trust_device-validate_peer_cert json n store text x xs name pending parsed keyed printed in
      let (_, second) =
        trust_device-validate_peer_cert json n store text b bs other pending parsed keyed printed in
      let before : Bool = (validate_peer_cert json n (some (b ∷ bs)) other).0 in
      (
        trusted,
        first ∙ rw (asked, same_refl (hex_text (x ∷ xs))) refl,
        elim (Bool-cases (same (hex_text (x ∷ xs)) (hex_text (b ∷ bs)))) [
          | inl one ↦ absurd (
              ne (
                hex_text_injective (x ∷ xs) (b ∷ bs) hx hb
                  (same→eq (hex_text (x ∷ xs)) (hex_text (b ∷ bs)) one)))
          | inr two ↦ second ∙ rw (asked, two) refl
        ],
      )

  -- Two peers with different certificates, both unknown, are turned away one after the other, and then the
  -- user decides to trust: if the trust store parses to an object, and the one with the second can be
  -- printed and written, then trustDevice returns, the second peer is let in, and the first, which the
  -- user was asked about before, is turned away as it was.
  pub trust_device_last :
      (n : NetTransfer) (store : Value) (text : List ℕ) (a b : ℕ) (cs bs first second : List ℕ)
      → (validate_peer_cert json n (some (a ∷ cs)) first).0 ≡ false
      → (validate_peer_cert json n (some (b ∷ bs)) second).0 ≡ false
      → read_store json n.trusted_file ≡ (true, store)
      → is_keyed store ≡ true
      → dump (set_text store (hex_text (b ∷ bs)) second) ≡ some text
      → All IsByte (a ∷ cs)
      → All IsByte (b ∷ bs)
      → a ∷ cs ≢ b ∷ bs
      → let n1 = (validate_peer_cert json n (some (a ∷ cs)) first).1 in
        let n2 = (validate_peer_cert json n1 (some (b ∷ bs)) second).1 in
        let n' = record n2 { trusted_file = some text; pending_trust_flag = false } in
        (n1.pending_trust_flag ≡ true)
        × (n1.pending_trust_fingerprint ≡ hex_text (a ∷ cs))
        × (trust_device json n2 true ≡ returned n')
        × ((validate_peer_cert json n' (some (b ∷ bs)) second).0 ≡ true)
        × ((validate_peer_cert json n' (some (a ∷ cs)) first).0 ≡ false)
  trust_device_last n store text a b cs bs first second unknown_a unknown_b parsed keyed printed ha
        hb ne =
      let n1 : NetTransfer = (validate_peer_cert json n (some (a ∷ cs)) first).1 in
      let n2 : NetTransfer = (validate_peer_cert json n1 (some (b ∷ bs)) second).1 in
      let (file1, same1) = asked_about json n a cs first in
      let (file2, same2) = asked_about json n1 b bs second in
      let now1 = validate_peer_cert-unknown json n a cs first unknown_a in
      let now2 = validate_peer_cert-unknown json n1 b bs second (same1 b bs second ∙ unknown_b) in
      let print : List ℕ → List ℕ → Option (List ℕ) = λ f name. dump (set_text store f name) in
      let (trusted, let_in, other) =
        trust_device_others n2 store text b a bs cs second first
          (ap (λ m. m.pending_trust_flag) now2) (ap (λ m. m.pending_trust_fingerprint) now2)
          (ap (read_store json) (file2 ∙ file1) ∙ parsed) keyed
          (ap (λ m. print m.pending_trust_fingerprint m.pending_trust_device_name) now2 ∙ printed)
          hb ha (λ e. ne (sym e)) in
      (
        ap (λ m. m.pending_trust_flag) now1,
        ap (λ m. m.pending_trust_fingerprint) now1,
        trusted,
        let_in,
        other ∙ same2 a cs first ∙ same1 a cs first ∙ unknown_a,
      )
