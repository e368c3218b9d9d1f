-- ===== src/App/Tests.antt =====
-- The theorems on trust and configuration, with a small format in the place of JSON.
use net_transfer.Base.{
  ℕ, zero, suc, ◌≡◌, refl, arith, Bool, true, false, List, [], ◌∷◌, ◌++◌, ◌||◌, Option, none, some,
  same, same_refl, if◌then◌else◌, length, take, drop, take-append, drop-append,
}
use net_transfer.App.{
  NetTransfer, returned, thrown, validate_peer_cert, trust_device, read_store, hex_text, hex_digit,
  decide, get_cert_fingerprint,
}
use net_transfer.App.Format.{Json}
use net_transfer.App.Fingerprint.{trust_device_others, trust_device_last}
use net_transfer.App.Trust.{trust_device_empties}

pub data Entry : Type 0 where
  text : List ℕ → List ℕ → Entry
  number : List ℕ → ℕ → Entry

abbrev has : List Entry → List ℕ → Bool
has [] g = false
has (text k x ∷ es) g = same k g || has es g
has (number k n ∷ es) g = same k g || has es g

abbrev text_of : List Entry → List ℕ → Option (List ℕ)
text_of [] g = none
text_of (text k x ∷ es) g = let rest = text_of es g in if same k g then some x else rest
text_of (number k n ∷ es) g = let rest = text_of es g in if same k g then none else rest

abbrev number_of : List Entry → List ℕ → Option ℕ
number_of [] g = none
number_of (text k x ∷ es) g = let rest = number_of es g in if same k g then none else rest
number_of (number k n ∷ es) g = let rest = number_of es g in if same k g then some n else rest

-- One text, or a number on a text: other values have no print.
abbrev print : List Entry → Option (List ℕ)
print (text k x ∷ []) = some (0 ∷ length k ∷ (k ++ x))
print (number k n ∷ text j x ∷ []) = some (1 ∷ n ∷ length k ∷ length j ∷ (k ++ (j ++ x)))
print _ = none

abbrev scan : List ℕ → Bool × List Entry
scan (zero ∷ m ∷ ts) = (true, text (take m ts) (drop m ts) ∷ [])
scan (suc zero ∷ n ∷ m ∷ l ∷ ts) =
    (true, number (take m ts) n ∷ text (take l (drop m ts)) (drop l (drop m ts)) ∷ [])
scan _ = (false, [])

pub scan-print : (v : List Entry) (t : List ℕ) → print v ≡ some t → scan t ≡ (true, v)
scan-print [] t e = cc
scan-print (text k x ∷ []) t e =
    let whole : 0 ∷ length k ∷ (k ++ x) ≡ t = cc in
    rw (← whole) (rw (take-append k x, drop-append k x) refl)
scan-print (text k x ∷ f ∷ es) t e = cc
scan-print (number k n ∷ []) t e = cc
scan-print (number k n ∷ text j x ∷ []) t e =
    let whole : 1 ∷ n ∷ length k ∷ length j ∷ (k ++ (j ++ x)) ≡ t = cc in
    rw (← whole)
      (rw (take-append k (j ++ x), drop-append k (j ++ x), take-append j x, drop-append j x) refl)
scan-print (number k n ∷ text j x ∷ f ∷ es) t e = cc
scan-print (number k n ∷ number j m ∷ es) t e = cc

abbrev pub entries : Json
entries = record {
  Value = List Entry;
  empty = [];
  parse = scan;
  dump = print;
  is_keyed = λ v. true;
  contains = has;
  set_text = λ v k x. text k x ∷ v;
  set_number = λ v k n. number k n ∷ v;
  get_text = text_of;
  get_number = number_of;
  parse_dump = scan-print;
  empty_keyed = refl;
  contains_empty = λ k. refl;
  text_keyed = λ v k x. refl;
  number_keyed = λ v k n. refl;
  contains_text = λ v k x g h. refl;
  contains_number = λ v k n g h. refl;
  get_text_number = λ v k n g e. rw e refl;
  get_text_text = λ v k x. rw (same_refl k) refl;
  get_number_number = λ v k n. rw (same_refl k) refl;
}

abbrev pub desk : NetTransfer
desk = record {
  config = record { device_name = 0x64 ∷ []; tcp_port = 50001 };
  config_file = none;
  trusted_file = none;
  pending_trust_flag = true;
  pending_trust_fingerprint = 0x30 ∷ 0x37 ∷ [];
  pending_trust_device_name = 0x70 ∷ [];
  discovery = none;
  receiver = none;
  active_sender = none;
  is_running = false;
}

abbrev one_trusted : List ℕ
one_trusted = 0 ∷ 2 ∷ 0x30 ∷ 0x37 ∷ 0x70 ∷ []

-- With a store of one device a second does not print.
abbrev full : NetTransfer
full = record desk { trusted_file = some one_trusted }

abbrev emptied : NetTransfer
emptied = record full { trusted_file = some [] }

trust_device_empties_example :
    (trust_device entries full true ≡ thrown emptied)
    × ((validate_peer_cert entries emptied (some (7 ∷ [])) (0x70 ∷ [])).0 ≡ false)
trust_device_empties_example =
    trust_device_empties entries full (text (0x30 ∷ 0x37 ∷ []) (0x70 ∷ []) ∷ []) [] 7 [] (0x70 ∷ [])
      refl (unfold read_store in refl) refl refl refl

-- The peer whose digest is 8 comes first, then the one whose digest is 9.
abbrev after_one : NetTransfer
after_one = (validate_peer_cert entries desk (some (8 ∷ [])) (0x71 ∷ [])).1

abbrev after_two : NetTransfer
after_two = (validate_peer_cert entries after_one (some (9 ∷ [])) (0x72 ∷ [])).1

abbrev second_trusted : List ℕ
second_trusted = 0 ∷ 2 ∷ 0x30 ∷ 0x39 ∷ 0x72 ∷ []

trust_device_last_example :
    let n' = record after_two { trusted_file = some second_trusted; pending_trust_flag = false } in
    (after_one.pending_trust_flag ≡ true)
    × (after_one.pending_trust_fingerprint ≡ hex_text (8 ∷ []))
    × (trust_device entries after_two true ≡ returned n')
    × ((validate_peer_cert entries n' (some (9 ∷ [])) (0x72 ∷ [])).0 ≡ true)
    × ((validate_peer_cert entries n' (some (8 ∷ [])) (0x71 ∷ [])).0 ≡ false)
trust_device_last_example =
    trust_device_last entries desk [] second_trusted 8 9 [] [] (0x71 ∷ []) (0x72 ∷ [])
      (unfold validate_peer_cert decide get_cert_fingerprint hex_text hex_digit read_store in refl)
      (unfold validate_peer_cert decide get_cert_fingerprint hex_text hex_digit read_store in refl)
      (unfold read_store in refl) refl (unfold hex_text hex_digit in refl) (omega arith, tt)
      (omega arith, tt) (λ e. cc)

abbrev digest : List ℕ
digest = 0x07 ∷ 0xA0 ∷ []

trust_device_others_example :
    let n' = record desk { trusted_file = some one_trusted; pending_trust_flag = false } in
    (trust_device entries desk true ≡ returned n')
    × ((validate_peer_cert entries n' (some (7 ∷ [])) (0x70 ∷ [])).0 ≡ true)
    × ((validate_peer_cert entries n' (some (8 ∷ [])) (0x70 ∷ [])).0
        ≡ (validate_peer_cert entries desk (some (8 ∷ [])) (0x70 ∷ [])).0)
trust_device_others_example =
    trust_device_others entries desk [] one_trusted 7 8 [] [] (0x70 ∷ []) (0x70 ∷ []) refl
      (unfold hex_text hex_digit in refl) (unfold read_store in refl) refl refl (omega arith, tt)
      (omega arith, tt) (λ e. cc)
