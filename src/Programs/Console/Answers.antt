-- ===== src/Programs/Console/Answers.antt =====
-- How often the console's user can answer an offer.
use net_transfer.Base.{
  ℕ, ◌+◌, ◌≤◌, ◌≡◌, refl, arith, Bool, true, false, ◌==◌, ◌&&◌, List, [], ◌∷◌, ◌++◌, map, get_elem?,
  Option-cases, inl, inr, if◌then◌else◌,
}
use net_transfer.Discovery.Devices.{DiscoveredDevice}
use net_transfer.Transfer.Receiver.{Notice}
use net_transfer.App.{NetTransfer, Call, returned, thrown, undefined, has_pending_trust}
use net_transfer.App.Format.{Json}
use net_transfer.Programs.Console.{
  Console, Prompt, menu, choosing, naming, ended, crashed, Input, line, offer, network, Output,
  listed, no_devices, invalid_choice, bye, trusted, ignored, incoming, answered, Number, no_number,
  negative, number, list_devices, ask_choice, choose, quit, answer, trust, command, on_line,
  on_input, run,
}

abbrev pub offers : List Input → ℕ
offers [] = 0
offers (offer op ∷ inputs) = 1 + offers inputs
offers (line text ∷ inputs) = offers inputs
offers (network n ∷ inputs) = offers inputs

abbrev pub is_answer : Output → ℕ
is_answer (answered yes_or_no) = 1
is_answer (listed d) = 0
is_answer no_devices = 0
is_answer invalid_choice = 0
is_answer bye = 0
is_answer trusted = 0
is_answer ignored = 0
is_answer (incoming op) = 0

abbrev pub answers : List Output → ℕ
answers [] = 0
answers (o ∷ os) = is_answer o + answers os

abbrev pub open_offers : Console → ℕ
open_offers k = if k.pending_offer then 1 else 0

-- A step answers no more than it has to answer.
abbrev Answers : Console → Console × List Output → Type 0
Answers k r = answers r.1 + open_offers r.0 ≤ open_offers k

answers-listed : (ds : List DiscoveredDevice) → answers (map listed ds) ≡ 0
answers-listed [] = refl
answers-listed (d ∷ ds) = omega (arith, answers-listed ds)

answers-append : (xs ys : List Output) → answers (xs ++ ys) ≡ answers xs + answers ys
answers-append [] ys = omega arith
answers-append (x ∷ xs) ys = omega (arith, answers-append xs ys)

list_devices-Answers :
    (k : Console) (c : Call (List DiscoveredDevice)) → Answers k (list_devices k c)
unfolding list_devices
list_devices-Answers k (returned ds) = omega (arith, answers-listed ds)
list_devices-Answers k (thrown ds) = omega arith
list_devices-Answers k undefined = omega arith

ask_choice-Answers : (k : Console) (c : Call (List DiscoveredDevice)) → Answers k (ask_choice k c)
unfolding ask_choice
ask_choice-Answers k (returned []) = omega arith
ask_choice-Answers k (returned (d ∷ ds)) = omega (arith, answers-listed ds)
ask_choice-Answers k (thrown ds) = omega arith
ask_choice-Answers k undefined = omega arith

choose-Answers :
    (k : Console) (devices : List DiscoveredDevice) (c : Number) → Answers k (choose k devices c)
unfolding choose
choose-Answers k devices no_number = omega arith
choose-Answers k devices negative = omega arith
choose-Answers k devices (number i) = elim (Option-cases (get_elem? devices i)) [
  | inl out ↦ rw (out, choose) (omega arith)
  | inr (d, hit) ↦ rw (hit, choose) (omega arith)
]

quit-Answers : (k : Console) (c : Call (Bool × NetTransfer)) → Answers k (quit k c)
unfolding quit
quit-Answers k (returned (fine, n)) = omega arith
quit-Answers k (thrown (fine, n)) = omega arith
quit-Answers k undefined = omega arith

answer-Answers :
    (yes_or_no : Bool) (k : Console) (c : Call (NetTransfer × List Notice))
    → k.pending_offer ≡ true
    → Answers k (answer yes_or_no k c)
unfolding answer
answer-Answers yes_or_no k (returned (n, notices)) open_offer = ground arith
answer-Answers yes_or_no k (thrown (n, notices)) open_offer = ground arith
answer-Answers yes_or_no k undefined open_offer = ground arith

trust-Answers : (k : Console) (c : Call NetTransfer) → Answers k (trust k c)
unfolding trust
trust-Answers k (returned n) = omega arith
trust-Answers k (thrown n) = omega arith
trust-Answers k undefined = omega arith

and-right : (a b : Bool) → (a && b) ≡ true → b ≡ true
and-right true b e = e
and-right false b e = cc

if-Answers :
    (k : Console) (b : Bool) (x y : Console × List Output)
    → (b ≡ true → Answers k x)
    → Answers k y
    → Answers k (if b then x else y)
if-Answers k true x y p q = p refl
if-Answers k false x y p q = q

module _ (json : Json) (stoi : List ℕ → Number) (udp_closed tcp_closed can_write : Bool) where
  command-Answers :
      (k : Console) (c : ℕ) → Answers k (command json stoi udp_closed tcp_closed can_write k c)
  unfolding command
  command-Answers k c =
      if-Answers k (c == 0x6C) _ _ (λ e. list_devices-Answers k _)
        (if-Answers k (c == 0x73) _ _ (λ e. ask_choice-Answers k _)
          (if-Answers k (c == 0x71) _ _ (λ e. quit-Answers k _)
            (if-Answers k (c == 0x79 && k.pending_offer) _ _
              (λ e. answer-Answers true k _ (and-right (c == 0x79) k.pending_offer e))
              (if-Answers k (c == 0x6E && k.pending_offer) _ _
                (λ e. answer-Answers false k _ (and-right (c == 0x6E) k.pending_offer e))
                (if-Answers k (c == 0x74 && has_pending_trust k.net) _ _ (λ e. trust-Answers k _)
                  (if-Answers k (c == 0x69 && has_pending_trust k.net) _ _ (λ e. omega arith)
                    (omega arith)))))))

  on_line-Answers :
      (k : Console) (prompt : Prompt) (text : List ℕ)
      → Answers k (on_line json stoi udp_closed tcp_closed can_write k prompt text)
  unfolding on_line
  on_line-Answers k menu [] = omega arith
  on_line-Answers k menu (c ∷ cs) = command-Answers k c
  on_line-Answers k (choosing devices) text = choose-Answers k devices (stoi text)
  on_line-Answers k (naming d) text = omega arith
  on_line-Answers k ended text = omega arith
  on_line-Answers k crashed text = omega arith

  -- Whatever is typed, and in whatever order lines, offers and changes of NetTransfer come: the console
  -- answers offers no more often than offers have come in, the one that is open at first included.
  pub run-answers :
      (k : Console) (inputs : List Input)
      → let (k', outputs) = run json stoi udp_closed tcp_closed can_write k inputs in
        answers outputs + open_offers k' ≤ open_offers k + offers inputs
  unfolding run on_input
  run-answers k [] = omega arith
  run-answers k (line text ∷ inputs) =
      let (k', outputs) = on_line json stoi udp_closed tcp_closed can_write k k.prompt text in
      let (k'', more) = run json stoi udp_closed tcp_closed can_write k' inputs in
      omega
        (arith, on_line-Answers k k.prompt text, run-answers k' inputs, answers-append outputs more)
  run-answers k (offer op ∷ inputs) =
      let k' = record k { pending_offer = true } in ground (arith, run-answers k' inputs)
  run-answers k (network n ∷ inputs) =
      let k' = record k { net = n } in omega (arith, run-answers k' inputs)
