-- ===== src/Programs/Tests.antt =====
-- A start without an administrator, and a console that is asked twice.
use net_transfer.Base.{ℕ, ◌==◌, not, ◌+◌, ◌≤◌, ◌≡◌, refl, arith, Bool, true, false, List, [], ◌∷◌}
use net_transfer.Protocol.{OfferPayload, udp_discovery_port}
use net_transfer.Transfer.Receiver.{bind_port}
use net_transfer.App.Tests.{entries, desk}
use net_transfer.Programs.Firewall.{
  Rules, allows_udp, allows_tcp, launch, add_firewall_rules, launch_allows,
}
use net_transfer.Programs.Console.{Console, menu, Input, line, offer, Number, no_number, run}
use net_transfer.Programs.Console.Answers.{answers, open_offers, run-answers}

abbrev no_rules : Rules
no_rules = record { udp = true; tcp = false }

abbrev free : ℕ → Bool
free p = not (p == 50001)

launch_allows_example :
    let l = launch true true true false no_rules in
    (l.goes_on ≡ true)
    × (allows_udp l.rules udp_discovery_port ≡ true)
    × (allows_tcp l.rules 50002 ≡ true)
    × (add_firewall_rules true true false l.rules ≡ l)
launch_allows_example =
    launch_allows false false no_rules free 50001 50002 (omega arith) (unfold bind_port in refl)

abbrev waiting : Console
waiting = record { net = desk; pending_offer = false; prompt = menu }

abbrev photo : OfferPayload
photo = record {
  file_size = 1;
  resume_offset = 0;
  sha256 = [];
  file_name = 0x66 ∷ [];
  device_name = 0x70 ∷ [];
}

abbrev typed : List Input
typed = offer photo ∷ line (0x6E ∷ []) ∷ line (0x79 ∷ []) ∷ []

abbrev no_stoi : List ℕ → Number
no_stoi text = no_number

run-answers_example :
    let (k', outputs) = run entries no_stoi true true true waiting typed in
    answers outputs + open_offers k' ≤ 0 + 1
run-answers_example = run-answers entries no_stoi true true true waiting typed
