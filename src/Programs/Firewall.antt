-- ===== src/Programs/Firewall.antt =====
-- The firewall rules of Windows that src/main_gui.cpp and src/main.cpp add, and src/uninstall_rules.cpp
-- removes. `netsh advfirewall firewall show rule` succeeds if there is a rule of that name; whether it
-- can add or delete a rule, and whether the process is elevated, are arguments.
use net_transfer.Base.{
  ℕ, zero, suc, ◌+◌, ◌-◌, ◌≤◌, ◌≡◌, refl, arith, Bool, true, false, not, ◌&&◌, ◌||◌, ◌==◌, leb,
  le→leb, some, if◌then◌else◌, Bool-cases, inl, inr,
}
use net_transfer.Protocol.{tcp_port_min, tcp_port_max, udp_discovery_port}
use net_transfer.Transfer.Receiver.{bind_port}
use net_transfer.App.Run.Restart.{bind_port-max}

-- Whether the rules "NetTransfer UDP" and "NetTransfer TCP" are there.
pub record Rules : Type 0 where
  pub udp : Bool
  pub tcp : Bool

-- What the rules let in: localport=50000, and localport=50001-50100.
abbrev pub allows_udp : Rules → ℕ → Bool
allows_udp rules port = rules.udp && (port == 50000)

abbrev pub allows_tcp : Rules → ℕ → Bool
allows_tcp rules port = rules.tcp && (leb 50001 port && leb port 50100)

-- addFirewallRules of the window's program: whether it goes on, whether it has started itself again as an
-- administrator, and the rules. The results of the two runs of netsh are not looked at.
pub record Launch : Type 0 where
  pub goes_on : Bool
  pub relaunched : Bool
  pub rules : Rules

module _ (can_add_udp can_add_tcp : Bool) where
  unfoldable pub add_firewall_rules : Bool → Rules → Launch
  add_firewall_rules is_admin rules =
      if rules.udp && rules.tcp
      then record { goes_on = true; relaunched = false; rules = rules }
      else if is_admin
      then record {
        goes_on = true;
        relaunched = false;
        rules = record { udp = rules.udp || can_add_udp; tcp = rules.tcp || can_add_tcp };
      }
      else record { goes_on = false; relaunched = true; rules = rules }

  -- `main`, and the elevated program that it starts if the user agrees.
  unfoldable pub launch : Bool → Bool → Rules → Launch
  unfolding add_firewall_rules
  launch agrees is_admin rules =
      let first = add_firewall_rules is_admin rules in
      if first.relaunched && agrees then add_firewall_rules true first.rules else first

  -- addFirewallRules of the console program, which ends at the first failure.
  unfoldable pub add_tcp_rule : Rules → Rules
  add_tcp_rule rules = record rules { tcp = rules.tcp || can_add_tcp }

  unfoldable pub console_rules : Rules → Rules
  unfolding add_tcp_rule
  console_rules rules =
      if rules.udp
      then add_tcp_rule rules
      else if can_add_udp
      then add_tcp_rule (record rules { udp = true })
      else rules

-- uninstall_rules: both rules are deleted, and whether both could be is said.
unfoldable pub uninstall : Bool → Bool → Rules → Bool × Rules
uninstall can_delete_udp can_delete_tcp rules =
    let udp_gone = rules.udp && can_delete_udp in
    let tcp_gone = rules.tcp && can_delete_tcp in
    (
      udp_gone && tcp_gone,
      record { udp = rules.udp && not can_delete_udp; tcp = rules.tcp && not can_delete_tcp },
    )

bind_port-above : (free : ℕ → Bool) (rounds p q : ℕ) → bind_port free rounds p ≡ some q → p ≤ q
unfolding bind_port
bind_port-above free zero p q e = cc
bind_port-above free (suc rounds) p q e = elim (Bool-cases (free p)) [
  | inl here ↦ let one : p ≡ q = cc (rw (here, bind_port) at e) in omega (arith, one)
  | inr taken ↦ omega (arith, bind_port-above free rounds (p + 1) q (rw (taken, bind_port) at e))
]

or_true : (b : Bool) → (b || true) ≡ true
or_true true = refl
or_true false = refl

launch_cases :
    (is_admin udp tcp : Bool)
    → launch true true true is_admin (record { udp = udp; tcp = tcp })
      ≡ record { goes_on = true; relaunched = false; rules = record { udp = true; tcp = true } }
unfolding launch add_firewall_rules
launch_cases is_admin true true = refl
launch_cases true false tcp = rw (or_true tcp) refl
launch_cases true true false = refl
launch_cases false false tcp = rw (or_true tcp) refl
launch_cases false true false = refl

launch_lem :
    (is_admin : Bool) (rules : Rules)
    → launch true true true is_admin rules
      ≡ record { goes_on = true; relaunched = false; rules = record { udp = true; tcp = true } }
launch_lem is_admin rules = launch_cases is_admin rules.udp rules.tcp

-- If netsh can add rules and the user agrees to a start as an administrator, then whoever starts the
-- window's program, and whichever rules there are: the program or its elevated successor goes on with
-- a firewall that lets in the discovery messages and connections to every port that a receiver finds,
-- which begins its search at TCP_PORT_MIN or later; and the next start changes nothing, also without
-- an administrator.
pub launch_allows :
    (is_admin later : Bool) (rules : Rules) (free : ℕ → Bool) (from port : ℕ)
    → tcp_port_min ≤ from
    → bind_port free (tcp_port_max + 1 - from) from ≡ some port
    → let l = launch true true true is_admin rules in
      (l.goes_on ≡ true)
      × (allows_udp l.rules udp_discovery_port ≡ true)
      × (allows_tcp l.rules port ≡ true)
      × (add_firewall_rules true true later l.rules ≡ l)
unfolding add_firewall_rules
launch_allows is_admin later rules free from port low found =
    let high = bind_port-max free from port found in
    let above = bind_port-above free (tcp_port_max + 1 - from) from port found in
    rw (launch_lem is_admin rules)
      (refl, refl, rw (le→leb 50001 port (omega arith), le→leb port 50100 (omega arith)) refl, refl)
