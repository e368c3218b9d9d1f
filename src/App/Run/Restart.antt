-- ===== src/App/Run/Restart.antt =====
-- A NetTransfer that is started, ended and started again.
use net_transfer.Base.{
  is_empty, ℕ, suc, ◌+◌, ◌-◌, ◌≤◌, ◌<◌, ◌≡◌, refl, ap, arith, Bool, true, false, List, some,
  Bool-cases, leb, leb→le, leb_false→lt, inl, inr,
}
use net_transfer.Protocol.{tcp_port_max}
use net_transfer.Transfer.Receiver.{bind_port}
use net_transfer.App.{Config, NetTransfer, returned, default_config, device_name_key, tcp_port_key}
use net_transfer.App.Format.{Json}
use net_transfer.App.Stored.{load_config-save_config}
use net_transfer.App.Run.{Surroundings, blank, create, start}
use net_transfer.App.Run.Port.{running, start_lem, bind_port-below}

default_config-named : (n : NetTransfer) → is_empty (default_config n).config.device_name ≡ false
unfolding default_config
default_config-named n = elim (Bool-cases (is_empty n.config.device_name)) [
  | inl unnamed ↦ rw unnamed refl
  | inr named ↦ rw named named
]

default_config-kept :
    (n : NetTransfer) → is_empty n.config.device_name ≡ false → default_config n ≡ n
unfolding default_config
default_config-kept n named = rw named refl

-- A port that was found before is found at once when it is free.
bind_port-first :
    (free : ℕ → Bool) (p : ℕ)
    → free p ≡ true
    → p ≤ tcp_port_max
    → bind_port free (tcp_port_max + 1 - p) p ≡ some p
unfolding bind_port
bind_port-first free p open_p low =
    let one_more : tcp_port_max + 1 - p ≡ suc (tcp_port_max - p) = omega arith in
    rw one_more (rw (open_p, bind_port) refl)

pub bind_port-max :
    (free : ℕ → Bool) (p q : ℕ)
    → bind_port free (tcp_port_max + 1 - p) p ≡ some q
    → q ≤ tcp_port_max
unfolding bind_port
bind_port-max free p q found = elim (Bool-cases (leb p tcp_port_max)) [
  | inl low ↦
      omega
        (arith, leb→le p tcp_port_max low, bind_port-below free (tcp_port_max + 1 - p) p q found)
  | inr high ↦
      let over : tcp_port_max < p = leb_false→lt p tcp_port_max high in
      let none_left : tcp_port_max + 1 - p ≡ 0 = omega arith in cc (rw none_left at found)
]

module _ (json : Json) where
  open json use {empty, dump, set_text, set_number}

  -- The NetTransfer made from the files of one that runs at `port`.
  unfoldable pub remade : NetTransfer → ℕ → List ℕ → ℕ → NetTransfer
  remade n memory text port = record (blank memory (some text) (default_config n).trusted_file) {
    config = record { device_name = (default_config n).config.device_name; tcp_port = port };
  }

  pub create-running :
      (around : Surroundings) (n : NetTransfer) (memory : ℕ) (text : List ℕ) (port : ℕ)
      → let n' = running json around n text port in
        dump (set_number (set_text empty device_name_key n'.config.device_name) tcp_port_key port)
          ≡ some text
        → create json memory n'.config_file n'.trusted_file
          ≡ returned (true, remade n memory text port)
  unfolding create running remade
  create-running around n memory text port printed =
      (load_config-save_config json (running json around n text port)
        (blank memory (some text) (default_config n).trusted_file) text printed).1

  -- If TLS and the UDP socket can be set up, the configuration file can be written, some port from the
  -- configured one up to TCP_PORT_MAX is free, and the name can be printed with the first of these: then
  -- a start gives a NetTransfer that runs at that port; one that is made from its files has its name,
  -- its port and its trust store; and where TLS and the socket can be set up, the configuration file
  -- can be written and that port is free, it runs at that port again.
  pub start-create :
      (around around' : Surroundings) (n : NetTransfer) (memory : ℕ) (text : List ℕ) (port : ℕ)
      → around.tls_ok ≡ true
      → around.opened ≡ true
      → around.bound ≡ true
      → around.can_write ≡ true
      → let config = (default_config n).config in
        bind_port around.free (tcp_port_max + 1 - config.tcp_port) config.tcp_port ≡ some port
        → dump (set_number (set_text empty device_name_key config.device_name) tcp_port_key port)
          ≡ some text
        → around'.tls_ok ≡ true
        → around'.opened ≡ true
        → around'.bound ≡ true
        → around'.can_write ≡ true
        → around'.free port ≡ true
        → let n' = running json around n text port in
          let m = remade n memory text port in
          ((start json around n).0 ≡ returned (true, n'))
          × (create json memory n'.config_file n'.trusted_file ≡ returned (true, m))
          × ((start json around' m).0 ≡ returned (true, running json around' m text port))
  unfolding remade running
  start-create around around' n memory text port tls opened bound writes found printed tls' opened'
        bound' writes' open_port =
      let config : Config = (default_config n).config in
      let m : NetTransfer = remade n memory text port in
      let kept = default_config-kept m (default_config-named n) in
      let low = bind_port-max around.free config.tcp_port port found in
      let found' = bind_port-first around'.free port open_port low in
      (
        ap (λ p. p.0) (start_lem json around n text port tls opened bound writes found printed),
        create-running around n memory text port printed,
        ap (λ p. p.0)
            (start_lem json around' m text port tls' opened' bound' writes' (rw kept found')
              (rw kept printed)),
      )
