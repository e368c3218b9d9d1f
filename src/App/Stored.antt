-- ===== src/App/Stored.antt =====
-- The configuration in its file.
use net_transfer.Base.{ℕ, ◌≡◌, refl, ap, ◌∙◌, true, false, List, ◌||◌, some, same, same_refl}
use net_transfer.App.{
  NetTransfer, returned, save_config, load_config, load_parsed, take_config, device_name_key,
  tcp_port_key,
}
use net_transfer.App.Format.{Json}

keys_differ : same tcp_port_key device_name_key ≡ false
unfolding same
keys_differ = refl

module _ (json : Json) where
  open json use {
    Value, empty, parse, dump, contains, set_text, set_number, get_text, get_number, parse_dump,
    empty_keyed, text_keyed, number_keyed, contains_text, contains_number, get_text_number,
    get_text_text, get_number_number,
  }

  -- A configuration whose name can be printed is saved, and whoever loads that file has the same
  -- name and port.
  pub load_config-save_config :
      (n m : NetTransfer) (text : List ℕ)
      → dump (
          set_number
            (set_text empty device_name_key n.config.device_name)
            tcp_port_key
            n.config.tcp_port)
        ≡ some text
      → let n' = record n { config_file = some text } in
        let m' = record m { config_file = some text } in
        (save_config json n true ≡ returned (true, n'))
        × (load_config json m' ≡ returned (true, record m' { config = n.config }))
  unfolding save_config load_config load_parsed take_config
  load_config-save_config n m text printed =
      let named : Value = set_text empty device_name_key n.config.device_name in
      let conf : Value = set_number named tcp_port_key n.config.tcp_port in
      let keyed = text_keyed empty device_name_key n.config.device_name in
      let has_name : contains conf device_name_key ≡ true =
        contains_number named tcp_port_key n.config.tcp_port device_name_key keyed
        ∙ ap (λ x. x || contains named device_name_key) keys_differ
        ∙ contains_text empty device_name_key n.config.device_name device_name_key empty_keyed
        ∙ ap (λ x. x || contains empty device_name_key) (same_refl device_name_key) in
      let has_port : contains conf tcp_port_key ≡ true =
        contains_number named tcp_port_key n.config.tcp_port tcp_port_key keyed
        ∙ ap (λ x. x || contains named tcp_port_key) (same_refl tcp_port_key) in
      let name : get_text conf device_name_key ≡ some n.config.device_name =
        get_text_number named tcp_port_key n.config.tcp_port device_name_key keys_differ
        ∙ get_text_text empty device_name_key n.config.device_name in
      let port : get_number conf tcp_port_key ≡ some n.config.tcp_port =
        get_number_number named tcp_port_key n.config.tcp_port in
      (
        rw (printed, save_config) refl,
        rw (parse_dump conf text printed, has_name, has_port, name, port, load_parsed, take_config)
            refl,
      )
