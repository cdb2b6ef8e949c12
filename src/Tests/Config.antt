-- ===== src/Tests/Config.antt =====
-- The settings at concrete inputs.
use multicast_bridge.Common.{
  ℕ, ◌==◌, if◌then◌else◌, ◌≡◌, refl, ◌↔◌, Bool, true, false, List, [], ◌∷◌, Option, none, some,
}
use multicast_bridge.Common.Int.{pos}
use multicast_bridge.Common.Text.{text}
use multicast_bridge.Common.Results.{ok, err}
use multicast_bridge.Config.{
  SendConfig, RecvConfig, new_default_send_config, new_default_recv_config,
}
use multicast_bridge.Config.Checks.{is_empty, validate_send, interface_required, fec_n_above_16}
use multicast_bridge.Config.Load.{content, load_send_config, load_recv_config}
use multicast_bridge.Config.Valid.{IsValidSend, IsValidRecv}
use multicast_bridge.Config.Loaded.{Reads, load_config-ok}

-- An address is its text, and a group if it starts with a 2.
abbrev pub parse_any : List ℕ → Option (List ℕ)
parse_any address = if is_empty address then none else some address

abbrev pub starts_with_2 : List ℕ → Bool
starts_with_2 [] = false
starts_with_2 (b ∷ bs) = b == 50

-- A file that holds the name of the interface.
abbrev read_send : List ℕ → SendConfig → Option SendConfig
read_send bytes c = some (record c { multicast = record c.multicast { interface = bytes } })

abbrev read_recv : List ℕ → RecvConfig → Option RecvConfig
read_recv bytes c = some (record c { multicast = record c.multicast { interface = bytes } })

abbrev pub on_eth0 : SendConfig
on_eth0 = record new_default_send_config {
  multicast = record new_default_send_config.multicast { interface = text "eth0" };
}

abbrev pub recv_on_eth0 : RecvConfig
recv_on_eth0 = record new_default_recv_config {
  multicast = record new_default_recv_config.multicast { interface = text "eth0" };
}

-- The defaults alone are refused: an interface must be named.
no_interface :
    validate_send parse_any starts_with_2 new_default_send_config ≡ err interface_required
unfolding validate_send multicast_bridge.Config.Checks.validate_multicast_ip
no_interface = refl

too_many :
    validate_send parse_any starts_with_2
      (record on_eth0 { fec = record { enabled = true; k = pos 8; n = pos 17 } })
    ≡ err fec_n_above_16
unfolding validate_send multicast_bridge.Config.Checks.validate_multicast_ip
    multicast_bridge.Config.Checks.validate_fec
too_many = refl

load_config-ok_example :
    ((load_send_config parse_any starts_with_2 read_send (content (text "eth0")) ≡ ok on_eth0) ↔ (
      Reads parse_any starts_with_2 read_send new_default_send_config
        (content (text "eth0"))
        on_eth0
      × IsValidSend parse_any starts_with_2 on_eth0))
    × ((load_recv_config parse_any starts_with_2 read_recv (content (text "eth0"))
          ≡ ok recv_on_eth0)
        ↔ (Reads parse_any starts_with_2 read_recv new_default_recv_config
              (content (text "eth0"))
              recv_on_eth0
            × IsValidRecv parse_any starts_with_2 recv_on_eth0))
load_config-ok_example =
    load_config-ok parse_any starts_with_2 read_send read_recv (content (text "eth0")) on_eth0
      recv_on_eth0
