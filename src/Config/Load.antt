-- ===== src/Config/Load.antt =====
-- internal/config/config.go: `LoadSendConfig` and `LoadRecvConfig`.
--
-- The file is `missing`, `unreadable` or its bytes. `yaml.Unmarshal` is a parameter that takes the
-- settings it writes into; `none` is its error.
use multicast_bridge.Common.{ℕ, Bool, List, Option, none, some}
use multicast_bridge.Common.Results.{Result, ok, err}
use multicast_bridge.Config.{
  SendConfig, RecvConfig, new_default_send_config, new_default_recv_config,
}
use multicast_bridge.Config.Checks.{ConfigError, Check, validate_send, validate_recv}

pub data File : Type 0 where
  missing unreadable : File
  content : List ℕ → File

pub data LoadError : Type 0 where
  config_not_found failed_to_read failed_to_parse : LoadError
  validation_failed : ConfigError → LoadError

-- The settings are returned if they are valid.
abbrev pub when_valid : {C : Type 0} → C → Check → Result LoadError C
when_valid c (ok u) = ok c
when_valid c (err e) = err (validation_failed e)

abbrev pub parsed : {C : Type 0} → (C → Check) → Option C → Result LoadError C
parsed validate none = err failed_to_parse
parsed validate (some c) = when_valid c (validate c)

abbrev pub load : {C : Type 0} → (C → Check) → (List ℕ → Option C) → File → Result LoadError C
load validate unmarshal missing = err config_not_found
load validate unmarshal unreadable = err failed_to_read
load validate unmarshal (content bytes) = parsed validate (unmarshal bytes)

module _ {I : Type 0} (parse_ip : List ℕ → Option I) (is_multicast : I → Bool) where
  unfoldable pub load_send_config :
      (List ℕ → SendConfig → Option SendConfig) → File → Result LoadError SendConfig
  load_send_config unmarshal file =
      load (validate_send parse_ip is_multicast) (λ bytes. unmarshal bytes new_default_send_config)
        file

  unfoldable pub load_recv_config :
      (List ℕ → RecvConfig → Option RecvConfig) → File → Result LoadError RecvConfig
  load_recv_config unmarshal file =
      load (validate_recv parse_ip is_multicast) (λ bytes. unmarshal bytes new_default_recv_config)
        file
