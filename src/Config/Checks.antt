-- ===== src/Config/Checks.antt =====
-- internal/config/config.go: the two `Validate` methods, one test after the other.
--
-- `net.ParseIP` is a parameter, of which `none` is nil, and so is the method `IsMulticast`. The
-- warning of a link-local group is left out, since it changes no result.
use multicast_bridge.Common.{
  ℕ, if◌then◌else◌, Bool, true, false, not, ◌||◌, List, [], ◌∷◌, Option, none, some,
}
use multicast_bridge.Common.Int.{ℤ, pos, less}
use multicast_bridge.Common.Text.{text, same_text}
use multicast_bridge.Common.Results.{Result, ok, err, ◌>>=◌}
use multicast_bridge.Config.{SendConfig, RecvConfig, FecConfig, EncryptionConfig}

pub data ConfigError : Type 0 where
  invalid_multicast_port invalid_ip_format not_multicast interface_required : ConfigError
  invalid_control_port invalid_data_port invalid_max_sessions invalid_interval : ConfigError
  invalid_fec_k fec_n_below_k fec_n_above_16 : ConfigError
  passphrase_required invalid_iterations invalid_buffer_size invalid_log_level : ConfigError
  invalid_stats_interval invalid_mtu invalid_dscp invalid_control_dscp : ConfigError
  invalid_sender_data_port invalid_sender_address invalid_ttl invalid_bind_port : ConfigError

abbrev pub Check : Type 0
Check = Result ConfigError (Unit {0})

-- `if b { return e }`
abbrev pub refuse : Bool → ConfigError → Check
refuse true e = err e
refuse false e = ok tt

infixr 5 ◌>>◌
abbrev pub ◌>>◌ : Check → Check → Check
a >> b = a >>= λ u. b

-- `if b { ... }`
abbrev pub only_if : Bool → Check → Check
only_if b c = if b then c else ok tt

-- `z < low || z > high`
abbrev pub outside : ℕ → ℕ → ℤ → Bool
outside low high z = less z (pos low) || less (pos high) z

-- `z <= 0`
abbrev pub is_not_positive : ℤ → Bool
is_not_positive z = not (less (pos 0) z)

abbrev pub is_empty : List ℕ → Bool
is_empty [] = true
is_empty (b ∷ bs) = false

unfoldable pub validate_log_level : List ℕ → Check
validate_log_level level =
    refuse
      (not (
        same_text level (text "DEBUG")
        || (same_text level (text "INFO")
            || (same_text level (text "WARN") || same_text level (text "ERROR")))))
      invalid_log_level

unfoldable pub validate_fec : FecConfig → Check
validate_fec fec = only_if fec.enabled (
    refuse (is_not_positive fec.k) invalid_fec_k
    >> refuse (less fec.n fec.k) fec_n_below_k
    >> refuse (less (pos 16) fec.n) fec_n_above_16)

unfoldable pub validate_encryption : EncryptionConfig → Check
validate_encryption encryption = only_if encryption.enabled (
    refuse (is_empty encryption.passphrase) passphrase_required
    >> refuse (is_not_positive encryption.iterations) invalid_iterations)

module _ {I : Type 0} (parse_ip : List ℕ → Option I) (is_multicast : I → Bool) where
  abbrev pub multicast_ip : Option I → Check
  multicast_ip none = err invalid_ip_format
  multicast_ip (some ip) = refuse (not (is_multicast ip)) not_multicast

  unfoldable pub validate_multicast_ip : List ℕ → Check
  validate_multicast_ip address = multicast_ip (parse_ip address)

  abbrev pub any_ip : Option I → Check
  any_ip none = err invalid_sender_address
  any_ip (some ip) = ok tt

  unfoldable pub validate_send : SendConfig → Check
  validate_send c =
      refuse (outside 1 65535 c.multicast.port) invalid_multicast_port
      >> validate_multicast_ip c.multicast.address
      >> refuse (is_empty c.multicast.interface) interface_required
      >> refuse (outside 1 65535 c.unicast.control_port) invalid_control_port
      >> refuse (outside 1 65535 c.unicast.data_port) invalid_data_port
      >> refuse (is_not_positive c.unicast.max_sessions) invalid_max_sessions
      >> refuse (is_not_positive c.keep_alive.interval) invalid_interval
      >> validate_fec c.fec
      >> validate_encryption c.encryption
      >> refuse (is_not_positive c.socket_buffer_size) invalid_buffer_size
      >> validate_log_level c.log.level
      >> refuse (is_not_positive c.stats_interval) invalid_stats_interval
      >> refuse (outside 576 65535 c.mtu) invalid_mtu
      >> refuse (outside 0 63 c.dscp) invalid_dscp
      >> refuse (outside 0 63 c.control_dscp) invalid_control_dscp
      >> refuse (outside 0 65535 c.sender_data_port) invalid_sender_data_port

  unfoldable pub validate_recv : RecvConfig → Check
  validate_recv c =
      any_ip (parse_ip c.sender.address)
      >> refuse (outside 1 65535 c.sender.control_port) invalid_control_port
      >> refuse (outside 1 65535 c.sender.data_port) invalid_data_port
      >> refuse (outside 1 65535 c.multicast.port) invalid_multicast_port
      >> validate_multicast_ip c.multicast.address
      >> refuse (is_empty c.multicast.interface) interface_required
      >> refuse (is_not_positive c.keep_alive.interval) invalid_interval
      >> validate_encryption c.encryption
      >> refuse (is_not_positive c.socket_buffer_size) invalid_buffer_size
      >> validate_log_level c.log.level
      >> refuse (is_not_positive c.stats_interval) invalid_stats_interval
      >> refuse (outside 1 255 c.multicast.ttl) invalid_ttl
      >> refuse (outside 0 63 c.multicast.dscp) invalid_dscp
      >> refuse (outside 0 63 c.control_dscp) invalid_control_dscp
      >> refuse (outside 0 65535 c.unicast_bind_port) invalid_bind_port
