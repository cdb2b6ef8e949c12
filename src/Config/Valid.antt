-- ===== src/Config/Valid.antt =====
-- internal/config/config.go: which settings the two `Validate` methods accept.
use multicast_bridge.Common.{
  ℕ, ◌≡◌, refl, ◌≢◌, ◌↔◌, ◌⊎◌, inl, inr, Bool, true, false, not, ◌||◌, List, [], Option, none, some,
}
use multicast_bridge.Common.Int.{pos}
use multicast_bridge.Common.Text.{text, same_text_iff}
use multicast_bridge.Common.Results.{ok}
use multicast_bridge.Config.{SendConfig, RecvConfig, FecConfig, EncryptionConfig}
use multicast_bridge.Config.Checks.{
  validate_log_level, validate_fec, validate_encryption, multicast_ip, validate_multicast_ip,
  any_ip, validate_send, validate_recv, invalid_log_level, not_multicast, fec_n_above_16,
}
use multicast_bridge.Config.Ranges.{
  IsIn, IsPositive, IsLevel, IsFec, IsEncryption, ◌and◌, iff_trans, refuse_iff, then_iff,
  only_if_iff, IsIn-iff, IsPositive-iff, AtMost-iff, not_empty_iff,
}

not-not : (b : Bool) → (not b ≡ false) ↔ (b ≡ true)
not-not true = (λ h. refl, λ h. refl)
not-not false = (λ h. cc, λ h. cc)

or-true :
    {P Q : Type 0} → (x y : Bool) → (x ≡ true) ↔ P → (y ≡ true) ↔ Q → ((x || y) ≡ true) ↔ (P ⊎ Q)
or-true true y p q = (λ h. inl (p.0 refl), λ h. refl)
or-true false y p q = (λ h. inr (q.0 h), λ h. elim h [ inl a ↦ cc (p.1 a) | inr b ↦ q.1 b ])

IsLevel-iff : (level : List ℕ) → (validate_log_level level ≡ ok tt) ↔ IsLevel level
unfolding validate_log_level
IsLevel-iff level = iff_trans (refuse_iff _ invalid_log_level) (
    iff_trans (not-not _) (
      or-true _ _ (same_text_iff level (text "DEBUG")) (
        or-true _ _ (same_text_iff level (text "INFO"))
          (or-true _ _ (same_text_iff level (text "WARN")) (same_text_iff level (text "ERROR"))))))

IsFec-iff : (fec : FecConfig) → (validate_fec fec ≡ ok tt) ↔ IsFec fec
unfolding validate_fec
IsFec-iff fec = only_if_iff fec.enabled _ (
    then_iff _ _ (IsPositive-iff fec.k _)
      (then_iff _ _ (AtMost-iff fec.n fec.k _) (AtMost-iff (pos 16) fec.n fec_n_above_16)))

IsEncryption-iff :
    (encryption : EncryptionConfig)
    → (validate_encryption encryption ≡ ok tt) ↔ IsEncryption encryption
unfolding validate_encryption
IsEncryption-iff encryption =
    only_if_iff encryption.enabled _ (
      then_iff _ _ (not_empty_iff encryption.passphrase _) (IsPositive-iff encryption.iterations _))

module _ {I : Type 0} (parse_ip : List ℕ → Option I) (is_multicast : I → Bool) where
  -- The text is an address, and one of a multicast group.
  abbrev pub IsGroup : List ℕ → Type 0
  IsGroup address = (ip : I) × (parse_ip address ≡ some ip) × (is_multicast ip ≡ true)

  abbrev pub IsAddress : List ℕ → Type 0
  IsAddress address = (ip : I) × (parse_ip address ≡ some ip)

  -- The settings of a sender that can run.
  abbrev pub IsValidSend : SendConfig → Type 0
  IsValidSend c =
      IsIn 1 65535 c.multicast.port
      and IsGroup c.multicast.address
      and (c.multicast.interface ≢ [])
      and IsIn 1 65535 c.unicast.control_port
      and IsIn 1 65535 c.unicast.data_port
      and IsPositive c.unicast.max_sessions
      and IsPositive c.keep_alive.interval
      and IsFec c.fec
      and IsEncryption c.encryption
      and IsPositive c.socket_buffer_size
      and IsLevel c.log.level
      and IsPositive c.stats_interval
      and IsIn 576 65535 c.mtu
      and IsIn 0 63 c.dscp
      and IsIn 0 63 c.control_dscp
      and IsIn 0 65535 c.sender_data_port

  abbrev pub IsValidRecv : RecvConfig → Type 0
  IsValidRecv c =
      IsAddress c.sender.address
      and IsIn 1 65535 c.sender.control_port
      and IsIn 1 65535 c.sender.data_port
      and IsIn 1 65535 c.multicast.port
      and IsGroup c.multicast.address
      and (c.multicast.interface ≢ [])
      and IsPositive c.keep_alive.interval
      and IsEncryption c.encryption
      and IsPositive c.socket_buffer_size
      and IsLevel c.log.level
      and IsPositive c.stats_interval
      and IsIn 1 255 c.multicast.ttl
      and IsIn 0 63 c.multicast.dscp
      and IsIn 0 63 c.control_dscp
      and IsIn 0 65535 c.unicast_bind_port

  of_some :
      (ip : I) → ((x : I) × (some ip ≡ some x) × (is_multicast x ≡ true)) → is_multicast ip ≡ true
  of_some ip (x, e, m) = cc

  group_lem :
      (found : Option I)
      → (multicast_ip parse_ip is_multicast found ≡ ok tt)
        ↔ ((ip : I) × (found ≡ some ip) × (is_multicast ip ≡ true))
  group_lem none = (λ h. cc, λ h. cc (h.1))
  group_lem (some ip) = (
    λ h. (ip, refl, (not-not _).0 ((refuse_iff _ not_multicast).0 h)),
    λ h. (refuse_iff _ not_multicast).1 ((not-not _).1 (of_some ip h)),
  )

  address_lem :
      (found : Option I)
      → (any_ip parse_ip is_multicast found ≡ ok tt) ↔ ((ip : I) × (found ≡ some ip))
  address_lem none = (λ h. cc, λ h. cc (h.1))
  address_lem (some ip) = (λ h. (ip, refl), λ h. refl)

  IsGroup-iff :
      (address : List ℕ)
      → (validate_multicast_ip parse_ip is_multicast address ≡ ok tt) ↔ IsGroup address
  unfolding validate_multicast_ip
  IsGroup-iff address = group_lem (parse_ip address)

  -- `Validate` accepts the settings of a sender exactly if the ports are from 1 to 65535 (that of the
  -- data socket may be 0), the group is a multicast address, an interface is named, the
  -- numbers of sessions, seconds and bytes are positive, the log level is known, the MTU is from 576
  -- to 65535, both DSCP values are from 0 to 63, with FEC 1 ≤ k ≤ n ≤ 16, and with encryption
  -- there is a passphrase and a positive number of iterations.
  pub validate_send-IsValidSend :
      (c : SendConfig) → (validate_send parse_ip is_multicast c ≡ ok tt) ↔ IsValidSend c
  unfolding validate_send
  validate_send-IsValidSend c = then_iff _ _ (IsIn-iff 1 65535 c.multicast.port _) (
      then_iff _ _ (IsGroup-iff c.multicast.address) (
        then_iff _ _ (not_empty_iff c.multicast.interface _) (
          then_iff _ _ (IsIn-iff 1 65535 c.unicast.control_port _) (
            then_iff _ _ (IsIn-iff 1 65535 c.unicast.data_port _) (
              then_iff _ _ (IsPositive-iff c.unicast.max_sessions _) (
                then_iff _ _ (IsPositive-iff c.keep_alive.interval _) (
                  then_iff _ _ (IsFec-iff c.fec) (
                    then_iff _ _ (IsEncryption-iff c.encryption) (
                      then_iff _ _ (IsPositive-iff c.socket_buffer_size _) (
                        then_iff _ _ (IsLevel-iff c.log.level) (
                          then_iff _ _ (IsPositive-iff c.stats_interval _) (
                            then_iff _ _ (IsIn-iff 576 65535 c.mtu _) (
                              then_iff _ _ (IsIn-iff 0 63 c.dscp _) (
                                then_iff _ _ (IsIn-iff 0 63 c.control_dscp _)
                                  (IsIn-iff 0 65535 c.sender_data_port _)))))))))))))))

  pub validate_recv-IsValidRecv :
      (c : RecvConfig) → (validate_recv parse_ip is_multicast c ≡ ok tt) ↔ IsValidRecv c
  unfolding validate_recv
  validate_recv-IsValidRecv c = then_iff _ _ (address_lem (parse_ip c.sender.address)) (
      then_iff _ _ (IsIn-iff 1 65535 c.sender.control_port _) (
        then_iff _ _ (IsIn-iff 1 65535 c.sender.data_port _) (
          then_iff _ _ (IsIn-iff 1 65535 c.multicast.port _) (
            then_iff _ _ (IsGroup-iff c.multicast.address) (
              then_iff _ _ (not_empty_iff c.multicast.interface _) (
                then_iff _ _ (IsPositive-iff c.keep_alive.interval _) (
                  then_iff _ _ (IsEncryption-iff c.encryption) (
                    then_iff _ _ (IsPositive-iff c.socket_buffer_size _) (
                      then_iff _ _ (IsLevel-iff c.log.level) (
                        then_iff _ _ (IsPositive-iff c.stats_interval _) (
                          then_iff _ _ (IsIn-iff 1 255 c.multicast.ttl _) (
                            then_iff _ _ (IsIn-iff 0 63 c.multicast.dscp _) (
                              then_iff _ _ (IsIn-iff 0 63 c.control_dscp _)
                                (IsIn-iff 0 65535 c.unicast_bind_port _))))))))))))))
