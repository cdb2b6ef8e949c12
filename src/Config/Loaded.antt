-- ===== src/Config/Loaded.antt =====
-- internal/config/config.go: which settings the two loaders return.
use multicast_bridge.Common.{ℕ, ◌≡◌, refl, ap, ◌↔◌, Bool, List, Option, none, some}
use mathlib.Core.Path.{subst}
use multicast_bridge.Common.Results.{ok, err}
use multicast_bridge.Config.{
  SendConfig, RecvConfig, new_default_send_config, new_default_recv_config,
}
use multicast_bridge.Config.Checks.{Check, validate_send, validate_recv}
use multicast_bridge.Config.Load.{
  File, content, missing, unreadable, parsed, when_valid, load, load_send_config, load_recv_config,
}
use multicast_bridge.Config.Valid.{
  IsValidSend, IsValidRecv, validate_send-IsValidSend, validate_recv-IsValidRecv,
}

module _ {I : Type 0} (parse_ip : List ℕ → Option I) (is_multicast : I → Bool) where
  -- A file that `yaml.Unmarshal` reads over the defaults to these settings.
  abbrev pub Reads : {C : Type 0} → (List ℕ → C → Option C) → C → File → C → Type 0
  Reads unmarshal defaults file c =
      (bytes : List ℕ) × (file ≡ content bytes) × (unmarshal bytes defaults ≡ some c)

  when_valid-ok :
      {C : Type 0} → (d c : C) (k : Check) → when_valid d k ≡ ok c → (d ≡ c) × (k ≡ ok tt)
  when_valid-ok d c (ok tt) e = (cc, refl)
  when_valid-ok d c (err x) e = cc

  parsed-ok :
      {C : Type 0}
      → (validate : C → Check) (found : Option C) (c : C) → parsed validate found ≡ ok c
      → (found ≡ some c) × (validate c ≡ ok tt)
  parsed-ok validate none c e = cc
  parsed-ok validate (some d) c e =
      let (p, q) = when_valid-ok d c (validate d) e in
      (ap some p, subst (λ x. validate x ≡ ok tt) p q)

  module _ {C : Type 0} (validate : C → Check) (unmarshal : List ℕ → C → Option C)
      (defaults : C) where
    load_to :
        (file : File) (c : C)
        → load validate (λ bytes. unmarshal bytes defaults) file ≡ ok c
        → Reads unmarshal defaults file c × (validate c ≡ ok tt)
    load_to missing c e = cc
    load_to unreadable c e = cc
    load_to (content bytes) c e =
        let (p, q) = parsed-ok validate (unmarshal bytes defaults) c e in ((bytes, refl, p), q)

    load_from :
        (file : File) (c : C)
        → Reads unmarshal defaults file c
        → validate c ≡ ok tt
        → load validate (λ bytes. unmarshal bytes defaults) file ≡ ok c
    load_from file c (bytes, e, p) v = rw (e, p, v) refl

    load_iff :
        {P : Type 0}
        → (file : File) (c : C) → (validate c ≡ ok tt) ↔ P
        → (load validate (λ bytes. unmarshal bytes defaults) file ≡ ok c)
          ↔ (Reads unmarshal defaults file c × P)
    load_iff file c v =
        (λ e. let (p, q) = load_to file c e in (p, v.0 q), λ p. load_from file c p.0 (v.1 p.1))

  -- `LoadSendConfig` returns some settings exactly if the file is there and is read over the defaults
  -- to them, and they are valid; `LoadRecvConfig` does the same with the defaults and the
  -- checks of a receiver.
  pub load_config-ok :
      (unmarshal_send : List ℕ → SendConfig → Option SendConfig)
      (unmarshal_recv : List ℕ → RecvConfig → Option RecvConfig) (file : File) (s : SendConfig)
      (r : RecvConfig)
      → ((load_send_config parse_ip is_multicast unmarshal_send file ≡ ok s) ↔ (
          Reads unmarshal_send new_default_send_config file s
          × IsValidSend parse_ip is_multicast s))
        × ((load_recv_config parse_ip is_multicast unmarshal_recv file ≡ ok r) ↔ (
            Reads unmarshal_recv new_default_recv_config file r
            × IsValidRecv parse_ip is_multicast r))
  unfolding load_send_config load_recv_config
  load_config-ok unmarshal_send unmarshal_recv file s r = (
    load_iff (validate_send parse_ip is_multicast) unmarshal_send new_default_send_config file s
        (validate_send-IsValidSend parse_ip is_multicast s),
    load_iff (validate_recv parse_ip is_multicast) unmarshal_recv new_default_recv_config file r
        (validate_recv-IsValidRecv parse_ip is_multicast r),
  )
