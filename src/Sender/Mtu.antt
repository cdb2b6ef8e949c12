-- ===== src/Sender/Mtu.antt =====
-- cmd/send.go and internal/data/session.go: no datagram is longer than the link allows.
use multicast_bridge.Common.{
  ap, refl, [], ◌∷◌, All, ℕ, ◌+◌, ◌-◌, ◌≤◌, ◌≡◌, if◌then◌else◌, Bool, true, false, List, length,
  Option, none, some, arith,
}
use multicast_bridge.Common.Int.{ℤ, pos, negsuc, pos_part, less}
use multicast_bridge.Common.Results.{ok, err, Result}
use multicast_bridge.Config.{SendConfig}
use multicast_bridge.Crypto.{Aead, CryptoError, encrypt_gcm_with_aead}
use multicast_bridge.Crypto.Gcm.{IsAead, IsRandom, decrypt-encrypt}
use multicast_bridge.Data.Session.{Session, SessionManager}
use multicast_bridge.Data.Session.Worker.{Written, encrypted, start_worker}
use multicast_bridge.Data.Session.Worker.Run.{Taken, run_worker}
use multicast_bridge.Data.Session.Worker.RunSizes.{TakenAtMost, run_worker-AtMostLong}
use multicast_bridge.Data.Session.Worker.Sizes.{AtMostLong}
use multicast_bridge.Fec.Codec.{Codec, IsCodec}
use multicast_bridge.Sender.{or_none}
use multicast_bridge.Sender.Size.{link_mtu, encryption_overhead, max_payload_size}

link_mtu-le : (cfg : SendConfig) → 576 ≤ link_mtu cfg
unfolding link_mtu
link_mtu-le cfg = at_least cfg.mtu
  where
    at_least : (z : ℤ) → 576 ≤ (if less z (pos 576) then 1500 else pos_part z)
    at_least (pos n) = ground arith
    at_least (negsuc n) = omega arith

-- `crypto.EncryptGCMWithAEAD`, as the worker calls it; `read seq` is the random source at that moment.
abbrev pub sealed : (ℕ → ℕ → Option (List ℕ)) → ℕ → Aead → List ℕ → Option (List ℕ)
sealed read seq aead bytes = or_none (encrypt_gcm_with_aead (read seq) bytes aead)

or_none-some : (r : Result CryptoError (List ℕ)) (c : List ℕ) → or_none r ≡ some c → r ≡ ok c
or_none-some (ok x) c e = cc
or_none-some (err x) c e = cc

some_injective : (a b : List ℕ) → some a ≡ some b → a ≡ b
some_injective a b e = cc

-- What is framed has room for two headers of 17 bytes.
room : (cfg : SendConfig) → max_payload_size cfg + encryption_overhead cfg + 62 ≡ link_mtu cfg
unfolding max_payload_size
room cfg = ground (arith, link_mtu-le cfg)

-- With the headers of IP and UDP, the datagram is within the MTU of the link.
abbrev pub FitsLink : SendConfig → List ℕ → Type 0
FitsLink cfg d = 20 + 8 + length d ≤ link_mtu cfg

All-FitsLink :
    (cfg : SendConfig) (most : ℕ) (ds : List (List ℕ))
    → most + 28 ≤ link_mtu cfg
    → AtMostLong most ds
    → All (FitsLink cfg) ds
All-FitsLink cfg most [] h v = tt
All-FitsLink cfg most (d ∷ ds) h v = (omega (arith, v.0), All-FitsLink cfg most ds h v.1)

module _ (cfg : SendConfig) (read : ℕ → ℕ → Option (List ℕ))
    (random : (seq : ℕ) → IsRandom (read seq)) (clock : ℕ → ℤ) (write : List ℕ → Written)
    (sm : SessionManager Aead) (stamp : ℕ → ℤ) (s : Session Aead) where
  sealed-size :
      (seq : ℕ) (aead : Option Aead) (bytes payload : List ℕ)
      → ((a : Aead) → aead ≡ some a → IsAead a)
      → encrypted (sealed read) clock write sm seq aead bytes ≡ some payload
      → length payload ≤ length bytes + 28
  sealed-size seq none bytes payload laws e =
      omega (arith, ap length (some_injective bytes payload e))
  sealed-size seq (some a) bytes payload laws e = omega (
    arith,
    (decrypt-encrypt a (laws a refl) (read seq) (random seq) bytes payload
        (or_none-some (encrypt_gcm_with_aead (read seq) bytes a) payload e)).1,
  )

  protected-size :
      (on : Bool) (seq : ℕ) (bytes payload : List ℕ)
      → ((a : Aead) → s.aead ≡ some a → IsAead a)
      → (if on then encrypted (sealed read) clock write sm seq s.aead bytes else some bytes)
        ≡ some payload
      → length payload ≤ length bytes + (if on then 28 else 0)
  protected-size true seq bytes payload laws e = sealed-size seq s.aead bytes payload laws e
  protected-size false seq bytes payload laws e =
      omega (arith, ap length (some_injective bytes payload e))

  -- Let the manager encrypt exactly if the settings say so, AES-GCM and the encoder be as their
  -- documentation says, and the random source fill its buffers. If no packet that a worker takes
  -- from its queue is longer than `maxPayloadSize`, then no datagram that it sends, data or
  -- redundant, in the loop or after it, is longer than the MTU of the link with the headers of IP
  -- and UDP.
  pub run_worker-FitsLink :
      sm.encryption_enabled ≡ cfg.encryption.enabled
      → ((c : Codec) → sm.fec_encoder ≡ some c → IsCodec c sm.fec_k (sm.fec_n - sm.fec_k))
      → ((a : Aead) → s.aead ≡ some a → IsAead a)
      → (seq : ℕ) (taken : List Taken) → TakenAtMost (max_payload_size cfg) taken
      → All
          (FitsLink cfg)
          (run_worker (sealed read) clock write sm stamp s taken (start_worker seq)).datagrams
  run_worker-FitsLink same codec laws seq taken h =
      All-FitsLink cfg (17 + (link_mtu cfg - 45)) _ (omega (arith, link_mtu-le cfg)) (
        run_worker-AtMostLong (link_mtu cfg - 45) (sealed read) clock write sm stamp codec s
          (max_payload_size cfg)
          (λ number bytes payload e g.
            let size = protected-size sm.encryption_enabled number bytes payload laws e in
            let extra : (if sm.encryption_enabled then 28 else 0) ≡ encryption_overhead cfg =
              ap (λ b. if b then 28 else 0) same in
            omega (arith, size, extra, room cfg, g))
          seq taken h)
