-- ===== src/Sender.antt =====
-- cmd/send.go: the state of `handleControlPackets`, and what it takes from outside.
--
-- An address is a number, and so is the text of an IP where it is the key of a map; `ip_text` is the
-- text itself. Each packet brings the readings of the clock that its handling makes (nanoseconds),
-- and the source of random bytes. The reply is what is written to the address of the packet.
pub mod Handler
pub mod Loop
pub mod Effects
pub mod Step
pub mod Turn
pub mod Proper
pub mod Challenges
pub mod Pending
pub mod Size
pub mod Mtu
use multicast_bridge.Common.{ℕ, List, [], Option, none, some}
use multicast_bridge.Common.Int.{ℤ}
use multicast_bridge.Common.Results.{Result, ok, err}
use multicast_bridge.Crypto.{Aead, new_aead}
use multicast_bridge.Data.Session.{SessionManager}

-- `IP.String` of an address, as a key and as a text, and `net.ResolveUDPAddr` of a text and a port.
pub record Network : Type 0 where
  pub ip_of : ℕ → ℕ
  pub ip_text : ℕ → List ℕ
  pub resolve : List ℕ → ℕ → Option ℕ

-- The packages that internal/crypto/crypto.go calls.
pub record Ciphers (B : Type 0) : Type 0 where
  pub pbkdf2 : List ℕ → List ℕ → ℤ → ℕ → List ℕ
  pub hmac : List ℕ → List ℕ → List ℕ
  pub new_cipher : List ℕ → Option B
  pub new_gcm : B → Option Aead

-- `cleaned` is read for the clean-up, `checked` and `noted` for the rate limit, `made` for the entry
-- that is made, `unix` is `UnixNano`.
pub record Moment : Type 0 where
  pub cleaned : ℕ
  pub checked : ℕ
  pub noted : ℕ
  pub made : ℕ
  pub unix : ℤ
  pub random : ℕ → Option (List ℕ)

pub record PendingAuth : Type 0 where
  pub rand_a : List ℕ
  pub t1 : ℤ
  pub data_port : ℕ
  pub version : List ℕ
  pub ip_addr : List ℕ
  pub created_at : ℕ
  pub control_ip : ℕ

pub record SenderControl : Type 0 where
  pub manager : SessionManager Aead
  pub pending_auths : List (ℕ × PendingAuth)
  pub last_register_time : List (ℕ × ℕ)

abbrev pub or_none : {E A : Type 0} → Result E A → Option A
or_none (ok a) = some a
or_none (err e) = none

-- `crypto.NewAEAD`, as the session manager calls it.
abbrev pub aead_of : {B : Type 0} → Ciphers B → List ℕ → Option Aead
aead_of ciphers key = or_none (new_aead ciphers.new_cipher ciphers.new_gcm key)
