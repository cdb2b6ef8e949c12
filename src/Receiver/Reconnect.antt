-- ===== src/Receiver/Reconnect.antt =====
-- cmd/recv.go: the back-off between registrations, the keep-alives, and the wait for a disconnection.
--
-- A time is a number of nanoseconds. The products of the settings are not cut to 64 bits.
pub mod Backoff
use multicast_bridge.Common.{
  ℕ, ◌*◌, ◌==◌, if◌then◌else◌, ltb, Bool, true, false, not, List, [], ◌∷◌, Option, none, some,
}
use multicast_bridge.Common.Int.{ℤ, pos_part}
use multicast_bridge.Common.Results.{Result, ok, err}
use multicast_bridge.Config.{RecvConfig}
use multicast_bridge.Config.Checks.{is_empty, is_not_positive}
use multicast_bridge.Control.{
  Packet, parse_packet, build_packet, type_keep_alive, type_leave, type_disconnect,
}
use multicast_bridge.Crypto.{Aead, CryptoError, encrypt_gcm, decrypt_gcm}
use multicast_bridge.Receiver.Register.{Registration, RegisterError}
use multicast_bridge.Sender.Handler.{second}

abbrev pub max_backoff : ℕ
max_backoff = 16 * second

abbrev pub doubled : ℕ → ℕ
doubled backoff = if ltb max_backoff (backoff * 2) then max_backoff else backoff * 2

-- A registration that is tried again: the context is done in the wait, the socket cannot be dialled, or what
-- `registerWithSender` returns.
pub data Retry : Type 0 where
  cancelled not_dialled : Retry
  tried : Result RegisterError Registration → Retry

-- How the loop ends, with the waits that it made: `none` if the context is done.
abbrev pub Waited : Type 0
Waited = List ℕ × Option Registration

-- What the retries bring is a list, of which the end stands for the end of the context.
unfoldable pub retry_from : ℕ → List Retry → Waited
retry_from backoff [] = (backoff ∷ [], none)
retry_from backoff (cancelled ∷ rs) = (backoff ∷ [], none)
retry_from backoff (not_dialled ∷ rs) =
    let rest = retry_from (doubled backoff) rs in (backoff ∷ rest.0, rest.1)
retry_from backoff (tried (ok r) ∷ rs) = (backoff ∷ [], some r)
retry_from backoff (tried (err e) ∷ rs) =
    let rest = retry_from (doubled backoff) rs in (backoff ∷ rest.0, rest.1)

unfoldable pub retry_registration : List Retry → Waited
retry_registration rs = retry_from (1 * second) rs

-- The multiplier is corrected where it is not positive.
abbrev pub multiplier_of : ℤ → ℕ
multiplier_of z = if is_not_positive z then 3 else pos_part z

unfoldable pub group_timeout_of : RecvConfig → ℕ
group_timeout_of cfg =
    pos_part cfg.keep_alive.interval * multiplier_of cfg.keep_alive.timeout_multiplier * second

-- The interval of the keep-alives, and the time after which the sender counts as lost.
abbrev pub interval_of : ℤ → ℕ
interval_of z = if is_not_positive z then 1 * second else pos_part z * second

unfoldable pub drop_timeout_of : ℤ → ℤ → ℕ
drop_timeout_of interval multiplier = interval_of interval * multiplier_of multiplier

-- What a turn of `listenForDisconnect` meets: the end of the context, a read that fails or times out, with
-- whether the context is done then, or a datagram.
pub data Heard : Type 0 where
  ended : Heard
  failed : Bool → Heard
  datagram : List ℕ → Heard

-- The end of `listenForDisconnect`.
pub data Listened : Type 0 where
  context_done triggered waiting : Listened

module _ {B : Type 0} (new_cipher : List ℕ → Option B) (new_gcm : B → Option Aead) where
  -- What is written to the socket, if it is.
  unfoldable pub write_control_packet :
      (ℕ → Option (List ℕ)) → ℕ → List ℕ → List ℕ → Result CryptoError (List ℕ)
  write_control_packet read p_type payload key =
      let plain = build_packet p_type payload in
      if not (is_empty key) then encrypt_gcm new_cipher new_gcm read plain key else ok plain

  unfoldable pub keep_alive_packet : (ℕ → Option (List ℕ)) → List ℕ → Result CryptoError (List ℕ)
  keep_alive_packet read key = write_control_packet read type_keep_alive [] key

  -- The LEAVE of `CleanUpRecv`.
  unfoldable pub leave_packet : (ℕ → Option (List ℕ)) → List ℕ → Result CryptoError (List ℕ)
  leave_packet read key = write_control_packet read type_leave [] key

  abbrev pub is_disconnect : {E : Type 0} → Result E Packet → Bool
  is_disconnect (err e) = false
  is_disconnect (ok pkt) = pkt.kind == type_disconnect

  abbrev pub read_disconnect : {E : Type 0} → Result E (List ℕ) → Bool
  read_disconnect (err e) = false
  read_disconnect (ok plain) = is_disconnect (parse_packet plain)

  -- Whether a datagram is a DISCONNECT of the sender.
  unfoldable pub disconnects : List ℕ → List ℕ → Bool
  disconnects key bytes =
      if not (is_empty key)
      then read_disconnect (decrypt_gcm new_cipher new_gcm bytes key)
      else is_disconnect (parse_packet bytes)

  unfoldable pub listen_for_disconnect : List ℕ → List Heard → Listened
  listen_for_disconnect key [] = waiting
  listen_for_disconnect key (ended ∷ rs) = context_done
  listen_for_disconnect key (failed true ∷ rs) = context_done
  listen_for_disconnect key (failed false ∷ rs) = triggered
  listen_for_disconnect key (datagram bytes ∷ rs) =
      let rest = listen_for_disconnect key rs in if disconnects key bytes then triggered else rest
