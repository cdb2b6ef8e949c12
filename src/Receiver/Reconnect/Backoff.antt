-- ===== src/Receiver/Reconnect/Backoff.antt =====
-- cmd/recv.go: how long the receiver waits before it tries to register again.
use native.Mathlib.Nat.{pow-succ'}
use multicast_bridge.Common.{
  ℕ, zero, suc, ◌*◌, ◌^◌, ◌≡◌, refl, ap, ◌∙◌, min, List, [], ◌∷◌, ◌++◌, length, All, some, arith,
}
use multicast_bridge.Common.Results.{ok, err}
use multicast_bridge.Receiver.Register.{Registration}
use multicast_bridge.Receiver.Reconnect.{
  doubled, Retry, not_dialled, tried, cancelled, Waited, retry_from, retry_registration,
}
use multicast_bridge.Sender.Handler.{second}

-- Wait number `i`: two to the power of `i` seconds, at most 16.
abbrev pub wait : ℕ → ℕ
wait i = min (2 ^ i) 16 * second

-- The waits from number `i` on.
abbrev pub waits_from : ℕ → ℕ → List ℕ
waits_from i zero = []
waits_from i (suc count) = wait i ∷ waits_from (suc i) count

doubled-wait : (i : ℕ) → doubled (wait i) ≡ wait (suc i)
doubled-wait i = ground (arith, pow-succ' 2 i)

-- The socket could not be dialled, or the sender did not accept.
abbrev pub IsFailure : Retry → Type 0
IsFailure cancelled = ⊥
IsFailure not_dialled = Unit
IsFailure (tried (ok r)) = ⊥
IsFailure (tried (err e)) = Unit

-- One more failure: one more wait, and twice the next one.
abbrev after : ℕ → Waited → Waited
after backoff w = (backoff ∷ w.0, w.1)

retry_from-wait :
    (failures rest : List Retry) (r : Registration) (i : ℕ)
    → All IsFailure failures
    → retry_from (wait i) (failures ++ (tried (ok r) ∷ rest))
      ≡ (waits_from i (suc (length failures)), some r)
unfolding retry_from
retry_from-wait [] rest r i v = refl
retry_from-wait (not_dialled ∷ failures) rest r i v =
    ap (λ b. after (wait i) (retry_from b (failures ++ (tried (ok r) ∷ rest)))) (doubled-wait i)
    ∙ ap (after (wait i)) (retry_from-wait failures rest r (suc i) v.1)
retry_from-wait (tried (err e) ∷ failures) rest r i v =
    ap (λ b. after (wait i) (retry_from b (failures ++ (tried (ok r) ∷ rest)))) (doubled-wait i)
    ∙ ap (after (wait i)) (retry_from-wait failures rest r (suc i) v.1)
retry_from-wait (tried (ok s) ∷ failures) rest r i v = absurd v.0
retry_from-wait (cancelled ∷ failures) rest r i v = absurd v.0

-- However often the registration fails, the retry that succeeds ends the loop with its parameters,
-- and wait number `i`, from 0 on, was 2^i seconds, but never more than 16.
pub retry_registration-wait :
    (failures rest : List Retry) (r : Registration)
    → All IsFailure failures
    → retry_registration (failures ++ (tried (ok r) ∷ rest))
      ≡ (waits_from 0 (suc (length failures)), some r)
unfolding retry_registration
retry_registration-wait failures rest r v = retry_from-wait failures rest r 0 v
