-- ===== src/Receiver/Register/Outcome.antt =====
-- cmd/recv.go: what `registerWithSender` has seen when it returns parameters.
use mathlib.Core.Path.{subst}
use multicast_bridge.Common.{
  ℕ, zero, suc, ◌*◌, ◌≤◌, ◌≡◌, refl, ◌==◌, if◌then◌else◌, ltb, Bool, true, false, not, ◌&&◌, List,
  [], length, Option, none, some, arith, length-append,
}
use multicast_bridge.Common.Int.{ℤ}
use multicast_bridge.Common.Results.{Result, ok, err}
use multicast_bridge.Config.{RecvConfig}
use multicast_bridge.Control.{
  Packet, parse_packet, type_register_ack, type_auth_challenge, type_auth_result, status_success,
}
use multicast_bridge.Control.Payload.{
  Ack, Challenge, AuthResult, decode_register_ack_payload, decode_auth_challenge_payload,
  decode_auth_result_payload,
}
use multicast_bridge.Receiver.Register.{
  Attempt, Registration, RegisterError, Turn, returned, retry, Attempted, accepted, on_auth_result,
  on_result_packet, await_result, on_register_ack, session_key_of, on_challenge, on_response,
  await_response, attempt, Registered, stop_or, attempts_from, register_with_sender,
}

ok_injective :
    (r s : Registration) → ◌≡◌ {A = Result RegisterError Registration} (ok r) (ok s) → r ≡ s
ok_injective r s e = cc

module _ (pbkdf2 : List ℕ → List ℕ → ℤ → ℕ → List ℕ) (hmac : List ℕ → List ℕ → List ℕ)
    (cfg : RecvConfig) where
  -- The index of a packet in its group has four bits on the wire.
  pub record IsUsable (r : Registration) : Type 0 where
    pub indexed : r.n ≤ 16
    pub keyed :
        cfg.encryption.enabled ≡ true
        → (rand_a : List ℕ) × (r.key ≡ session_key_of pbkdf2 hmac cfg rand_a)
    pub not_keyed : cfg.encryption.enabled ≡ false → r.key ≡ []

  abbrev HasKey : List ℕ → Type 0
  HasKey key =
      (cfg.encryption.enabled ≡ true
        → (rand_a : List ℕ) × (key ≡ session_key_of pbkdf2 hmac cfg rand_a))
      × (cfg.encryption.enabled ≡ false → key ≡ [])

  abbrev EndsWell : Turn → Type 0
  EndsWell retry = Unit
  EndsWell (returned (err e)) = Unit
  EndsWell (returned (ok r)) = IsUsable r

  cond-EndsWell :
      (b : Bool) (x y : Turn)
      → (b ≡ true → EndsWell x)
      → (b ≡ false → EndsWell y)
      → EndsWell (if b then x else y)
  cond-EndsWell true x y p q = p refl
  cond-EndsWell false x y p q = q refl

  accepted-EndsWell :
      (k n : ℕ) (key : List ℕ) (denied : RegisterError) (status : ℕ)
      → HasKey key
      → EndsWell (accepted k n key denied status)
  accepted-EndsWell k n key denied status v =
      cond-EndsWell (status == status_success) _ _
        (λ _.
          cond-EndsWell (ltb 16 n) _ _ (λ _. tt)
            (λ e. record { indexed = ground (arith, e); keyed = v.0; not_keyed = v.1 }))
        (λ _. tt)

  await_result-EndsWell :
      (key : List ℕ) (result : Option (List ℕ)) → HasKey key → EndsWell (await_result key result)
  await_result-EndsWell key none v = tt
  await_result-EndsWell key (some bytes) v = of_packet (parse_packet bytes)
    where
      of_result : {E : Type 0} → (r : Result E AuthResult) → EndsWell (on_auth_result key r)
      of_result (err e) = tt
      of_result (ok r) = accepted-EndsWell r.k r.n key _ r.status v

      of_packet : {E : Type 0} → (pkt : Result E Packet) → EndsWell (on_result_packet key pkt)
      of_packet (err e) = tt
      of_packet (ok pkt) =
          cond-EndsWell (pkt.kind == type_auth_result) _ _
            (λ _. of_result (decode_auth_result_payload pkt.payload)) (λ _. tt)

  -- An attempt writes at most two datagrams.
  abbrev IsFine : Attempted → Type 0
  IsFine (sent, turn) = (length sent ≤ 1) × EndsWell turn

  cond-IsFine :
      (b : Bool) (x y : Attempted)
      → (b ≡ true → IsFine x)
      → (b ≡ false → IsFine y)
      → IsFine (if b then x else y)
  cond-IsFine true x y p q = p refl
  cond-IsFine false x y p q = q refl

  and-true : (x y : Bool) → (x && y) ≡ true → y ≡ true
  and-true true y e = e
  and-true false y e = cc

  on_challenge-IsFine :
      {E : Type 0}
      → (a : Attempt) (c : Result E Challenge) → cfg.encryption.enabled ≡ true
      → IsFine (on_challenge pbkdf2 hmac cfg a c)
  on_challenge-IsFine a (err e) on = (omega arith, tt)
  on_challenge-IsFine a (ok c) on = (
    omega arith,
    await_result-EndsWell (session_key_of pbkdf2 hmac cfg c.rand_a) a.result
        (λ _. (c.rand_a, refl), λ off. cc),
  )

  on_register_ack-EndsWell :
      {E : Type 0}
      → (a : Result E Ack) → cfg.encryption.enabled ≡ false
      → EndsWell (on_register_ack a)
  on_register_ack-EndsWell (err e) off = tt
  on_register_ack-EndsWell (ok a) off =
      accepted-EndsWell a.k a.n [] _ a.status (λ on. cc, λ _. refl)

  not-true : (b : Bool) → not b ≡ true → b ≡ false
  not-true true e = cc
  not-true false e = refl

  await_response-IsFine :
      (a : Attempt) (response : Option (List ℕ))
      → IsFine (await_response pbkdf2 hmac cfg a response)
  await_response-IsFine a none = (omega arith, tt)
  await_response-IsFine a (some bytes) = of_packet (parse_packet bytes)
    where
      of_packet :
          {E : Type 0} → (pkt : Result E Packet) → IsFine (on_response pbkdf2 hmac cfg a pkt)
      of_packet (err e) = (omega arith, tt)
      of_packet (ok pkt) =
          cond-IsFine ((pkt.kind == type_auth_challenge) && cfg.encryption.enabled) _ _
            (λ e.
              on_challenge-IsFine a (decode_auth_challenge_payload pkt.payload)
                (and-true _ cfg.encryption.enabled e))
            (λ _.
              cond-IsFine ((pkt.kind == type_register_ack) && not cfg.encryption.enabled) _ _
                (λ e. (
                  omega arith,
                  on_register_ack-EndsWell (decode_register_ack_payload pkt.payload)
                      (not-true cfg.encryption.enabled (and-true _ _ e)),
                ))
                (λ _. (omega arith, tt)))

  abbrev IsWhole : Attempted → Type 0
  IsWhole (sent, turn) = (length sent ≤ 2) × EndsWell turn

  cond-IsWhole : (b : Bool) (x y : Attempted) → IsWhole x → IsWhole y → IsWhole (if b then x else y)
  cond-IsWhole true x y p q = p
  cond-IsWhole false x y p q = q

  attempt-IsWhole : (packet : List ℕ) (a : Attempt) → IsWhole (attempt pbkdf2 hmac cfg packet a)
  unfolding attempt
  attempt-IsWhole packet a =
      let fine = await_response-IsFine a a.response in
      cond-IsWhole a.ended _ _ (omega arith, tt)
        (cond-IsWhole (not a.written) _ _
          (omega arith, cond-EndsWell a.ended_waiting _ _ (λ _. tt) (λ _. tt))
          (omega (arith, fine.0), fine.1))

  abbrev IsRegistered : ℕ → Registered → Type 0
  IsRegistered count reg =
      (length reg.0 ≤ 2 * count) × ((r : Registration) → reg.1 ≡ ok r → IsUsable r)

  same_ok :
      (r s : Registration)
      → IsUsable r
      → ◌≡◌ {A = Result RegisterError Registration} (ok r) (ok s)
      → IsUsable s
  same_ok r s v e = subst IsUsable (ok_injective r s e) v

  stop_or-IsRegistered :
      (count : ℕ) (a : Attempted) (rest : Registered)
      → IsWhole a
      → IsRegistered count rest
      → IsRegistered (suc count) (stop_or a rest)
  stop_or-IsRegistered count (sent, returned (ok r)) rest v w =
      (omega (arith, v.0), λ s e. same_ok r s v.1 e)
  stop_or-IsRegistered count (sent, returned (err e)) rest v w = (omega (arith, v.0), λ r e. cc)
  stop_or-IsRegistered count (sent, retry) rest v w =
      (omega (arith, v.0, w.0, length-append sent rest.0), w.1)

  attempts_from-IsRegistered :
      (packet : List ℕ) (tries : ℕ → Attempt) (left i : ℕ)
      → IsRegistered left (attempts_from pbkdf2 hmac cfg packet tries left i)
  unfolding attempts_from
  attempts_from-IsRegistered packet tries zero i = (omega arith, λ r e. cc)
  attempts_from-IsRegistered packet tries (suc left) i =
      stop_or-IsRegistered left _ _ (attempt-IsWhole packet (tries i))
        (attempts_from-IsRegistered packet tries left (suc i))

  -- Whatever the network brings, `registerWithSender` writes at most six datagrams and returns, and
  -- the parameters it returns are usable: n is at most 16, so that an index fits its field, and
  -- with encryption there is a key that is derived from the passphrase and a challenge, else none.
  pub register_with_sender-IsUsable :
      (tries : ℕ → Attempt) (version ip_addr : List ℕ)
      → (length (register_with_sender pbkdf2 hmac cfg tries version ip_addr).0 ≤ 6)
        × ((r : Registration)
            → (register_with_sender pbkdf2 hmac cfg tries version ip_addr).1 ≡ ok r
            → IsUsable r)
  unfolding register_with_sender
  register_with_sender-IsUsable tries version ip_addr = attempts_from-IsRegistered _ tries 3 1
