-- ===== src/Sender/Challenges.antt =====
-- cmd/send.go: no handler leaves more than one challenge for an IP.
use mathlib.Core.Path.{subst}
use native.Mathlib.Decide.{ℕ_discrete}
use multicast_bridge.Common.{
  ℕ, ◌+◌, ◌≤◌, ◌≡◌, refl, ◌==◌, if◌then◌else◌, leb, Bool, true, false, not, List, [], ◌∷◌, Option,
  none, some, arith,
}
use multicast_bridge.Common.Results.{Result, ok, err}
use multicast_bridge.Common.Assoc.{lookup, insert, delete}
use multicast_bridge.Config.{SendConfig}
use multicast_bridge.Control.Payload.{Register, Response}
use multicast_bridge.Crypto.{Aead, CryptoError, generate_random_bytes}
use multicast_bridge.Data.Session.{Session}
use multicast_bridge.Sender.{Network, Ciphers, Moment, PendingAuth, SenderControl}
use multicast_bridge.Sender.Handler.{
  Handled, expire, pending_count, is_recent, challenge, register_plain, registered, on_register,
  establish, responded, on_auth_response, target_ip,
}

pub pending_count-expire :
    (ip now : ℕ) (m : List (ℕ × PendingAuth)) → pending_count ip (expire now m) ≤ pending_count ip m
unfolding pending_count expire
pending_count-expire ip now [] = omega arith
pending_count-expire ip now ((j, p) ∷ m) = ground (arith, pending_count-expire ip now m)

pending_count-delete :
    (ip key : ℕ) (m : List (ℕ × PendingAuth)) → pending_count ip (delete key m) ≤ pending_count ip m
unfolding pending_count delete
pending_count-delete ip key [] = omega arith
pending_count-delete ip key ((j, p) ∷ m) = ground (arith, pending_count-delete ip key m)

pending_count-insert :
    (ip key : ℕ) (p : PendingAuth) (m : List (ℕ × PendingAuth))
    → pending_count ip (insert key p m) ≤ (if p.control_ip == ip then 1 else 0) + pending_count ip m
unfolding pending_count insert
pending_count-insert ip key p [] = ground arith
pending_count-insert ip key p ((j, q) ∷ m) = ground (arith, pending_count-insert ip key p m)

-- No IP has more than one challenge.
abbrev pub OnePending : SenderControl → Type 0
OnePending st = (ip : ℕ) → pending_count ip st.pending_auths ≤ 1

without_pending-OnePending :
    (st : SenderControl) (raddr : ℕ)
    → OnePending st
    → OnePending (record st { pending_auths = delete raddr st.pending_auths })
without_pending-OnePending st raddr v ip =
    omega (arith, v ip, pending_count-delete ip raddr st.pending_auths)

-- A challenge for an IP that has none.
insert-OnePending :
    (st : SenderControl) (raddr : ℕ) (p : PendingAuth)
    → pending_count p.control_ip st.pending_auths ≡ 0
    → OnePending st
    → OnePending (record st { pending_auths = insert raddr p st.pending_auths })
insert-OnePending st raddr p none_yet v ip = elim (ℕ_discrete p.control_ip ip) [
  | yes q ↦
      let zero_here : pending_count ip st.pending_auths ≡ 0 =
        subst (λ i. pending_count i st.pending_auths ≡ 0) q none_yet in
      ground (arith, zero_here, pending_count-insert ip raddr p st.pending_auths)
  | no q ↦ ground (arith, q, v ip, pending_count-insert ip raddr p st.pending_auths)
]

pub cond-OnePending :
    (b : Bool) (x y : Handled)
    → (b ≡ true → OnePending x.0)
    → (b ≡ false → OnePending y.0)
    → OnePending (if b then x else y).0
cond-OnePending true x y p q = p refl
cond-OnePending false x y p q = q refl

module _ {B : Type 0} (net : Network) (ciphers : Ciphers B) (cfg : SendConfig) (raddr : ℕ)
    (m : Moment) where
  challenge-OnePending :
      (st : SenderControl) (reg : Register) (drawn : Result CryptoError (List ℕ))
      → pending_count (net.ip_of raddr) st.pending_auths ≡ 0
      → OnePending st
      → OnePending (challenge net ciphers cfg st raddr reg m drawn).0
  challenge-OnePending st reg (err e) none_yet v = v
  challenge-OnePending st reg (ok rand_a) none_yet v = insert-OnePending st raddr _ none_yet v

  register_plain-OnePending :
      (st : SenderControl) (existing : Option (Session Aead)) (target : Option ℕ)
      → OnePending st
      → OnePending (register_plain net ciphers cfg st raddr m existing target).0
  register_plain-OnePending st existing none v = v
  register_plain-OnePending st (some s) (some target) v = v
  register_plain-OnePending st none (some target) v = v

  registered-OnePending :
      (st : SenderControl) (reg : Register)
      → OnePending st
      → OnePending (registered net ciphers cfg st raddr reg m).0
  registered-OnePending st reg v =
      cond-OnePending cfg.encryption.enabled _ _
        (λ on.
          cond-OnePending (leb 1 (pending_count (net.ip_of raddr) st.pending_auths)) _ _ (λ e. v)
            (λ e.
              challenge-OnePending st reg (generate_random_bytes m.random 32) (ground (arith, e))
                v))
        (λ off.
          register_plain-OnePending st _
            (net.resolve (target_ip net ciphers cfg raddr reg.ip_addr) reg.data_port) v)

  pub on_register-OnePending :
      {E : Type 0}
      → (st : SenderControl) (reg : Result E Register) → OnePending st
      → OnePending (on_register net ciphers cfg st raddr reg m).0
  on_register-OnePending st (err e) v = v
  on_register-OnePending st (ok reg) v =
      cond-OnePending (is_recent m.checked (lookup (net.ip_of raddr) st.last_register_time)) _ _
        (λ e. v)
        (λ e.
          registered-OnePending
            (record st {
              last_register_time = insert (net.ip_of raddr) m.noted st.last_register_time;
            })
            reg v)

  establish-OnePending :
      (st : SenderControl) (p : PendingAuth) (target : Option ℕ)
      → OnePending st
      → OnePending (establish net ciphers cfg st raddr p m target).0
  establish-OnePending st p none v = without_pending-OnePending st raddr v
  establish-OnePending st p (some target) v = without_pending-OnePending st raddr v

  responded-OnePending :
      (st : SenderControl) (resp : Response) (found : Option PendingAuth)
      → OnePending st
      → OnePending (responded net ciphers cfg st raddr resp m found).0
  responded-OnePending st resp none v = v
  responded-OnePending st resp (some p) v =
      cond-OnePending _ _ _ (λ wrong. without_pending-OnePending st raddr v)
        (λ right.
          establish-OnePending st p
            (net.resolve (target_ip net ciphers cfg raddr p.ip_addr) p.data_port) v)

  pub on_auth_response-OnePending :
      {E : Type 0}
      → (st : SenderControl) (resp : Result E Response) → OnePending st
      → OnePending (on_auth_response net ciphers cfg st raddr resp m).0
  on_auth_response-OnePending st (err e) v = v
  on_auth_response-OnePending st (ok resp) v =
      cond-OnePending (not cfg.encryption.enabled) _ _ (λ off. v)
        (λ on. responded-OnePending st resp (lookup raddr st.pending_auths) v)
