-- ===== src/Data/Session/Renew.antt =====
-- internal/data/session.go: the session of a control address after a keep-alive.
use native.Mathlib.Decide.{ℕ_discrete}
use multicast_bridge.Common.{
  ℕ, ◌≡◌, refl, sym, ap, ◌∙◌, ◌==◌, if◌then◌else◌, Bool, true, false, inl, inr, List, [], ◌∷◌,
  Option, none, some, arith, Bool-cases,
}
use multicast_bridge.Common.Assoc.{lookup, insert}
use multicast_bridge.Data.Session.{
  Session, SessionManager, same_control, by_control_addr, session_of, touch_found,
  get_session_by_control_addr, update_last_active_by_control_addr,
}
use multicast_bridge.Data.Session.Invariant.{AreLive}
use multicast_bridge.Data.Session.Keep.{by_control_addr-lookup}

if-true : {A : Type 0} → (b : Bool) (x y z : A) → b ≡ true → (if b then x else y) ≡ z → x ≡ z
if-true true x y z e f = f
if-true false x y z e f = cc

if-false : {A : Type 0} → (b : Bool) (x y z : A) → b ≡ false → (if b then x else y) ≡ z → y ≡ z
if-false true x y z e f = cc
if-false false x y z e f = f

some_injective : {A : Type 0} → (x y : Session A) → some x ≡ some y → x ≡ y
some_injective x y e = cc

some_pair :
    {A : Type 0}
    → (j key : ℕ) (x s : Session A) → ◌≡◌ {A = Option (ℕ × Session A)} (some (j, x)) (some (key, s))
    → (j ≡ key) × (x ≡ s)
some_pair j key x s e = (cc, cc)

module _ {A : Type 0} (control_addr : ℕ) where
  known_twice :
      (m : List (ℕ × Session A)) (j key : ℕ) (s : Session A)
      → j ≡ key
      → lookup j m ≡ none
      → lookup key m ≡ some s
      → (j == key) ≡ false
  known_twice m j key s q v e = let both : none ≡ some s = sym v ∙ ap (λ k. lookup k m) q ∙ e in cc

  -- A session of the same control address in the place of the first one is the first one.
  by_control_addr-insert :
      (done : Bool) (m : List (ℕ × Session A)) (key : ℕ) (s t : Session A)
      → AreLive done m
      → t.control_addr ≡ s.control_addr
      → by_control_addr control_addr m ≡ some (key, s)
      → by_control_addr control_addr (insert key t m) ≡ some (key, t)
  unfolding AreLive insert
  by_control_addr-insert done [] key s t v same e = cc
  by_control_addr-insert done ((j, x) ∷ m) key s t v same e =
      elim (Bool-cases (same_control control_addr x.control_addr)) [
        | inl p ↦
            let (q, r) = some_pair j key x s (if-true _ _ _ _ p e) in
            let at : same_control control_addr t.control_addr ≡ true =
              ap (same_control control_addr) (same ∙ sym (ap (λ (y : Session A). y.control_addr) r))
              ∙ p in
            let here : (j == key) ≡ true = ground (arith, q) in rw here (rw at refl)
        | inr p ↦
            let e' : by_control_addr control_addr m ≡ some (key, s) = if-false _ _ _ _ p e in
            let known : lookup key m ≡ some s =
              by_control_addr-lookup _ control_addr m key s v.2 e' in
            let away : (j == key) ≡ false = elim (ℕ_discrete j key) [
              | yes q ↦ known_twice m j key s q v.1 known
              | no q ↦ ground (arith, q)
            ] in
            rw away (rw p (by_control_addr-insert _ m key s t v.2 same e'))
      ]

  pub update-get :
      (sm : SessionManager A) (now : ℕ) (s : Session A)
      → AreLive sm.cancelled sm.sessions
      → get_session_by_control_addr sm control_addr ≡ some s
      → get_session_by_control_addr
          (update_last_active_by_control_addr sm control_addr now)
          control_addr
        ≡ some (record s { last_active = now })
  unfolding get_session_by_control_addr update_last_active_by_control_addr
  update-get sm now s v e = found_update _ refl e
    where
      found_update :
          (found : Option (ℕ × Session A))
          → by_control_addr control_addr sm.sessions ≡ found
          → session_of found ≡ some s
          → session_of (by_control_addr control_addr (touch_found sm now found).sessions)
            ≡ some (record s { last_active = now })
      found_update none f g = cc
      found_update (some (key, t)) f g =
          let same : t ≡ s = some_injective t s g in
          ap session_of
            (by_control_addr-insert _ sm.sessions key t (record t { last_active = now }) v refl f)
          ∙ ap (λ (x : Session A). some (record x { last_active = now })) same
