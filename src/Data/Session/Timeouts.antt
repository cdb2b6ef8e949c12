-- ===== src/Data/Session/Timeouts.antt =====
-- internal/data/session.go: which sessions `CheckTimeouts` removes.
use native.Mathlib.Decide.{ℕ_discrete}
use multicast_bridge.Common.{
  ℕ, ◌-◌, ◌≡◌, refl, sym, ap, ◌∙◌, ◌==◌, if◌then◌else◌, leb, Bool, false, ◌||◌, List, [], ◌∷◌, ◌++◌,
  Option, none, some, arith,
}
use multicast_bridge.Common.Int.{ℤ, pos, negsuc}
use multicast_bridge.Common.Assoc.{lookup, lookup-delete}
use multicast_bridge.Data.Session.{
  Session, SessionManager, timed_out, take_out, remove_session, is_late, late_keys, remove_late,
  check_timeouts,
}
use multicast_bridge.Data.Session.Invariant.{AreLive}

abbrev among : ℕ → List ℕ → Bool
among key [] = false
among key (k ∷ ks) = (k == key) || among key ks

module _ {A : Type 0} where
  abbrev late : ℤ → ℕ → Option (Session A) → Bool
  late timeout now none = false
  late timeout now (some s) = is_late timeout now s

  -- The session, if at the moment `now` it has been active within the timeout; no activity is within
  -- a negative one.
  abbrev pub on_time : ℤ → ℕ → Option (Session A) → Option (Session A)
  on_time timeout now none = none
  on_time (pos limit) now (some s) = if leb (now - s.last_active) limit then some s else none
  on_time (negsuc limit) now (some s) = none

  lookup-take_out :
      (sm : SessionManager A) (key other : ℕ) (found : Option (Session A))
      → lookup key sm.sessions ≡ found
      → lookup other (take_out sm key found).sessions
        ≡ (if key == other then none else lookup other sm.sessions)
  lookup-take_out sm key other none e = elim (ℕ_discrete key other) [
    | yes q ↦ ground (arith, ap (λ k. lookup k sm.sessions) q, e)
    | no q ↦ ground arith
  ]
  lookup-take_out sm key other (some s) e = ground (arith, lookup-delete key other sm.sessions)

  lookup-remove_late :
      (keys : List ℕ) (sm : SessionManager A) (key : ℕ)
      → lookup key (remove_late keys sm).sessions
        ≡ (if among key keys then none else lookup key sm.sessions)
  unfolding remove_session
  lookup-remove_late [] sm key = refl
  lookup-remove_late (k ∷ ks) sm key =
      let noted = record sm { notes = sm.notes ++ (timed_out k ∷ []) } in
      ground (
        arith,
        lookup-remove_late ks (remove_session noted k) key,
        lookup-take_out noted k key (lookup k sm.sessions) refl,
      )

  among-late_keys :
      (done : Bool) (timeout : ℤ) (now key : ℕ) (m : List (ℕ × Session A))
      → AreLive done m
      → among key (late_keys timeout now m) ≡ late timeout now (lookup key m)
  unfolding AreLive lookup
  among-late_keys done timeout now key [] v = refl
  among-late_keys done timeout now key ((j, x) ∷ m) v = elim (ℕ_discrete j key) [
    | yes q ↦
        let gone : among key (late_keys timeout now m) ≡ false =
          among-late_keys _ timeout now key m v.2
          ∙ ap (late timeout now) (ap (λ k. lookup k m) (sym q) ∙ v.1) in
        let found : lookup key ((j, x) ∷ m) ≡ some x = ground arith in
        rw found (ground (arith, gone))
    | no q ↦
        let skipped : lookup key ((j, x) ∷ m) ≡ lookup key m = ground arith in
        rw skipped (ground (arith, among-late_keys _ timeout now key m v.2))
  ]

  on_time_lem :
      (timeout : ℤ) (now : ℕ) (found : Option (Session A))
      → (if late timeout now found then none else found) ≡ on_time timeout now found
  on_time_lem timeout now none = refl
  on_time_lem (pos limit) now (some s) = ground arith
  on_time_lem (negsuc limit) now (some s) = refl

  -- When no key comes twice among the live sessions, a session is there after `CheckTimeouts`
  -- exactly if it was there and its last activity is not longer ago than the timeout, and then it is
  -- unchanged, if no other call comes between the scan and the removals.
  pub lookup-check_timeouts :
      (sm : SessionManager A) (timeout : ℤ) (now key : ℕ)
      → AreLive sm.cancelled sm.sessions
      → lookup key (check_timeouts sm timeout now).sessions
        ≡ on_time timeout now (lookup key sm.sessions)
  unfolding check_timeouts
  lookup-check_timeouts sm timeout now key v =
      lookup-remove_late (late_keys timeout now sm.sessions) sm key
      ∙ ap (λ b. if b then none else lookup key sm.sessions)
          (among-late_keys _ timeout now key sm.sessions v)
      ∙ on_time_lem timeout now (lookup key sm.sessions)
