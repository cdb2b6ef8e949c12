-- ===== src/Data/Session/Invariant.antt =====
-- internal/data/session.go: what every call of a session manager keeps.
use multicast_bridge.Common.{
  sym, ℕ, suc, ◌≤◌, ◌≡◌, refl, ap, ◌∙◌, ◌==◌, inl, inr, Bool, true, false, List, [], ◌∷◌, length,
  All, none, some, arith, Bool-cases,
}
use native.Mathlib.Decide.{ℕ_discrete}
use multicast_bridge.Common.Assoc.{lookup, insert, delete, lookup-insert, lookup-delete}
use multicast_bridge.Data.Session.{Session, SessionManager}

module _ {A : Type 0} where
  -- `done` is whether the manager's context is done.
  pub record IsLive (done : Bool) (key : ℕ) (s : Session A) : Type 0 where
    pub same_id : s.id ≡ key
    pub running : s.cancelled ≡ done
    pub opened : s.queue.closed ≡ false

  -- Each session is live, and no key comes twice.
  unfoldable pub AreLive : Bool → List (ℕ × Session A) → Type 0
  AreLive done [] = Unit
  AreLive done ((key, s) ∷ rest) = IsLive done key s × (lookup key rest ≡ none) × AreLive done rest

  pub record IsStopped (s : Session A) : Type 0 where
    pub done : s.cancelled ≡ true
    pub shut : s.queue.closed ≡ true

  -- There are at most `maxSessions` sessions, one for an address, each with its own key as its
  -- name and an open queue, and running until the manager's context is done; every session that has left the map is cancelled and has a
  -- closed queue, so that its worker ends.
  pub record IsSound (sm : SessionManager A) : Type 0 where
    pub bounded : length sm.sessions ≤ sm.max_sessions
    pub live : AreLive sm.cancelled sm.sessions
    pub ended : All IsStopped sm.stopped

  IsLive-known :
      (done : Bool) (key j : ℕ) (s x : Session A)
      → IsLive done j x
      → j ≡ key
      → x ≡ s
      → IsLive done key s
  IsLive-known done key j s x v e f = record {
    same_id = sym (ap (λ y. y.id) f) ∙ v.same_id ∙ e;
    running = sym (ap (λ y. y.cancelled) f) ∙ v.running;
    opened = sym (ap (λ y. y.queue.closed) f) ∙ v.opened;
  }

  pub lookup-IsLive :
      (done : Bool) (m : List (ℕ × Session A)) (key : ℕ) (s : Session A)
      → AreLive done m
      → lookup key m ≡ some s
      → IsLive done key s
  unfolding lookup AreLive
  lookup-IsLive done [] key s v e = cc
  lookup-IsLive done ((j, x) ∷ m) key s v e = elim (ℕ_discrete j key) [
    | yes q ↦ IsLive-known _ key j s x v.0 q (ground (arith, e))
    | no q ↦ lookup-IsLive _ m key s v.2 (ground (arith, e))
  ]

  pub delete-AreLive :
      (done : Bool) (key : ℕ) (m : List (ℕ × Session A))
      → AreLive done m
      → AreLive done (delete key m)
  unfolding delete AreLive
  delete-AreLive done key [] v = tt
  delete-AreLive done key ((j, x) ∷ m) v = elim (Bool-cases (j == key)) [
    | inl e ↦ rw e (delete-AreLive _ key m v.2)
    | inr e ↦ rw e (v.0, ground (arith, lookup-delete key j m, v.1), delete-AreLive _ key m v.2)
  ]

  pub insert-AreLive :
      (done : Bool) (key : ℕ) (s : Session A) (m : List (ℕ × Session A))
      → IsLive done key s
      → AreLive done m
      → AreLive done (insert key s m)
  unfolding insert AreLive lookup
  insert-AreLive done key s [] l v = (l, refl, tt)
  insert-AreLive done key s ((j, x) ∷ m) l v = elim (Bool-cases (j == key)) [
    | inl e ↦ rw e (l, ground (arith, v.1), v.2)
    | inr e ↦
        rw e (v.0, ground (arith, lookup-insert key j s m, v.1), insert-AreLive _ key s m l v.2)
  ]

  pub length-delete : (key : ℕ) (m : List (ℕ × Session A)) → length (delete key m) ≤ length m
  unfolding delete
  length-delete key [] = omega arith
  length-delete key ((j, x) ∷ m) = ground (arith, length-delete key m)

  pub length-insert :
      (key : ℕ) (s : Session A) (m : List (ℕ × Session A))
      → length (insert key s m) ≤ suc (length m)
  unfolding insert
  length-insert key s [] = omega arith
  length-insert key s ((j, x) ∷ m) = ground (arith, length-insert key s m)

  -- A session that is replaced leaves the number alone.
  pub length-insert_known :
      (key : ℕ) (s t : Session A) (m : List (ℕ × Session A))
      → lookup key m ≡ some t
      → length (insert key s m) ≡ length m
  unfolding insert lookup
  length-insert_known key s t [] e = cc
  length-insert_known key s t ((j, x) ∷ m) e = ground (arith, length-insert_known key s t m)
