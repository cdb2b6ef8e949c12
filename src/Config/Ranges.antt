-- ===== src/Config/Ranges.antt =====
-- internal/config/config.go: what each test of the two `Validate` methods asks of a setting.
use multicast_bridge.Common.{
  ℕ, ◌+◌, ◌≤◌, ◌≡◌, refl, ◌≢◌, ◌↔◌, ◌⊎◌, Bool, true, false, ◌||◌, List, [], ◌∷◌, arith,
}
use multicast_bridge.Common.Int.{ℤ, pos, negsuc, pos_part, neg_part, less}
use multicast_bridge.Common.Text.{text}
use multicast_bridge.Common.Results.{ok, err}
use multicast_bridge.Config.{FecConfig, EncryptionConfig}
use multicast_bridge.Config.Checks.{
  ConfigError, Check, refuse, ◌>>◌, only_if, outside, is_not_positive, is_empty,
}

-- A conjunction that groups to the right, as the tests follow each other.
infixr 4 ◌and◌
abbrev pub ◌and◌ : Type 0 → Type 0 → Type 0
P and Q = P × Q

-- The order of the integers.
abbrev pub AtMost : ℤ → ℤ → Type 0
AtMost a b = pos_part a + neg_part b ≤ pos_part b + neg_part a

abbrev pub IsIn : ℕ → ℕ → ℤ → Type 0
IsIn low high z = AtMost (pos low) z × AtMost z (pos high)

abbrev pub IsPositive : ℤ → Type 0
IsPositive z = AtMost (pos 1) z

abbrev pub IsLevel : List ℕ → Type 0
IsLevel level =
    (level ≡ text "DEBUG")
    ⊎ ((level ≡ text "INFO") ⊎ ((level ≡ text "WARN") ⊎ (level ≡ text "ERROR")))

-- A setting that is off is not looked at.
abbrev pub IsFec : FecConfig → Type 0
IsFec fec = fec.enabled ≡ true → (IsPositive fec.k and AtMost fec.k fec.n and AtMost fec.n (pos 16))

abbrev pub IsEncryption : EncryptionConfig → Type 0
IsEncryption encryption =
    encryption.enabled ≡ true → (encryption.passphrase ≢ []) × IsPositive encryption.iterations

pub refuse_iff : (b : Bool) (e : ConfigError) → (refuse b e ≡ ok tt) ↔ (b ≡ false)
refuse_iff true e = (λ h. cc, λ h. cc)
refuse_iff false e = (λ h. refl, λ h. refl)

pub then_iff :
    {P Q : Type 0}
    → (a b : Check) → (a ≡ ok tt) ↔ P
    → (b ≡ ok tt) ↔ Q
    → ((a >> b) ≡ ok tt) ↔ (P × Q)
then_iff (ok tt) b p q = (λ h. (p.0 refl, q.0 h), λ h. q.1 h.1)
then_iff (err e) b p q = (λ h. cc, λ h. cc (p.1 h.0))

pub only_if_iff :
    {P : Type 0} → (b : Bool) (c : Check) → (c ≡ ok tt) ↔ P → (only_if b c ≡ ok tt) ↔ (b ≡ true → P)
only_if_iff true c p = (λ h _. p.0 h, λ h. p.1 (h refl))
only_if_iff false c p = (λ h e. cc, λ h. refl)

less_iff : (a b : ℤ) → (less a b ≡ false) ↔ AtMost b a
less_iff (pos a) (pos b) = ground arith
less_iff (pos a) (negsuc b) = ground arith
less_iff (negsuc a) (pos b) = ground arith
less_iff (negsuc a) (negsuc b) = ground arith

or-false : (x y : Bool) → ((x || y) ≡ false) ↔ ((x ≡ false) × (y ≡ false))
or-false true y = (λ h. cc, λ h. cc (h.0))
or-false false y = (λ h. (refl, h), λ h. h.1)

pub iff_trans : {P Q R : Type 0} → P ↔ Q → Q ↔ R → P ↔ R
iff_trans a b = (λ p. b.0 (a.0 p), λ r. a.1 (b.1 r))

both : {P Q R S : Type 0} → P ↔ R → Q ↔ S → (P × Q) ↔ (R × S)
both a b = (λ p. (a.0 p.0, b.0 p.1), λ p. (a.1 p.0, b.1 p.1))

positive_lem : (z : ℤ) → (is_not_positive z ≡ false) ↔ IsPositive z
positive_lem (pos n) = ground arith
positive_lem (negsuc n) = ground arith

pub IsIn-iff :
    (low high : ℕ) (z : ℤ) (e : ConfigError)
    → (refuse (outside low high z) e ≡ ok tt) ↔ IsIn low high z
IsIn-iff low high z e = iff_trans (refuse_iff _ e) (
    iff_trans (or-false (less z (pos low)) (less (pos high) z))
      (both (less_iff z (pos low)) (less_iff (pos high) z)))

pub IsPositive-iff :
    (z : ℤ) (e : ConfigError) → (refuse (is_not_positive z) e ≡ ok tt) ↔ IsPositive z
IsPositive-iff z e = iff_trans (refuse_iff _ e) (positive_lem z)

pub AtMost-iff : (a b : ℤ) (e : ConfigError) → (refuse (less a b) e ≡ ok tt) ↔ AtMost b a
AtMost-iff a b e = iff_trans (refuse_iff _ e) (less_iff a b)

pub not_empty_iff : (s : List ℕ) (e : ConfigError) → (refuse (is_empty s) e ≡ ok tt) ↔ (s ≢ [])
not_empty_iff [] e = (λ h. cc, λ h. absurd (h refl))
not_empty_iff (b ∷ s) e = (λ h q. cc, λ h. refl)
