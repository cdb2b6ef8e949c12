-- ===== src/Data/Session/Worker/Info.antt =====
-- internal/data/session.go and cmd/recv.go: the FEC field of the header, as the sender makes it and the
-- receiver takes it apart.
use multicast_bridge.Common.{
  ℕ, zero, suc, ◌+◌, ◌*◌, ◌/◌, ◌%◌, ◌^◌, ◌<◌, ◌≡◌, refl, ap, ◌∙◌, ◌==◌, if◌then◌else◌, Bool, true,
  false, ◌||◌, not, arith, inl, inr, Bool-cases,
}
use native.Mathlib.Nat.{pow-succ'}
use multicast_bridge.Data.Session.Worker.{bit_or, data_info, fec_info_of}

-- `(header.FECInfo & 0x8000) != 0`, `uint16((header.FECInfo >> 4) & 0x7FF)` and
-- `int(header.FECInfo & 0x0F)` of the receiver.
unfoldable pub is_fec_of : ℕ → Bool
is_fec_of info = not (info / 2 ^ 15 % 2 == 0)

unfoldable pub group_num_of : ℕ → ℕ
group_num_of info = info / 2 ^ 4 % 2 ^ 11

unfoldable pub index_of : ℕ → ℕ
index_of info = info % 2 ^ 4

bit_zero : (a : ℕ) → (if (a % 2 == 1) || (0 % 2 == 1) then 1 else 0) ≡ a % 2
bit_zero a = elim (Bool-cases (a % 2 == 1)) [
  | inl e ↦ rw e (ground (arith, e))
  | inr e ↦ rw e (ground (arith, e))
]

pow_suc : (w : ℕ) → 2 ^ suc w ≡ 2 * 2 ^ w
pow_suc w = pow-succ' 2 w

bit_or_zero : (w a : ℕ) → a < 2 ^ w → bit_or w a 0 ≡ a
bit_or_zero zero a h = omega arith
bit_or_zero (suc w) a h =
    omega (arith, bit_zero a, bit_or_zero w (a / 2) (omega (arith, pow_suc w)))

bit_even : (a b : ℕ) → (if (2 * a % 2 == 1) || (b % 2 == 1) then 1 else 0) ≡ b % 2
bit_even a b =
    let even : 2 * a % 2 ≡ 0 = omega arith in
    rw even (elim (Bool-cases (b % 2 == 1)) [
      | inl e ↦ rw e (ground (arith, e))
      | inr e ↦ rw e (ground (arith, e))
    ])

-- Bits that the other number has free are added.
bit_or_even : (w a b : ℕ) → bit_or (suc w) (2 * a) b ≡ b % 2 + 2 * bit_or w a (b / 2)
bit_or_even w a b =
    let half : 2 * a / 2 ≡ a = omega arith in
    omega (arith, bit_even a b, ap (λ x. bit_or w x (b / 2)) half)

four_even :
    (w a b : ℕ)
    → b < 16
    → a < 2 ^ w
    → bit_or (suc (suc (suc (suc w)))) (2 * (2 * (2 * (2 * a)))) b ≡ 16 * a + b
four_even w a b h k =
    let rest : bit_or w a (b / 2 / 2 / 2 / 2) ≡ a =
      ap (bit_or w a) (omega arith) ∙ bit_or_zero w a k in
    omega (
      arith,
      bit_or_even (suc (suc (suc w))) (2 * (2 * (2 * a))) b,
      bit_or_even (suc (suc w)) (2 * (2 * a)) (b / 2),
      bit_or_even (suc w) (2 * a) (b / 2 / 2),
      bit_or_even w a (b / 2 / 2 / 2),
      rest,
    )

pub data_info_lem : (g i : ℕ) → g < 2 ^ 11 → i < 2 ^ 4 → data_info g i ≡ 16 * g + i
unfolding data_info
data_info_lem g i h k =
    let e : g * 16 % 2 ^ 16 ≡ 2 * (2 * (2 * (2 * g))) = omega arith in
    let f : i % 2 ^ 16 ≡ i = omega arith in rw (e, f) (four_even 12 g i k (omega arith))

-- The highest bit and a number below it.
top_bit : (w x : ℕ) → x < 2 ^ w → bit_or (suc w) (2 ^ w) x ≡ 2 ^ w + x
top_bit zero x h = let none_left : x ≡ 0 = omega arith in rw none_left refl
top_bit (suc w) x h =
    ap (λ a. bit_or (suc (suc w)) a x) (pow_suc w)
    ∙ omega (
      arith,
      bit_or_even (suc w) (2 ^ w) x,
      top_bit w (x / 2) (omega (arith, pow_suc w)),
      pow_suc w,
    )

pub fec_info_of_lem : (g i : ℕ) → g < 2 ^ 11 → i < 2 ^ 4 → fec_info_of g i ≡ 2 ^ 15 + 16 * g + i
unfolding fec_info_of
fec_info_of_lem g i h k =
    let e : bit_or 16 (2 ^ 15) (g * 16 % 2 ^ 16) ≡ 2 * (2 * (2 * (2 * (2 ^ 11 + g)))) =
      top_bit 15 (g * 16 % 2 ^ 16) (omega arith) ∙ omega arith in
    let f : i % 2 ^ 16 ≡ i = omega arith in
    rw (e, f) (four_even 12 (2 ^ 11 + g) i k (omega arith) ∙ omega arith)

-- What the receiver reads in the field.
abbrev pub fields : ℕ → Bool × ℕ × ℕ
fields info = (is_fec_of info, group_num_of info, index_of info)

-- The receiver reads the flag, the group and the index that the sender wrote, for data and for
-- redundant packets, if the group is below 2048 and the index below 16.
pub fields-info :
    (g i : ℕ)
    → g < 2 ^ 11
    → i < 2 ^ 4
    → (fields (data_info g i) ≡ (false, g, i)) × (fields (fec_info_of g i) ≡ (true, g, i))
unfolding is_fec_of group_num_of index_of
fields-info g i h k =
    let data_group : (16 * g + i) / 2 ^ 4 % 2 ^ 11 ≡ g = omega arith in
    let data_index : (16 * g + i) % 2 ^ 4 ≡ i = omega arith in
    let data_flag : (16 * g + i) / 2 ^ 15 % 2 ≡ 0 = omega arith in
    let fec_group : (2 ^ 15 + 16 * g + i) / 2 ^ 4 % 2 ^ 11 ≡ g = omega arith in
    let fec_index : (2 ^ 15 + 16 * g + i) % 2 ^ 4 ≡ i = omega arith in
    let fec_flag : (2 ^ 15 + 16 * g + i) / 2 ^ 15 % 2 ≡ 1 = omega arith in
    (
      rw (data_info_lem g i h k, data_flag, data_group, data_index) refl,
      rw (fec_info_of_lem g i h k, fec_flag, fec_group, fec_index) refl,
    )
