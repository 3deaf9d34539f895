-- ===== src/PortSet/Words.antt =====
-- The zeros and the ones at the end of a word.
use native.Mathlib.Decide.{dec_lt, ℕ_discrete}
use native.Mathlib.Nat.{pow-suc, div-div-eq-div-mul, pow-le-pow_right}
use shadowsocks.Base.{
  ℕ, zero, suc, ◌+◌, ◌-◌, ◌*◌, ◌/◌, ◌^◌, ◌≤◌, ◌<◌, ◌≡◌, refl, sym, ap, ◌∙◌, subst, true, false, not,
  arith, Bool-cases, inl, inr,
}
use shadowsocks.Base.Bits.{test_bit, test_bit_zero, test_bit_complement, test_bit_high, complement}
use shadowsocks.PortSet.{trailing_zeros}
use shadowsocks.PortSet.First.{trailing_zeros_lem}

half_word : (k : ℕ) → k < 64 → 2 ^ k ≤ 2 ^ 63
half_word k h = pow-le-pow_right {n = 2} (omega arith) {j = 63} (omega arith)

pub zeros_below : (w k : ℕ) → w < 2 ^ 64 → k < trailing_zeros 64 w → test_bit w k ≡ false
zeros_below w k h l = elim (ℕ_discrete w 0) [
  | yes z ↦ rw z (test_bit_zero k)
  | no n ↦
      let (lt, low) = trailing_zeros_lem 64 w h n in
      elim (Bool-cases (test_bit w k)) [
        | inl e ↦ absurd (omega (arith, low.least k e, l))
        | inr e ↦ e
      ]
]

-- The ones at the end of a word.
pub ones_below :
    (w k : ℕ) → w < 2 ^ 64 → k < 64 → k < trailing_zeros 64 (complement w) → test_bit w k ≡ true
ones_below w k h small l =
    let e : not (test_bit w k) ≡ false =
      sym (test_bit_complement 64 w k h small) ∙ zeros_below (complement w) k (omega arith) l in
    ground (arith, e)

pub test_bit_shift : (z w k : ℕ) → test_bit (w / 2 ^ z) k ≡ test_bit w (z + k)
test_bit_shift zero w k =
    ap (λ t. test_bit t k) {x = w / 1} {y = w} (omega arith)
    ∙ ap (test_bit w) {x = k} {y = zero + k} (omega arith)
test_bit_shift (suc z) w k =
    ap (λ t. test_bit (w / t) k) {x = 2 ^ suc z} {y = 2 * 2 ^ z} (omega (arith, pow-suc 2 z))
    ∙ ap (λ t. test_bit t k) (sym (div-div-eq-div-mul w 2 (2 ^ z)))
    ∙ test_bit_shift z (w / 2) k
    ∙ ap (test_bit w) {x = suc (z + k)} {y = suc z + k} (omega arith)

pub shift_bound : (z bits w : ℕ) → z ≤ bits → w < 2 ^ bits → w / 2 ^ z < 2 ^ (bits - z)
shift_bound zero bits w l h =
    subst (λ t. w / 1 < 2 ^ t) {x = bits} {y = bits - zero} (omega arith) (omega (arith, h))
shift_bound (suc z) zero w l h = absurd (omega (arith, l))
shift_bound (suc z) (suc bits) w l h =
    let whole : w / 2 ^ suc z ≡ w / 2 / 2 ^ z =
      ap (λ t. w / t) {x = 2 ^ suc z} {y = 2 * 2 ^ z} (omega (arith, pow-suc 2 z))
      ∙ sym (div-div-eq-div-mul w 2 (2 ^ z)) in
    let rest : w / 2 / 2 ^ z < 2 ^ (bits - z) =
      shift_bound z bits (w / 2) (omega (arith, l)) (omega (arith, h, pow-suc 2 bits)) in
    subst (λ t. t < 2 ^ (suc bits - suc z)) (sym whole)
      (subst (λ t. w / 2 / 2 ^ z < 2 ^ t) {x = bits - z} {y = suc bits - suc z} (omega arith) rest)

no_zeros_lem : trailing_zeros 64 0 ≡ 64
unfolding trailing_zeros
no_zeros_lem = refl

-- The ones at the end of a word of some bits that is odd.
pub ones_bounds :
    (block bits : ℕ)
    → bits ≤ 64
    → block < 2 ^ bits
    → block < 2 ^ 64
    → test_bit block 0 ≡ true
    → (1 ≤ trailing_zeros 64 (complement block)) × (trailing_zeros 64 (complement block) ≤ bits)
ones_bounds block bits le h hw odd = elim (ℕ_discrete (complement block) 0) [
  | yes z ↦
      let full : bits ≡ 64 = elim (ℕ_discrete bits 64) [
        | yes e ↦ e
        | no n ↦ absurd (omega (arith, z, h, hw, half_word bits (omega (arith, le, n))))
      ] in
      rw (z, no_zeros_lem) (omega arith, omega (arith, full))
  | no n ↦
      let (lt, low) = trailing_zeros_lem 64 (complement block) (omega arith) n in
      let even : test_bit (complement block) 0 ≡ false =
        test_bit_complement 64 block 0 hw (omega arith) ∙ ap not odd in
      (
        elim (ℕ_discrete (trailing_zeros 64 (complement block)) 0) [
          | yes z ↦ absurd (cc (low.holds, z, even))
          | no k ↦ omega (arith, k)
        ],
        elim (dec_lt bits 64) [
          | no k ↦ omega (arith, k, lt)
          | yes k ↦ low.least bits (
              test_bit_complement 64 block bits hw k
              ∙ ap not (test_bit_high bits block bits h (omega arith)))
        ],
      )
]

-- A word with no zeros at its end is odd.
pub odd_lem :
    (w : ℕ) → w < 2 ^ 64 → trailing_zeros 64 w < 64 → test_bit w (trailing_zeros 64 w) ≡ true
odd_lem w h l = elim (ℕ_discrete w 0) [
  | yes z ↦ absurd (omega (arith, l, ap (trailing_zeros 64) z, no_zeros_lem))
  | no n ↦ (trailing_zeros_lem 64 w h n).1.holds
]
