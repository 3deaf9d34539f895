-- ===== src/Base/Bits.antt =====
-- The bits of machine words: `&`, `|`, `^`, `<<` and `~` of Go's `uint`, and what each does to bit k.
use Prim.Native.Nat.{
  ℕ, zero, suc, ◌+◌, ◌-◌, ◌*◌, ◌/◌, ◌%◌, ◌^◌, ◌≤◌, ◌<◌, min, max, bit_and, bit_or, bit_xor, differ,
  digits, bitwise, bit_and-bitwise, bit_or-bitwise, bit_xor-bitwise,
}
use mathlib.Core.Path.{◌≡◌, refl, ap, ◌∙◌}
use mathlib.Core.Logic.{◌≢◌}
use mathlib.Core.Bool.{Bool, false, not, ◌&&◌, ◌||◌}
use native.Mathlib.Nat.{
  pow-suc, one-le-pow, le_refl, div-add-mod, mod-lt, mod-eq_of_lt, mul-add-mod_self_left,
  pow-le-pow_right,
}
use native.Mathlib.Omega.{arith}
use shadowsocks.Base.Tests.{ltb, leb, ◌==◌, if◌then◌else◌}

-- Bit k of a word.
abbrev pub test_bit : ℕ → ℕ → Bool
test_bit w zero = w % 2 == 1
test_bit w (suc k) = test_bit (w / 2) k

-- The native operations recur on binary digits with fuel; these drop the fuel.
module _ (z : ℕ → ℕ) (f : ℕ → ℕ → ℕ) where
  digits_enough : (n m a b : ℕ) → a ≤ n → a ≤ m → digits z f n a b ≡ digits z f m a b
  digits_enough zero zero a b p q = refl
  digits_enough zero (suc m) zero b p q = refl
  digits_enough zero (suc m) (suc a) b p q = absurd (omega arith)
  digits_enough (suc n) zero zero b p q = refl
  digits_enough (suc n) zero (suc a) b p q = absurd (omega arith)
  digits_enough (suc n) (suc m) zero b p q = refl
  digits_enough (suc n) (suc m) (suc a) b p q =
      rw (digits_enough n m (suc a / 2) (b / 2) (omega arith) (omega arith))

  lowest_digit :
      (a b : ℕ)
      → bitwise z f (suc a) b ≡ bitwise z f (suc a / 2) (b / 2) * 2 + f (suc a % 2) (b % 2)
  lowest_digit a b =
      omega (arith, digits_enough a (suc a / 2) (suc a / 2) (b / 2) (omega arith) (le_refl _))

or_digit : (a b : ℕ) → bit_or a b ≡ bit_or (a / 2) (b / 2) * 2 + max (a % 2) (b % 2)
or_digit zero b = simp bit_or-bitwise (omega arith)
or_digit (suc a) b = simp bit_or-bitwise (lowest_digit (λ y. y) max a b)

and_digit : (a b : ℕ) → bit_and a b ≡ bit_and (a / 2) (b / 2) * 2 + min (a % 2) (b % 2)
and_digit zero b = simp bit_and-bitwise (omega arith)
and_digit (suc a) b = simp bit_and-bitwise (lowest_digit (λ y. 0) min a b)

and_half : (a b : ℕ) → bit_and a b / 2 ≡ bit_and (a / 2) (b / 2)
and_half a b = omega (arith, and_digit a b)

or_half : (a b : ℕ) → bit_or a b / 2 ≡ bit_or (a / 2) (b / 2)
or_half a b = omega (arith, or_digit a b)

pub test_bit-or : (a b k : ℕ) → test_bit (bit_or a b) k ≡ (test_bit a k || test_bit b k)
test_bit-or a b zero = ground (arith, or_digit a b)
test_bit-or a b (suc k) = rw (or_half a b) (test_bit-or (a / 2) (b / 2) k)

pub test_bit-and : (a b k : ℕ) → test_bit (bit_and a b) k ≡ (test_bit a k && test_bit b k)
test_bit-and a b zero = ground (arith, and_digit a b)
test_bit-and a b (suc k) = rw (and_half a b) (test_bit-and (a / 2) (b / 2) k)

pub test_bit_zero : (k : ℕ) → test_bit 0 k ≡ false
test_bit_zero zero = refl
test_bit_zero (suc k) = test_bit_zero k

double_half : (k : ℕ) → (2 ^ suc k / 2 ≡ 2 ^ k) × (2 ^ suc k % 2 ≡ 0)
double_half k = omega (arith, pow-suc 2 k)

pub test_bit-pow : (k j : ℕ) → test_bit (2 ^ k) j ≡ (k == j)
test_bit-pow zero zero = refl
test_bit-pow zero (suc j) = ground (arith, test_bit_zero j)
test_bit-pow (suc k) zero = ground (arith, double_half k)
test_bit-pow (suc k) (suc j) = rw (double_half k).0 (ground (arith, test_bit-pow k j))

and_zero : (a : ℕ) → bit_and a 0 ≡ 0
and_zero a = go a a (le_refl a)
  where
    go : (n a : ℕ) → a ≤ n → bit_and a 0 ≡ 0
    go n zero h = refl
    go zero (suc a) h = absurd (omega arith)
    go (suc n) (suc a) h = omega (arith, and_digit (suc a) 0, go n (suc a / 2) (omega arith))

zero_and : (b : ℕ) → bit_and 0 b ≡ 0
zero_and b = simp bit_and-bitwise

-- A power of two selects one bit.
pub and_pow : (w k : ℕ) → bit_and w (2 ^ k) ≡ (if test_bit w k then 2 ^ k else 0)
and_pow w zero = ground (arith, and_digit w 1, and_zero (w / 2))
and_pow w (suc k) =
    ground (arith, and_digit w (2 ^ suc k), double_half k, pow-suc 2 k, and_pow (w / 2) k)

pub pow_pos : (k : ℕ) → 1 ≤ 2 ^ k
pow_pos k = one-le-pow k 2 (omega arith)

-- `w & (1 << k)` is not zero exactly when bit k is set.
pub and_pow-eq-zero : (w k : ℕ) → (bit_and w (2 ^ k) == 0) ≡ not (test_bit w k)
and_pow-eq-zero w k = ground (arith, and_pow w k, pow_pos k)

mod_double : (w m : ℕ) → 1 ≤ m → w % (2 * m) ≡ w / 2 % m * 2 + w % 2
mod_double w m h =
    let low : ℕ = w / 2 % m * 2 + w % 2 in
    let whole : w ≡ 2 * m * (w / 2 / m) + low = omega (arith, div-add-mod (w / 2) m) in
    let small : low < 2 * m = omega (arith, mod-lt (w / 2) {m = m} (omega arith)) in
    ap (λ t. t % (2 * m)) whole ∙ mul-add-mod_self_left (2 * m) (w / 2 / m) low ∙ mod-eq_of_lt small

-- A mask of k low bits takes the remainder.
pub and_mask : (k w : ℕ) → bit_and w (2 ^ k - 1) ≡ w % 2 ^ k
and_mask zero w = ground (arith, and_zero w)
and_mask (suc k) w =
    let ones : (2 ^ suc k - 1) / 2 ≡ 2 ^ k - 1 = omega (arith, pow-suc 2 k, pow_pos k) in
    let odd : (2 ^ suc k - 1) % 2 ≡ 1 = omega (arith, pow-suc 2 k, pow_pos k) in
    let twice : 2 ^ suc k ≡ 2 * 2 ^ k = omega (arith, pow-suc 2 k) in
    and_digit w (2 ^ suc k - 1)
    ∙ rw (ones, odd, and_mask k (w / 2), twice, mod_double w (2 ^ k) (pow_pos k)) (omega arith)

-- `~x` of a word of n bits.
pub test_bit_complement :
    (n x k : ℕ) → x < 2 ^ n → k < n → test_bit (2 ^ n - 1 - x) k ≡ not (test_bit x k)
test_bit_complement zero x k h l = absurd (omega arith)
test_bit_complement (suc n) x zero h l = ground (arith, pow-suc 2 n)
test_bit_complement (suc n) x (suc k) h l =
    let e : (2 ^ suc n - 1 - x) / 2 ≡ 2 ^ n - 1 - x / 2 = omega (arith, pow-suc 2 n, pow_pos n) in
    rw e (test_bit_complement n (x / 2) k (omega (arith, pow-suc 2 n)) (omega arith))

-- A number below `2 ^ n` has no bit from n on.
pub test_bit_high : (n x k : ℕ) → x < 2 ^ n → n ≤ k → test_bit x k ≡ false
test_bit_high zero x k h l = let e : x ≡ 0 = omega arith in rw e (test_bit_zero k)
test_bit_high (suc n) x zero h l = absurd (omega arith)
test_bit_high (suc n) x (suc k) h l =
    test_bit_high n (x / 2) k (omega (arith, pow-suc 2 n)) (omega arith)

-- `2 ^ n - 1` has the bits below n.
pub test_bit_ones : (n k : ℕ) → test_bit (2 ^ n - 1) k ≡ ltb k n
test_bit_ones zero k = ground (arith, test_bit_zero k)
test_bit_ones (suc n) zero = ground (arith, pow-suc 2 n, pow_pos n)
test_bit_ones (suc n) (suc k) =
    let e : (2 ^ suc n - 1) / 2 ≡ 2 ^ n - 1 = omega (arith, pow-suc 2 n, pow_pos n) in
    rw e (ground (arith, test_bit_ones n k))

-- Words of n bits with the same bits are equal.
pub word_ext :
    (n a b : ℕ) → a < 2 ^ n → b < 2 ^ n → ((k : ℕ) → k < n → test_bit a k ≡ test_bit b k) → a ≡ b
word_ext zero a b p q h = omega arith
word_ext (suc n) a b p q h = ground (
  arith,
  word_ext n (a / 2) (b / 2) (omega (arith, pow-suc 2 n)) (omega (arith, pow-suc 2 n))
      (λ k l. h (suc k) (omega arith)),
  h 0 (omega arith),
)

-- The results of `|` and `&` on words of n bits are words of n bits.
pub or_bound : (n a b : ℕ) → a < 2 ^ n → b < 2 ^ n → bit_or a b < 2 ^ n
or_bound zero a b p q =
    let (e, f) : (a ≡ 0) × (b ≡ 0) = (omega arith, omega arith) in rw (e, f) (omega arith)
or_bound (suc n) a b p q = omega (
  arith,
  or_digit a b,
  pow-suc 2 n,
  or_bound n (a / 2) (b / 2) (omega (arith, pow-suc 2 n)) (omega (arith, pow-suc 2 n)),
)

-- `x << k` of a 64-bit word; Go shifts every bit out at 64 and above.
abbrev pub shl : ℕ → ℕ → ℕ
shl x k = x * 2 ^ k % 2 ^ 64

pub pow_lt : (k : ℕ) → k < 64 → 2 ^ k < 2 ^ 64
pow_lt k h =
    let small : 2 ^ k ≤ 2 ^ 63 = pow-le-pow_right {n = 2} (omega arith) {j = 63} (omega arith) in
    omega (arith, small)

pub shl-one : (k : ℕ) → k < 64 → shl 1 k ≡ 2 ^ k
shl-one k h = ap (λ t. t % 2 ^ 64) (omega arith) ∙ mod-eq_of_lt (pow_lt k h)

-- Two numbers less than m apart have different remainders by m.
pub mod_apart : (a b m : ℕ) → a < b → b < a + m → a % m ≢ b % m
mod_apart a b m h l e = grind (arith, div-add-mod a m, div-add-mod b m)

xor_digit : (a b : ℕ) → bit_xor a b ≡ bit_xor (a / 2) (b / 2) * 2 + differ (a % 2) (b % 2)
xor_digit zero b = simp bit_xor-bitwise (omega (arith, differ_digits 0 (b % 2)))
  where
    differ_digits : (x y : ℕ) → differ 0 y ≡ y
    differ_digits x y = refl
xor_digit (suc a) b = simp bit_xor-bitwise (lowest_digit (λ y. y) differ a b)

differ_lem : (x y : ℕ) → x < 2 → y < 2 → differ x y ≡ (x + y) % 2
differ_lem zero y p q = omega arith
differ_lem (suc zero) zero p q = refl
differ_lem (suc zero) (suc zero) p q = refl
differ_lem (suc zero) (suc (suc y)) p q = absurd (omega arith)
differ_lem (suc (suc x)) y p q = absurd (omega arith)

xor_parts :
    (a b : ℕ)
    → (bit_xor a b / 2 ≡ bit_xor (a / 2) (b / 2)) × (bit_xor a b % 2 ≡ (a % 2 + b % 2) % 2)
xor_parts a b = omega (arith, xor_digit a b, differ_lem (a % 2) (b % 2) (omega arith) (omega arith))

pub test_bit-xor :
    (a b k : ℕ)
    → test_bit (bit_xor a b) k ≡ (if test_bit b k then not (test_bit a k) else test_bit a k)
test_bit-xor a b zero = ground (arith, xor_parts a b)
test_bit-xor a b (suc k) = rw (xor_parts a b).0 (test_bit-xor (a / 2) (b / 2) k)

pub xor_bound : (n a b : ℕ) → a < 2 ^ n → b < 2 ^ n → bit_xor a b < 2 ^ n
xor_bound zero a b p q =
    let (e, f) : (a ≡ 0) × (b ≡ 0) = (omega arith, omega arith) in rw (e, f) (omega arith)
xor_bound (suc n) a b p q = omega (
  arith,
  xor_parts a b,
  pow-suc 2 n,
  xor_bound n (a / 2) (b / 2) (omega (arith, pow-suc 2 n)) (omega (arith, pow-suc 2 n)),
)

pub and_bound : (n a b : ℕ) → a < 2 ^ n → bit_and a b < 2 ^ n
and_bound zero a b p =
    let e : a ≡ 0 = omega arith in rw e (omega (arith, and_digit 0 b, zero_and b))
and_bound (suc n) a b p =
    omega
      (arith, and_digit a b, pow-suc 2 n, and_bound n (a / 2) (b / 2) (omega (arith, pow-suc 2 n)))

-- `~x` of a 64-bit word.
abbrev pub complement : ℕ → ℕ
complement x = 2 ^ 64 - 1 - x

-- Go's `^uint(0) << i` is the complement of the i low bits.
pub shl_ones : (i : ℕ) → i < 64 → shl (2 ^ 64 - 1) i ≡ complement (2 ^ i - 1)
shl_ones i h =
    let small : 2 ^ i ≤ 2 ^ 63 = pow-le-pow_right {n = 2} (omega arith) {j = 63} (omega arith) in
    let e : (2 ^ 64 - 1) * 2 ^ i ≡ 2 ^ 64 * (2 ^ i - 1) + (2 ^ 64 - 2 ^ i) =
      omega (arith, small, pow_pos i) in
    ap (λ t. t % 2 ^ 64) e
    ∙ mul-add-mod_self_left (2 ^ 64) (2 ^ i - 1) (2 ^ 64 - 2 ^ i)
    ∙ mod-eq_of_lt (omega (arith, pow_pos i))
    ∙ omega (arith, pow_pos i, small)

pub low_ones : (i : ℕ) → i < 64 → complement (shl (2 ^ 64 - 1) i) ≡ 2 ^ i - 1
low_ones i h =
    let small : 2 ^ i ≤ 2 ^ 63 = pow-le-pow_right {n = 2} (omega arith) {j = 63} (omega arith) in
    rw (shl_ones i h) (omega (arith, small, pow_pos i))

-- `^uint(0) << i` has the bits from i on, and `^(^uint(0) << i)` those below i.
pub test_bit-shl_ones : (i k : ℕ) → i < 64 → k < 64 → test_bit (shl (2 ^ 64 - 1) i) k ≡ leb i k
test_bit-shl_ones i k h l =
    let small : 2 ^ i ≤ 2 ^ 63 = pow-le-pow_right {n = 2} (omega arith) {j = 63} (omega arith) in
    rw
      (
        shl_ones i h,
        test_bit_complement 64 (2 ^ i - 1) k (omega (arith, small, pow_pos i)) l,
        test_bit_ones i k,
      )
      (ground arith)

pub test_bit-low_ones : (i k : ℕ) → i < 64 → test_bit (complement (shl (2 ^ 64 - 1) i)) k ≡ ltb k i
test_bit-low_ones i k h = rw (low_ones i h) (test_bit_ones i k)

pub low_ones_bound : (i : ℕ) → i < 64 → complement (shl (2 ^ 64 - 1) i) < 2 ^ 64
low_ones_bound i h = omega arith
