-- ===== src/Base/Blocks.antt =====
-- A set of numbers as a slice of 64-bit blocks: number i is bit `i % 64` of block `i / 64`.
use shadowsocks.Base.Bits.{test_bit, test_bit_zero, and_pow-eq-zero, shl, shl-one}
use shadowsocks.Base.Lists.{
  length, get_or, set, replicate, get_or-set_self, get_or-set_ne, get_or-replicate,
}
use shadowsocks.Base.Tests.{◌==◌, if◌then◌else◌, ==_iff, ne→==}
use Prim.Native.Nat.{ℕ, zero, suc, ◌+◌, ◌*◌, ◌/◌, ◌%◌, ◌≤◌, ◌<◌, bit_and}
use mathlib.Core.Path.{◌≡◌, refl, sym, ap, ◌∙◌}
use mathlib.Core.Bool.{Bool, false, not}
use mathlib.Core.List.{List, [], ◌∷◌}
use native.Mathlib.Decide.{ℕ_discrete}
use native.Mathlib.Omega.{arith}

abbrev pub bit_at : List ℕ → ℕ → Bool
bit_at bs i = test_bit (get_or bs (i / 64) 0) (i % 64)

-- `bs[i/64] & (1 << (i%64)) != 0` is bit i.
pub bit_at_mask :
    (bs : List ℕ) (i : ℕ) → not (bit_and (get_or bs (i / 64) 0) (shl 1 (i % 64)) == 0) ≡ bit_at bs i
bit_at_mask bs i =
    rw (shl-one (i % 64) (omega arith))
      (ground (arith, and_pow-eq-zero (get_or bs (i / 64) 0) (i % 64)))

-- Writing one block changes the bits of that block alone.
pub bit_at-set :
    (bs : List ℕ) (b v i : ℕ)
    → b < length bs
    → bit_at (set bs b v) i ≡ (if b == i / 64 then test_bit v (i % 64) else bit_at bs i)
bit_at-set bs b v i h = elim (ℕ_discrete b (i / 64)) [
  | yes e ↦ rw ((==_iff b (i / 64)).1 e, ← e, get_or-set_self bs b v 0 h) refl
  | no n ↦ rw (ne→== b (i / 64) n, get_or-set_ne bs b (i / 64) v 0 n) refl
]

pub bit_at-replicate : (n i : ℕ) → bit_at (replicate n 0) i ≡ false
bit_at-replicate n i = rw (get_or-replicate {A = ℕ} n (i / 64) 0) (test_bit_zero (i % 64))

-- `bits.OnesCount` of a word of n bits.
unfoldable pub ones_count : ℕ → ℕ → ℕ
ones_count zero w = 0
ones_count (suc n) w = w % 2 + ones_count n (w / 2)

-- How many numbers from i to i + n - 1 a test holds for.
unfoldable pub count_from : (ℕ → Bool) → ℕ → ℕ → ℕ
count_from p i zero = 0
count_from p i (suc n) = (if p i then 1 else 0) + count_from p (suc i) n

-- The sum of `OnesCount` over the blocks.
unfoldable pub count_blocks : List ℕ → ℕ
unfolding ones_count
count_blocks [] = 0
count_blocks (w ∷ bs) = ones_count 64 w + count_blocks bs

module _ (p q : ℕ → Bool) where
  pub count_from-ext :
      (n i j : ℕ) → ((k : ℕ) → k < n → p (i + k) ≡ q (j + k)) → count_from p i n ≡ count_from q j n
  unfolding count_from
  count_from-ext zero i j h = refl
  count_from-ext (suc n) i j h =
      let first : p i ≡ q j = ap p (omega arith) ∙ h 0 (omega arith) ∙ ap q (omega arith) in
      let rest : count_from p (suc i) n ≡ count_from q (suc j) n =
        count_from-ext n (suc i) (suc j)
          (λ k l. ap p (omega arith) ∙ h (suc k) (omega arith) ∙ ap q (omega arith)) in
      rw (first, rest)

module _ (p : ℕ → Bool) where
  pub count_from-add :
      (i m n : ℕ) → count_from p i (m + n) ≡ count_from p i m + count_from p (i + m) n
  unfolding count_from
  count_from-add i zero n =
      let none : zero + n ≡ n = omega arith in
      let here : i + zero ≡ i = omega arith in rw (none, here) (omega arith)
  count_from-add i (suc m) n =
      let more : suc m + n ≡ suc (m + n) = omega arith in
      let shift : i + suc m ≡ suc i + m = omega arith in
      rw (more, shift) (omega (arith, count_from-add (suc i) m n))

  pub count_from_none : (i n : ℕ) → ((k : ℕ) → i ≤ k → p k ≡ false) → count_from p i n ≡ 0
  unfolding count_from
  count_from_none i zero h = refl
  count_from_none i (suc n) h =
      rw (h i (omega arith), count_from_none (suc i) n (λ k l. h k (omega arith))) refl

ones_count_lem : (n w : ℕ) → ones_count n w ≡ count_from (test_bit w) 0 n
unfolding ones_count count_from
ones_count_lem zero w = refl
ones_count_lem (suc n) w =
    let rest : count_from (test_bit (w / 2)) 0 n ≡ count_from (test_bit w) 1 n =
      count_from-ext (test_bit (w / 2)) (test_bit w) n 0 1 (λ k l. next k) in
    ground (arith, ones_count_lem n (w / 2), rest)
  where
    next : (k : ℕ) → test_bit (w / 2) (0 + k) ≡ test_bit w (1 + k)
    next k =
        let e : 1 + k ≡ suc k = omega arith in let z : 0 + k ≡ k = omega arith in rw (e, z) refl

pub bit_at_first : (w : ℕ) (bs : List ℕ) (k : ℕ) → k < 64 → bit_at (w ∷ bs) k ≡ test_bit w k
bit_at_first w bs k h =
    let block : k / 64 ≡ 0 = omega arith in
    let bit : k % 64 ≡ k = omega arith in rw (block, bit) refl

pub bit_at_next : (w : ℕ) (bs : List ℕ) (k : ℕ) → bit_at (w ∷ bs) (64 + k) ≡ bit_at bs k
bit_at_next w bs k =
    let block : (64 + k) / 64 ≡ suc (k / 64) = omega arith in
    let bit : (64 + k) % 64 ≡ k % 64 = omega arith in rw (block, bit) refl

-- The sum of `OnesCount` over the blocks is the number of bits that are set.
pub count_blocks_lem : (bs : List ℕ) → count_blocks bs ≡ count_from (bit_at bs) 0 (length bs * 64)
unfolding count_blocks
count_blocks_lem [] = let none : 0 * 64 ≡ 0 = refl in unfold count_from in rw none refl
count_blocks_lem (w ∷ bs) =
    let all : ℕ → Bool = bit_at (w ∷ bs) in
    let first : count_from (test_bit w) 0 64 ≡ count_from all 0 64 =
      count_from-ext (test_bit w) all 64 0 0
        (λ k l. let z : 0 + k ≡ k = omega arith in rw z (sym (bit_at_first w bs k l))) in
    let rest : count_from (bit_at bs) 0 (length bs * 64) ≡ count_from all 64 (length bs * 64) =
      count_from-ext (bit_at bs) all (length bs * 64) 0 64
        (λ k l. let z : 0 + k ≡ k = omega arith in rw z (sym (bit_at_next w bs k))) in
    let split : suc (length bs) * 64 ≡ 64 + length bs * 64 = omega arith in
    rw split (
      omega (
        arith,
        ones_count_lem 64 w,
        count_blocks_lem bs,
        first,
        rest,
        count_from-add all 0 64 (length bs * 64),
        ap (λ x. count_from all x (length bs * 64)) {x = 0 + 64} {y = 64} refl,
      ))
