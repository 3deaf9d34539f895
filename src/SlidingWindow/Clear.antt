-- ===== src/SlidingWindow/Clear.antt =====
-- The clearing loop of `Add` and `MustAdd` on a ring of `2 ^ k` blocks.
use native.Mathlib.Nat.{mod-add-mod, mod-lt, mod-eq_of_lt}
use shadowsocks.Base.{
  ℕ, zero, suc, ◌+◌, ◌-◌, ◌%◌, ◌^◌, ◌≤◌, ◌<◌, ◌≡◌, refl, sym, ap, ◌∙◌, ◌≢◌, List, arith, bit_and,
  length, get_or, set, length-set, get_or-set_self, get_or-set_ne, get_or-set_default,
}
use shadowsocks.Base.Bits.{and_mask, pow_pos}
use shadowsocks.SlidingWindow.{clear_blocks}

pub length-clear_blocks :
    (n mask b : ℕ) (ring : List ℕ) → length (clear_blocks n mask b ring) ≡ length ring
unfolding clear_blocks
length-clear_blocks zero mask b ring = refl
length-clear_blocks (suc n) mask b ring = length-clear_blocks n mask _ _ ∙ length-set ring _ 0

-- A block that is 0 stays 0.
clear_blocks_zero :
    (n mask b j : ℕ) (ring : List ℕ)
    → get_or ring j 0 ≡ 0
    → get_or (clear_blocks n mask b ring) j 0 ≡ 0
unfolding clear_blocks
clear_blocks_zero zero mask b j ring h = h
clear_blocks_zero (suc n) mask b j ring h =
    clear_blocks_zero n mask _ j _ (get_or-set_default ring _ j 0 h)

module _ (k : ℕ) (fits : 2 ^ k < 2 ^ 64) where
  -- The next block is the remainder by the ring's length.
  next_block : (b : ℕ) → b + 1 < 2 ^ 64 → bit_and ((b + 1) % 2 ^ 64) (2 ^ k - 1) ≡ (b + 1) % 2 ^ k
  next_block b h = and_mask k _ ∙ ap (λ t. t % 2 ^ k) (mod-eq_of_lt h)

  next_small : (b : ℕ) → (b + 1) % 2 ^ k + 1 < 2 ^ 64
  next_small b = omega (arith, mod-lt (b + 1) {m = 2 ^ k} (pow_pos k))

  next_mod : (b i : ℕ) → (b + suc i) % 2 ^ k ≡ ((b + 1) % 2 ^ k + i) % 2 ^ k
  next_mod b i = ap (λ t. t % 2 ^ k) (omega arith) ∙ sym (mod-add-mod (b + 1) (2 ^ k) i)

  -- n rounds clear the n blocks that follow b.
  pub clear_blocks_ahead :
      (n b i : ℕ) (ring : List ℕ)
      → length ring ≡ 2 ^ k
      → b + 1 < 2 ^ 64
      → 1 ≤ i
      → i ≤ n
      → get_or (clear_blocks n (2 ^ k - 1) b ring) ((b + i) % 2 ^ k) 0 ≡ 0
  unfolding clear_blocks
  clear_blocks_ahead zero b i ring len hb lo hi = absurd (omega arith)
  clear_blocks_ahead (suc n) b zero ring len hb lo hi = absurd (omega arith)
  clear_blocks_ahead (suc n) b (suc zero) ring len hb lo hi = rw (next_block b hb) (
      clear_blocks_zero n _ _ _ _
        (get_or-set_self ring _ 0 0 (rw len (mod-lt (b + 1) (pow_pos k)))))
  clear_blocks_ahead (suc n) b (suc (suc i)) ring len hb lo hi =
      let here : ℕ = (b + 1) % 2 ^ k in
      rw (next_block b hb) (
        rw (next_mod b (suc i)) (
          clear_blocks_ahead n here (suc i) (set ring here 0) (length-set ring here 0 ∙ len)
            (next_small b) (omega arith) (omega arith)))

  -- A block that no round reaches keeps its bits.
  pub clear_blocks_keep :
      (n b j : ℕ) (ring : List ℕ)
      → b + 1 < 2 ^ 64
      → ((i : ℕ) → 1 ≤ i → i ≤ n → (b + i) % 2 ^ k ≢ j)
      → get_or (clear_blocks n (2 ^ k - 1) b ring) j 0 ≡ get_or ring j 0
  unfolding clear_blocks
  clear_blocks_keep zero b j ring hb h = refl
  clear_blocks_keep (suc n) b j ring hb h =
      let here : ℕ = (b + 1) % 2 ^ k in
      rw (next_block b hb) (
        clear_blocks_keep n here j (set ring here 0) (next_small b)
          (λ i lo hi e. h (suc i) (omega arith) (omega arith) (next_mod b i ∙ e))
        ∙ get_or-set_ne ring here j 0 0 (h 1 (omega arith) (omega arith)))
