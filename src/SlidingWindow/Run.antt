-- ===== src/SlidingWindow/Run.antt =====
-- Whole runs of a filter, from `NewSlidingWindowFilter` on.
use native.Mathlib.Nat.{pow-suc, pow-le-pow_right, mul-div_cancel}
use native.Mathlib.Decide.{dec_le, dec_lt}
use native.Mathlib.Numerals.{towards_suc}
use shadowsocks.Base.{
  ℕ, zero, suc, ◌+◌, ◌-◌, ◌*◌, ◌/◌, ◌%◌, ◌^◌, ◌≤◌, ◌<◌, ◌≡◌, refl, ap, ap₂, subst, ◌∙◌, inl, inr,
  Bool, true, false, List, [], ◌∷◌, arith, length-replicate, get_or-replicate, All, Bool-cases,
  if◌then◌else◌,
}
use shadowsocks.Base.Bits.{test_bit_zero, shl-one, pow_pos}
use shadowsocks.SlidingWindow.{
  Filter, bit_length, ring_blocks, new_filter, add, add_all, advance, mark,
}
use shadowsocks.SlidingWindow.Window
use shadowsocks.SlidingWindow.Window.{Window, contains, accepts, note, admit, admit_all}
use shadowsocks.SlidingWindow.Refine.{Tracks, add_refines}

bit_length-zero : (fuel : ℕ) → bit_length fuel 0 ≡ 0
unfolding bit_length
bit_length-zero zero = refl
bit_length-zero (suc fuel) = refl

-- `bits.Len64` gives the least n with `x < 2 ^ n`.
bit_length_bounds :
    (fuel x : ℕ)
    → x < 2 ^ fuel
    → 1 ≤ x
    → (x < 2 ^ bit_length fuel x) × (2 ^ bit_length fuel x ≤ 2 * x)
unfolding bit_length
bit_length_bounds zero x h p = absurd (omega arith)
bit_length_bounds (suc fuel) zero h p = absurd (omega arith)
bit_length_bounds (suc fuel) (suc zero) h p = rw (bit_length-zero fuel) (omega arith)
bit_length_bounds (suc fuel) (suc (suc x)) h p =
    let half : ℕ = suc (suc x) / 2 in
    let ih : (half < 2 ^ bit_length fuel half) × (2 ^ bit_length fuel half ≤ 2 * half) =
      bit_length_bounds fuel half (omega (arith, pow-suc 2 fuel)) (omega arith) in
    omega (arith, ih, pow-suc 2 (bit_length fuel half))

pow_add_six : (k : ℕ) → 2 ^ (k + 6) ≡ 2 ^ k * 64
pow_add_six k = simp towards_suc (omega arith)

-- The ring of a new filter has a power of two of blocks.
ring_blocks_lem :
    (size : ℕ)
    → size < 2 ^ 62
    → (k : ℕ) × (ring_blocks size ≡ 2 ^ k) × (size + 63 ≤ 2 ^ k * 64) × (2 ^ k < 2 ^ 64)
unfolding ring_blocks
ring_blocks_lem size h =
    let n : ℕ = bit_length 64 (size + 63) in
    let b : (size + 63 < 2 ^ n) × (2 ^ n ≤ 2 * (size + 63)) =
      bit_length_bounds 64 (size + 63) (omega arith) (omega arith) in
    let low : 6 ≤ n = big_exponent n (omega (arith, b.0)) in
    let high : n < 64 = small_exponent n (omega (arith, b.1)) in
    let split : 2 ^ n ≡ 2 ^ (n - 6) * 64 = ap (λ e. 2 ^ e) (omega arith) ∙ pow_add_six (n - 6) in
    let start : (size + 64 - 1) % 2 ^ 64 ≡ size + 63 = omega arith in
    (
      n - 6,
      rw (start, shl-one n high, split) (mul-div_cancel (2 ^ (n - 6)) {n = 64} (omega arith)),
      omega (arith, split, b.0),
      omega (arith, split, b.1),
    )
  where
    big_exponent : (n : ℕ) → 63 < 2 ^ n → 6 ≤ n
    big_exponent n l = elim (dec_le 6 n) [
      | yes g ↦ g
      | no g ↦
          absurd
            (omega (arith, pow-le-pow_right {n = 2} (omega arith) {i = n} {j = 5} (omega arith)))
    ]

    small_exponent : (n : ℕ) → 2 ^ n < 2 ^ 64 → n < 64
    small_exponent n l = elim (dec_lt n 64) [
      | yes g ↦ g
      | no g ↦
          absurd
            (omega (arith, pow-le-pow_right {n = 2} (omega arith) {i = 64} {j = n} (omega arith)))
    ]

-- A new filter stands for the fresh window, for any size below 2 ^ 62.
pub new_filter-Tracks :
    (size : ℕ) → size < 2 ^ 62 → (k : ℕ) × Tracks k (new_filter size) Window.fresh
unfolding new_filter
new_filter-Tracks size h =
    let (k, e, room, small) = ring_blocks_lem size h in
    (
      k,
      record {
        ring_length = length-replicate (ring_blocks size) 0 ∙ e;
        mask = rw e (omega (arith, pow_pos k, small));
        ring_small = small;
        room = room;
        last_small = omega arith;
        same_last = refl;
        bounded = λ d q. cc;
        agrees = λ d m r.
            rw (get_or-replicate {A = ℕ} (ring_blocks size) (d / 64 % 2 ^ k) 0)
              (test_bit_zero (d % 64));
      },
    )

size-add : (f : Filter) (c : ℕ) → (add f c).1.size ≡ f.size
unfolding add mark advance
size-add f c = ground arith

add_all_refines :
    {k : ℕ} (size : ℕ) (f : Filter) (w : Window) (cs : List ℕ)
    → f.size ≡ size
    → Tracks k f w
    → All (λ c. c < 2 ^ 64) cs
    → (add_all f cs).0 ≡ (admit_all size w cs).0
unfolding add_all admit_all
add_all_refines size f w [] e t h = refl
add_all_refines {k} size f w (c ∷ cs) e t h =
    let step : ((add f c).0 ≡ (admit size w c).0) × Tracks k (add f c).1 (admit size w c).1 =
      subst (λ n. ((add f c).0 ≡ (admit n w c).0) × Tracks k (add f c).1 (admit n w c).1) e
        (add_refines t c h.0) in
    ap₂ (λ x xs. x ∷ xs) step.0
      (add_all_refines size (add f c).1 (admit size w c).1 cs (size-add f c ∙ e) step.1 h.1)

-- A filter that `NewSlidingWindowFilter` made for a size below 2 ^ 62 answers any run of `Add` on
-- 64-bit counters exactly as the window over the set of all counters accepted does.
pub add_all-eq-admit_all :
    (size : ℕ) (cs : List ℕ)
    → size < 2 ^ 62
    → All (λ c. c < 2 ^ 64) cs
    → (add_all (new_filter size) cs).0 ≡ (admit_all size Window.fresh cs).0
unfolding new_filter
add_all-eq-admit_all size cs h b =
    add_all_refines size (new_filter size) Window.fresh cs refl (new_filter-Tracks size h).1 b

-- The counters that a run accepted, by its replies.
abbrev pub accepted : List ℕ → List Bool → List ℕ
accepted [] bs = []
accepted (c ∷ cs) [] = []
accepted (c ∷ cs) (b ∷ bs) = if b then c ∷ accepted cs bs else accepted cs bs

-- None of the counters is in the list of those seen before, and no two are equal.
abbrev pub Fresh : List ℕ → List ℕ → Type 0
Fresh seen [] = Unit
Fresh seen (c ∷ cs) = (contains c seen ≡ false) × Fresh (c ∷ seen) cs

abbrev IsBounded : Window → Type 0
IsBounded w = (c : ℕ) → contains c w.seen ≡ true → c ≤ w.last

note-IsBounded : (w : Window) (c : ℕ) → IsBounded w → IsBounded (note w c)
unfolding note
note-IsBounded w c h d e = ground (arith, h d)

-- What the window accepts it has not seen.
accepts_unseen :
    (size : ℕ) (w : Window) (c : ℕ)
    → IsBounded w
    → accepts size w c ≡ true
    → contains c w.seen ≡ false
unfolding accepts
accepts_unseen size w c h e = ground (arith, h c)

admit_all-Fresh :
    (size : ℕ) (w : Window) (cs : List ℕ)
    → IsBounded w
    → Fresh w.seen (accepted cs (admit_all size w cs).0)
unfolding admit_all admit note
admit_all-Fresh size w [] h = tt
admit_all-Fresh size w (c ∷ cs) h = elim (Bool-cases (accepts size w c)) [
  | inl new ↦
      rw new
        (accepts_unseen size w c h new, admit_all-Fresh size (note w c) cs (note-IsBounded w c h))
  | inr old ↦ rw old (admit_all-Fresh size w cs h)
]

-- Replay protection: in any run of `Add` on a new filter for a size below 2 ^ 62, no 64-bit counter
-- is accepted twice.
pub accepted-Fresh :
    (size : ℕ) (cs : List ℕ)
    → size < 2 ^ 62
    → All (λ c. c < 2 ^ 64) cs
    → Fresh [] (accepted cs (add_all (new_filter size) cs).0)
accepted-Fresh size cs h b =
    rw (add_all-eq-admit_all size cs h b) (admit_all-Fresh size Window.fresh cs (λ c e. cc))
