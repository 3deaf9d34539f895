-- ===== src/SlidingWindow/Refine.antt =====
-- The ring against the window: what a block holds, and that `IsOk`, `MustAdd`, `Add` and `Reset`
-- keep it so.
use native.Mathlib.Nat.{mod-lt, mod-le, mod-eq_of_lt, add-mod-mod, le_refl}
use native.Mathlib.Decide.{dec_le, dec_lt, ℕ_discrete}
use shadowsocks.Base.{
  ℕ, suc, ◌+◌, ◌-◌, ◌*◌, ◌/◌, ◌%◌, ◌^◌, ◌≤◌, ◌<◌, ◌≡◌, refl, sym, ap, ◌∙◌, ◌≢◌, ◌⊎◌, inl, inr, Bool,
  true, false, not, ◌∷◌, arith, min, bit_or, length, get_or, set, length-set, get_or-set_self,
  get_or-set_ne, if◌then◌else◌, Bool-cases, lt→ltb, le→ltb, le→leb, lt→leb,
}
use shadowsocks.Base.Bits.{
  test_bit, test_bit-or, test_bit-pow, test_bit_zero, and_pow-eq-zero, and_mask, pow_pos, shl-one,
  mod_apart,
}
use shadowsocks.SlidingWindow.{
  Filter, block_index, is_unseen, is_ok, clear_blocks, advance, mark, must_add, add, reset,
}
use shadowsocks.SlidingWindow.Window
use shadowsocks.SlidingWindow.Window.{Window, contains, accepts, note, admit}
use shadowsocks.SlidingWindow.Clear.{length-clear_blocks, clear_blocks_ahead, clear_blocks_keep}

-- A filter with a ring of `2 ^ k` blocks stands for a window. The ring is long enough for `size`
-- counters that start inside a block; a block within reach of the last one holds exactly the
-- counters seen; older content of the ring is not constrained.
pub record Tracks (k : ℕ) (f : Filter) (w : Window) : Type 0 where
  pub ring_length : length f.ring ≡ 2 ^ k
  pub mask : f.ring_block_index_mask ≡ 2 ^ k - 1
  pub ring_small : 2 ^ k < 2 ^ 64
  pub room : f.size + 63 ≤ 2 ^ k * 64
  pub last_small : f.last < 2 ^ 64
  pub same_last : f.last ≡ w.last
  pub bounded : (c : ℕ) → contains c w.seen ≡ true → c ≤ w.last
  pub agrees :
      (c : ℕ)
      → c / 64 ≤ w.last / 64
      → w.last / 64 < c / 64 + 2 ^ k
      → test_bit (get_or f.ring (c / 64 % 2 ^ k) 0) (c % 64) ≡ contains c w.seen

module _ {k : ℕ} {f : Filter} {w : Window} (t : Tracks k f w) where
  block_index_lem : (c : ℕ) → block_index f c ≡ c / 64 % 2 ^ k
  block_index_lem c = rw t.mask (and_mask k (c / 64))

  -- Every index that an operation computes is inside the ring.
  pub in_bounds : (c : ℕ) → block_index f c < length f.ring
  in_bounds c = rw (block_index_lem c, t.ring_length) (mod-lt (c / 64) (pow_pos k))

  is_unseen_lem :
      (c : ℕ)
      → c / 64 ≤ w.last / 64
      → w.last / 64 < c / 64 + 2 ^ k
      → is_unseen f c ≡ not (contains c w.seen)
  unfolding is_unseen
  is_unseen_lem c h l =
      rw (block_index_lem c, shl-one (c % 64) (omega arith))
        (and_pow-eq-zero _ (c % 64) ∙ ap not (t.agrees c h l))

  -- A counter that the size test lets through lies in a block within reach.
  reach : (c : ℕ) → c ≤ w.last → w.last - c < f.size → w.last / 64 < c / 64 + 2 ^ k
  reach c h l = omega (arith, t.room)

  -- `IsOk` answers as the window does.
  pub is_ok_refines : (c : ℕ) → is_ok f c ≡ accepts f.size w c
  unfolding is_ok accepts
  is_ok_refines c = ground (arith, is_unseen_lem c, reach c)

  -- How many blocks `advance` clears: those ahead, at most all of them.
  cleared : ℕ → ℕ
  cleared c = min (c / 64 - w.last / 64) (2 ^ k)

  advance_ring :
      (c : ℕ)
      → w.last < c
      → c < 2 ^ 64
      → (advance f c).ring ≡ clear_blocks (cleared c) (2 ^ k - 1) (w.last / 64) f.ring
  unfolding advance cleared
  advance_ring c h l =
      let gap : (c / 64 + 2 ^ 64 - w.last / 64) % 2 ^ 64 ≡ c / 64 - w.last / 64 = omega arith in
      rw (t.same_last, t.mask, t.ring_length, gap)

  -- A block within reach of c that lies at or before the last block is not cleared.
  old_block :
      (c d : ℕ)
      → w.last < c
      → c < 2 ^ 64
      → d / 64 ≤ w.last / 64
      → c / 64 < d / 64 + 2 ^ k
      → get_or (advance f c).ring (d / 64 % 2 ^ k) 0 ≡ get_or f.ring (d / 64 % 2 ^ k) 0
  unfolding cleared
  old_block c d h l o r = rw (advance_ring c h l) (
      clear_blocks_keep k t.ring_small (cleared c) (w.last / 64) (d / 64 % 2 ^ k) f.ring
        (omega (arith, t.same_last, t.last_small))
        (λ i lo hi e.
          mod_apart (d / 64) (w.last / 64 + i) (2 ^ k) (omega arith) (omega arith) (sym e)))

  -- A block past the last one, and within reach of c, is cleared.
  new_block :
      (c d : ℕ)
      → w.last < c
      → c < 2 ^ 64
      → w.last / 64 < d / 64
      → d / 64 ≤ c / 64
      → c / 64 < d / 64 + 2 ^ k
      → get_or (advance f c).ring (d / 64 % 2 ^ k) 0 ≡ 0
  unfolding cleared
  new_block c d h l n m r =
      let b : ℕ = w.last / 64 in
      let i : ℕ = (d / 64 - b - 1) % 2 ^ k in
      let small : i < 2 ^ k = mod-lt (d / 64 - b - 1) (pow_pos k) in
      let less : i ≤ d / 64 - b - 1 = mod-le (d / 64 - b - 1) (2 ^ k) in
      let here : d / 64 % 2 ^ k ≡ (b + suc i) % 2 ^ k =
        ap (λ x. x % 2 ^ k) (omega arith)
        ∙ sym (add-mod-mod (b + 1) (d / 64 - b - 1) (2 ^ k))
        ∙ ap (λ x. x % 2 ^ k) (omega arith) in
      rw (advance_ring c h l, here)
        (clear_blocks_ahead k t.ring_small (cleared c) b (suc i) f.ring t.ring_length
          (omega (arith, t.same_last, t.last_small)) (omega arith) (omega arith))

  advance-agrees :
      (c d : ℕ)
      → w.last < c
      → c < 2 ^ 64
      → d / 64 ≤ c / 64
      → c / 64 < d / 64 + 2 ^ k
      → test_bit (get_or (advance f c).ring (d / 64 % 2 ^ k) 0) (d % 64) ≡ contains d w.seen
  advance-agrees c d h l m r = elim (dec_le (d / 64) (w.last / 64)) [
    | yes o ↦ rw (old_block c d h l o r) (t.agrees d o (omega arith))
    | no n ↦
        rw (new_block c d h l (omega arith) m r)
          (test_bit_zero (d % 64) ∙ sym (unseen (Bool-cases (contains d w.seen)) (omega arith)))
  ]
    where
      unseen :
          (contains d w.seen ≡ true) ⊎ (contains d w.seen ≡ false)
          → w.last / 64 < d / 64
          → contains d w.seen ≡ false
      unseen (inl e) q = absurd (omega (arith, t.bounded d e))
      unseen (inr e) q = e

  -- Moving the window ahead to c keeps what the filter stands for.
  advance-Tracks :
      (c : ℕ) → w.last < c → c < 2 ^ 64 → Tracks k (advance f c) (record w { last = c })
  unfolding advance
  advance-Tracks c h l = record {
    ring_length = length-clear_blocks _ _ _ f.ring ∙ t.ring_length;
    mask = t.mask;
    ring_small = t.ring_small;
    room = t.room;
    last_small = l;
    same_last = refl;
    bounded = λ d e. omega (arith, t.bounded d e);
    agrees = λ d m r. advance-agrees c d h l m r;
  }

  marked_block : ℕ → ℕ
  marked_block c = bit_or (get_or f.ring (c / 64 % 2 ^ k) 0) (2 ^ (c % 64))

  mark_ring : (c : ℕ) → (mark f c).ring ≡ set f.ring (c / 64 % 2 ^ k) (marked_block c)
  unfolding mark marked_block
  mark_ring c = rw (block_index_lem c, shl-one (c % 64) (omega arith))

  -- Two blocks within reach have different places in the ring.
  same_place :
      (c d : ℕ)
      → c / 64 ≤ w.last / 64
      → w.last / 64 < c / 64 + 2 ^ k
      → d / 64 ≤ w.last / 64
      → w.last / 64 < d / 64 + 2 ^ k
      → c / 64 % 2 ^ k ≡ d / 64 % 2 ^ k
      → c / 64 ≡ d / 64
  same_place c d h l m r e = omega (
    arith,
    λ (p : c / 64 < d / 64). mod_apart (c / 64) (d / 64) (2 ^ k) p (omega arith) e,
    λ (p : d / 64 < c / 64). mod_apart (d / 64) (c / 64) (2 ^ k) p (omega arith) (sym e),
  )

  mark-agrees :
      (c d : ℕ)
      → c ≤ w.last
      → w.last / 64 < c / 64 + 2 ^ k
      → d / 64 ≤ w.last / 64
      → w.last / 64 < d / 64 + 2 ^ k
      → test_bit (get_or (mark f c).ring (d / 64 % 2 ^ k) 0) (d % 64) ≡ contains d (c ∷ w.seen)
  unfolding marked_block
  mark-agrees c d h l m r = elim (ℕ_discrete (c / 64 % 2 ^ k) (d / 64 % 2 ^ k)) [
    | yes e ↦
        rw (mark_ring c, ← e)
          (rw
            (get_or-set_self f.ring (c / 64 % 2 ^ k) (marked_block c) 0
              (rw t.ring_length (mod-lt (c / 64) (pow_pos k))))
            (ground (
              arith,
              test_bit-or (get_or f.ring (c / 64 % 2 ^ k) 0) (2 ^ (c % 64)) (d % 64),
              test_bit-pow (c % 64) (d % 64),
              t.agrees d m r,
              same_place c d (omega arith) l m r e,
            )))
    | no n ↦
        let other : c ≢ d = λ e. n (ap (λ x. x / 64 % 2 ^ k) e) in
        rw (mark_ring c, get_or-set_ne f.ring _ _ (marked_block c) 0 n)
          (ground (arith, t.agrees d m r))
  ]

  -- Marking a counter within reach adds it to the counters seen.
  mark-Tracks :
      (c : ℕ)
      → c ≤ w.last
      → w.last / 64 < c / 64 + 2 ^ k
      → Tracks k (mark f c) (record { last = w.last; seen = c ∷ w.seen })
  unfolding mark
  mark-Tracks c h l = record {
    ring_length = length-set f.ring _ _ ∙ t.ring_length;
    mask = t.mask;
    ring_small = t.ring_small;
    room = t.room;
    last_small = t.last_small;
    same_last = t.same_last;
    bounded = λ d e. ground (arith, t.bounded d);
    agrees = λ d m r. mark-agrees c d h l m r;
  }

module _ {k : ℕ} {f : Filter} {w : Window} (t : Tracks k f w) where
  -- The branches of `Add`, by the window.
  add_ahead :
      (c : ℕ)
      → w.last < c
      → (add f c ≡ (true, mark (advance f c) c))
        × (admit f.size w c ≡ (true, record { last = c; seen = c ∷ w.seen }))
  unfolding add admit accepts note
  add_ahead c h = rw (lt→ltb w.last c h, lt→ltb f.last c (omega (arith, t.same_last))) (refl, refl)

  add_behind :
      (c : ℕ)
      → c ≤ w.last
      → f.size ≤ w.last - c
      → (add f c ≡ (false, f)) × (admit f.size w c ≡ (false, w))
  unfolding add admit accepts note
  add_behind c h l =
      rw
        (
          le→ltb w.last c h,
          le→ltb f.last c (omega (arith, t.same_last)),
          le→leb f.size (w.last - c) l,
          le→leb f.size (f.last - c) (omega (arith, t.same_last)),
        )
        (refl, refl)

  add_within :
      (c : ℕ)
      → c ≤ w.last
      → w.last - c < f.size
      → (add f c ≡ (if contains c w.seen then (false, f) else (true, mark f c)))
        × (admit f.size w c ≡ (
            if contains c w.seen
            then (false, w)
            else (true, record { last = w.last; seen = c ∷ w.seen })))
  unfolding add admit accepts note
  add_within c h l =
      rw
        (
          le→ltb w.last c h,
          le→ltb f.last c (omega (arith, t.same_last)),
          lt→leb f.size (w.last - c) l,
          lt→leb f.size (f.last - c) (omega (arith, t.same_last)),
          is_unseen_lem t c (omega arith) (reach t c h l),
        )
        (go (contains c w.seen))
    where
      go :
          (b : Bool)
          → (◌≡◌ {A = Bool × Filter}
              (if not (not b) then (false, f) else (true, mark f c))
              (if b then (false, f) else (true, mark f c)))
            × (◌≡◌ {A = Bool × Window}
                (if not b then (true, record { last = w.last; seen = c ∷ w.seen }) else (false, w))
                (if b then (false, w) else (true, record { last = w.last; seen = c ∷ w.seen })))
      go true = (refl, refl)
      go false = (refl, refl)

  -- `Add` answers as the window does, and the filter stands for the window after it.
  pub add_refines :
      (c : ℕ)
      → c < 2 ^ 64
      → ((add f c).0 ≡ (admit f.size w c).0) × Tracks k (add f c).1 (admit f.size w c).1
  add_refines c l = elim (dec_lt w.last c) [
    | yes h ↦
        rw ((add_ahead c h).0, (add_ahead c h).1)
          (refl, mark-Tracks (advance-Tracks t c h l) c (le_refl c) (omega (arith, pow_pos k)))
    | no h ↦ elim (dec_lt (w.last - c) f.size) [
      | yes r ↦
          rw ((add_within c (omega arith) r).0, (add_within c (omega arith) r).1)
            (elim (Bool-cases (contains c w.seen)) [
              | inl old ↦ rw old (refl, t)
              | inr new ↦ rw new (refl, mark-Tracks t c (omega arith) (reach t c (omega arith) r))
            ])
      | no r ↦
          rw
            (
              (add_behind c (omega arith) (omega arith)).0,
              (add_behind c (omega arith) (omega arith)).1,
            )
            (refl, t)
    ]
  ]

  -- `MustAdd` after `IsOk` does what `Add` does.
  pub must_add-eq-add : (c : ℕ) → is_ok f c ≡ true → add f c ≡ (true, must_add f c)
  unfolding add must_add is_ok
  must_add-eq-add c h = ground arith

  -- After `Reset` the filter stands for the fresh window, though it clears one block only.
  pub reset-Tracks : Tracks k (reset f) Window.fresh
  unfolding reset
  reset-Tracks = record {
    ring_length = length-set f.ring 0 0 ∙ t.ring_length;
    mask = t.mask;
    ring_small = t.ring_small;
    room = t.room;
    last_small = omega arith;
    same_last = refl;
    bounded = λ d e. cc;
    agrees = λ d m r.
        let e : d / 64 % 2 ^ k ≡ 0 =
          ap (λ x. x % 2 ^ k) (omega arith) ∙ mod-eq_of_lt {n = 0} (pow_pos k) in
        rw (e, get_or-set_self f.ring 0 0 0 (omega (arith, t.ring_length, pow_pos k)))
          (test_bit_zero (d % 64));
  }
