-- ===== src/BitSet/Count.antt =====
-- `Count`, `SetAll`, `UnsetAll` and `FlipAll` against the members.
use shadowsocks.Base.{
  ℕ, zero, suc, ◌+◌, ◌-◌, ◌*◌, ◌/◌, ◌%◌, ◌^◌, ◌≤◌, ◌<◌, ◌≡◌, refl, ap, ◌∙◌, ◌⊎◌, inl, inr, Bool,
  true, false, not, List, [], ◌∷◌, ◌++◌, arith, ltb, ne→==, ==_iff, if◌then◌else◌, length, get_or,
  length-set, map, take, drop, bit_xor, get_or-set_self, get_or-set_ne, Bool-cases, le→ltb, lt→ltb,
}
use shadowsocks.Base.Bits.{
  test_bit, test_bit_zero, test_bit-xor, test_bit_complement, test_bit_ones, test_bit-low_ones,
  low_ones_bound, xor_bound, complement,
}
use shadowsocks.Base.Blocks.{
  bit_at, bit_at-set, count_from, count_blocks_lem, count_from-ext, count_from-add, count_from_none,
}
use native.Mathlib.Nat.{le_refl}
use native.Mathlib.Decide.{dec_lt, ℕ_discrete}
use shadowsocks.BitSet.{BitSet, count, each_block, set_all, unset_all, flip_all, last_mask}
use shadowsocks.BitSet.Laws.{member, IsValid}

-- On a valid set `Count` is the number of members below the capacity.
pub count-eq-count_from : (s : BitSet) → IsValid s → count s ≡ count_from (member s) 0 s.capacity
unfolding count
count-eq-count_from s v =
    count_blocks_lem s.blocks
    ∙ ap (count_from (member s) 0) (split)
    ∙ count_from-add (member s) 0 s.capacity (length s.blocks * 64 - s.capacity)
    ∙ omega (
      arith,
      count_from_none (member s) (0 + s.capacity) (length s.blocks * 64 - s.capacity) past,
    )
  where
    split : length s.blocks * 64 ≡ s.capacity + (length s.blocks * 64 - s.capacity)
    split = omega (arith, v.blocks_length)

    past : (i : ℕ) → 0 + s.capacity ≤ i → member s i ≡ false
    past i l = v.clean i (omega arith)

-- The loop over the first n blocks.
first_blocks : (f : ℕ → ℕ) → ℕ → List ℕ → List ℕ
first_blocks f n bs = map f (take n bs) ++ drop n bs

first_blocks_below :
    (f : ℕ → ℕ) (n b : ℕ) (bs : List ℕ)
    → b < n
    → n ≤ length bs
    → get_or (first_blocks f n bs) b 0 ≡ f (get_or bs b 0)
unfolding first_blocks
first_blocks_below f zero b bs h l = absurd (omega arith)
first_blocks_below f (suc n) b [] h l = absurd (omega arith)
first_blocks_below f (suc n) zero (w ∷ bs) h l = refl
first_blocks_below f (suc n) (suc b) (w ∷ bs) h l =
    first_blocks_below f n b bs (omega arith) (omega arith)

first_blocks_above :
    (f : ℕ → ℕ) (n b : ℕ) (bs : List ℕ) → n ≤ b → get_or (first_blocks f n bs) b 0 ≡ get_or bs b 0
unfolding first_blocks
first_blocks_above f zero b bs h = refl
first_blocks_above f (suc n) b [] h = refl
first_blocks_above f (suc n) zero (w ∷ bs) h = absurd (omega arith)
first_blocks_above f (suc n) (suc b) (w ∷ bs) h = first_blocks_above f n b bs (omega arith)

length-first_blocks : (f : ℕ → ℕ) (n : ℕ) (bs : List ℕ) → length (first_blocks f n bs) ≡ length bs
unfolding first_blocks
length-first_blocks f zero bs = refl
length-first_blocks f (suc n) [] = refl
length-first_blocks f (suc n) (w ∷ bs) = ap suc (length-first_blocks f n bs)

-- A full block and the last block, by what h does to each bit below the capacity.
module _ (whole part : ℕ → ℕ) (h : Bool → Bool) (s : BitSet) (v : IsValid s)
    (on_whole : (w k : ℕ) → w < 2 ^ 64 → k < 64 → test_bit (whole w) k ≡ h (test_bit w k))
    (on_part : (k : ℕ)
      → k < 64
      → test_bit (part (get_or s.blocks (s.capacity / 64) 0)) k ≡ (
          if ltb k (s.capacity % 64)
          then h (test_bit (get_or s.blocks (s.capacity / 64) 0) k)
          else false))
    (whole_bound : (w : ℕ) → w < 2 ^ 64 → whole w < 2 ^ 64)
    (part_bound : (w : ℕ) → w < 2 ^ 64 → part w < 2 ^ 64) where
  full : ℕ
  full = s.capacity / 64

  looped : List ℕ
  looped = first_blocks whole full s.blocks

  length-looped : length looped ≡ (s.capacity + 63) / 64
  unfolding looped
  length-looped = length-first_blocks whole full s.blocks ∙ v.blocks_length

  looped-full : get_or looped full 0 ≡ get_or s.blocks full 0
  unfolding looped
  looped-full = first_blocks_above whole full full s.blocks (le_refl full)

  bit_at-looped :
      (j : ℕ)
      → (j / 64 < s.capacity / 64) ⊎ (s.capacity ≤ j)
      → bit_at looped j ≡ (if ltb j s.capacity then h (member s j) else false)
  unfolding looped full
  bit_at-looped j (inl below) =
      rw
        (
          lt→ltb j s.capacity (omega arith),
          first_blocks_below whole (s.capacity / 64) (j / 64) s.blocks below
              (omega (arith, v.blocks_length)),
        )
        (on_whole (get_or s.blocks (j / 64) 0) (j % 64) (v.words (j / 64)) (omega arith))
  bit_at-looped j (inr past) =
      rw
        (
          le→ltb j s.capacity past,
          first_blocks_above whole (s.capacity / 64) (j / 64) s.blocks (omega arith),
        )
        (v.clean j past)

  member-each_block :
      (j : ℕ)
      → member (each_block whole part s) j ≡ (if ltb j s.capacity then h (member s j) else false)
  unfolding each_block first_blocks looped full
  member-each_block j = elim (dec_lt full (length looped)) [
    | yes more ↦
        rw
          (
            lt→ltb full (length looped) more,
            looped-full,
            bit_at-set looped full (part (get_or s.blocks full 0)) j more,
          )
          (elim (ℕ_discrete full (j / 64)) [
            | yes e ↦ rw ((==_iff _ _).1 e, on_part (j % 64) (omega arith), e) (ground arith)
            | no n ↦ rw (ne→== _ _ n) (bit_at-looped j (omega arith))
          ])
    | no last ↦
        rw (le→ltb full (length looped) (omega arith))
          (bit_at-looped j (omega (arith, length-looped)))
  ]

  looped_words : (b : ℕ) → get_or looped b 0 < 2 ^ 64
  unfolding looped full
  looped_words b = elim (dec_lt b (s.capacity / 64)) [
    | yes below ↦
        rw
          (first_blocks_below whole (s.capacity / 64) b s.blocks below
            (omega (arith, v.blocks_length)))
          (whole_bound _ (v.words b))
    | no above ↦
        rw (first_blocks_above whole (s.capacity / 64) b s.blocks (omega arith)) (v.words b)
  ]

  each_block_words : (b : ℕ) → get_or (each_block whole part s).blocks b 0 < 2 ^ 64
  unfolding each_block first_blocks looped full
  each_block_words b = elim (dec_lt full (length looped)) [
    | yes more ↦
        rw (lt→ltb full (length looped) more, looped-full)
          (elim (ℕ_discrete full b) [
            | yes e ↦
                rw (← e, get_or-set_self looped full (part (get_or s.blocks full 0)) 0 more)
                  (part_bound _ (v.words full))
            | no n ↦
                rw (get_or-set_ne looped full b (part (get_or s.blocks full 0)) 0 n)
                  (looped_words b)
          ])
    | no last ↦ rw (le→ltb full (length looped) (omega arith)) (looped_words b)
  ]

  length-each_block : length (each_block whole part s).blocks ≡ (s.capacity + 63) / 64
  unfolding each_block first_blocks looped full
  length-each_block = elim (Bool-cases (ltb full (length looped))) [
    | inl more ↦ rw more (length-set looped full _ ∙ length-looped)
    | inr last ↦ rw last length-looped
  ]

  each_block-IsValid : IsValid (each_block whole part s)
  each_block-IsValid = record {
    blocks_length = length-each_block ∙ same;
    words = each_block_words;
    clean = λ i l. member-each_block i ∙ rw (le→ltb i s.capacity (past i l)) refl;
  }
    where
      same : (s.capacity + 63) / 64 ≡ ((each_block whole part s).capacity + 63) / 64
      same = unfold each_block in refl

      past : (i : ℕ) → (each_block whole part s).capacity ≤ i → s.capacity ≤ i
      past i l = unfold each_block in l

-- On a valid set `SetAll` gives a valid set of the indices below the capacity.
pub set_all_lem :
    (s : BitSet)
    → IsValid s
    → IsValid (set_all s) × ((j : ℕ) → member (set_all s) j ≡ ltb j s.capacity)
unfolding set_all
set_all_lem s v = (
  each_block-IsValid _ _ (λ b. true) s v ones part bound part_bound,
  λ j.
      member-each_block _ _ (λ b. true) s v ones part bound part_bound j
      ∙ as_test (ltb j s.capacity),
)
  where
    ones : (w k : ℕ) → w < 2 ^ 64 → k < 64 → test_bit (2 ^ 64 - 1) k ≡ true
    ones w k p q = rw (test_bit_ones 64 k) (lt→ltb k 64 q)

    part :
        (k : ℕ)
        → k < 64
        → test_bit (last_mask s) k ≡ (if ltb k (s.capacity % 64) then true else false)
    part k q = rw (test_bit-low_ones (s.capacity % 64) k (omega arith)) (ground arith)

    bound : (w : ℕ) → w < 2 ^ 64 → 2 ^ 64 - 1 < 2 ^ 64
    bound w p = omega arith

    part_bound : (w : ℕ) → w < 2 ^ 64 → last_mask s < 2 ^ 64
    part_bound w p = low_ones_bound (s.capacity % 64) (omega arith)

    as_test : (b : Bool) → (if b then true else false) ≡ b
    as_test true = refl
    as_test false = refl

-- On a valid set `FlipAll` gives the valid set of the indices below the capacity that were no members.
pub flip_all_lem :
    (s : BitSet)
    → IsValid s
    → IsValid (flip_all s)
      × ((j : ℕ) → member (flip_all s) j ≡ (if ltb j s.capacity then not (member s j) else false))
unfolding flip_all
flip_all_lem s v = (
  each_block-IsValid _ _ not s v flipped part bound part_bound,
  member-each_block _ _ not s v flipped part bound part_bound,
)
  where
    flipped : (w k : ℕ) → w < 2 ^ 64 → k < 64 → test_bit (complement w) k ≡ not (test_bit w k)
    flipped w k p q = test_bit_complement 64 w k p q

    last : ℕ
    last = get_or s.blocks (s.capacity / 64) 0

    high : (k : ℕ) → k < 64 → s.capacity % 64 ≤ k → test_bit last k ≡ false
    high k q l =
        let block : (s.capacity / 64 * 64 + k) / 64 ≡ s.capacity / 64 = omega arith in
        let bit : (s.capacity / 64 * 64 + k) % 64 ≡ k = omega arith in
        rw (block, bit) at (v.clean (s.capacity / 64 * 64 + k) (omega arith))

    part :
        (k : ℕ)
        → k < 64
        → test_bit (bit_xor last (last_mask s)) k
          ≡ (if ltb k (s.capacity % 64) then not (test_bit last k) else false)
    part k q =
        rw (test_bit-xor last (last_mask s) k, test_bit-low_ones (s.capacity % 64) k (omega arith))
          (ground (arith, high k q))

    bound : (w : ℕ) → w < 2 ^ 64 → complement w < 2 ^ 64
    bound w p = omega arith

    part_bound : (w : ℕ) → w < 2 ^ 64 → bit_xor w (last_mask s) < 2 ^ 64
    part_bound w p = xor_bound 64 w (last_mask s) p (low_ones_bound (s.capacity % 64) (omega arith))

zeros : (bs : List ℕ) (b : ℕ) → get_or {A = ℕ} (map (λ (w : ℕ). 0) bs) b 0 ≡ 0
zeros [] b = refl
zeros (w ∷ bs) zero = refl
zeros (w ∷ bs) (suc b) = zeros bs b

-- `UnsetAll` leaves no member.
pub unset_all_lem : (s : BitSet) (j : ℕ) → member (unset_all s) j ≡ false
unfolding unset_all
unset_all_lem s j = rw (zeros s.blocks (j / 64)) (test_bit_zero (j % 64))

count_from_all : (n i : ℕ) → count_from (λ k. true) i n ≡ n
unfolding count_from
count_from_all zero i = refl
count_from_all (suc n) i = omega (arith, count_from_all n (suc i))

-- `SetAll` on a valid set makes `Count` the capacity.
pub count-set_all : (s : BitSet) → IsValid s → count (set_all s) ≡ s.capacity
count-set_all s v =
    let (valid, all) = set_all_lem s v in
    count-eq-count_from (set_all s) valid
    ∙ ap (count_from (member (set_all s)) 0) capacity-set_all
    ∙ count_from-ext (member (set_all s)) (λ k. true) s.capacity 0 0
        (λ k l. all (0 + k) ∙ lt→ltb (0 + k) s.capacity (omega arith))
    ∙ count_from_all s.capacity 0
  where
    capacity-set_all : (set_all s).capacity ≡ s.capacity
    capacity-set_all = unfold set_all each_block in refl
