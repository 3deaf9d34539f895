-- ===== src/PortSet/RangeCount.antt =====
-- `RangeCount` against `RangeSet`: the loops are the same, and so is what they count.
use shadowsocks.Base.{
  ℕ, zero, suc, ◌+◌, ◌-◌, ◌*◌, ◌%◌, subst, ◌/◌, ◌^◌, ◌≡◌, refl, sym, ap, ◌∙◌, Bool, true, false,
  List, [], ◌∷◌, ◌++◌, Option, none, some, arith, leb, ◌==◌, if◌then◌else◌, length, length-append,
  Bool-cases, inl, inr,
}
use shadowsocks.Base.Bits.{complement}
use shadowsocks.PortSet.{PortSet, PortRange, trailing_zeros}
use shadowsocks.PortSet.RangeSet.{
  Scan, close_range, open_range, close_count, open_count, skip_zeros, scan_block, scan_blocks,
  range_set, range_count,
}

-- Two scans whose steps keep a relation are related.
module _ {S T : Type 0} (R : S → T → Type 0) (stop start : ℕ → ℕ → S → S)
    (stop' start' : ℕ → ℕ → T → T)
    (stops : (i bits : ℕ) (s : S) (t : T) → R s t → R (stop i bits s) (stop' i bits t))
    (starts : (i bits : ℕ) (s : S) (t : T) → R s t → R (start i bits s) (start' i bits t)) where
  -- The second half of a round, on what is left of the block.
  abbrev after_skip :
      {U : Type 0} → (ℕ → ℕ → U → U) → (ℕ → ℕ → ℕ → ℕ → U → U) → ℕ → ℕ → Option (ℕ × ℕ) → U → U
  after_skip go loop fuel i o u = elim o [
    | none ↦ u
    | some left ↦
        let ones = trailing_zeros 64 (complement left.0) in
        if ones == left.1
        then go i left.1 u
        else loop fuel i (left.0 / 2 ^ ones) (left.1 - ones) (go i left.1 u)
  ]

  skip-related :
      (i block bits : ℕ) (s : S) (t : T)
      → R s t
      → ((skip_zeros stop start i block bits s).0 ≡ (skip_zeros stop' start' i block bits t).0)
        × R (skip_zeros stop start i block bits s).1 (skip_zeros stop' start' i block bits t).1
  unfolding skip_zeros
  skip-related i block bits s t r =
      let zeros : ℕ = trailing_zeros 64 block in
      elim (Bool-cases (zeros == 0)) [
        | inl e ↦ rw e (refl, r)
        | inr e ↦ rw e (elim (Bool-cases (leb bits zeros)) [
          | inl f ↦ rw f (refl, stops i bits s t r)
          | inr f ↦ rw f (refl, stops i bits s t r)
        ])
      ]

  after-related :
      (fuel i : ℕ) (o : Option (ℕ × ℕ)) (s : S) (t : T)
      → ((block bits : ℕ) (s' : S) (t' : T)
          → R s' t'
          → R
              (scan_block stop start fuel i block bits s')
              (scan_block stop' start' fuel i block bits t'))
      → R s t
      → R
          (after_skip start (scan_block stop start) fuel i o s)
          (after_skip start' (scan_block stop' start') fuel i o t)
  after-related fuel i none s t ih r = r
  after-related fuel i (some (block, bits)) s t ih r =
      let ones : ℕ = trailing_zeros 64 (complement block) in
      elim (Bool-cases (ones == bits)) [
        | inl f ↦ rw f (starts i bits s t r)
        | inr f ↦ rw f (ih (block / 2 ^ ones) (bits - ones) _ _ (starts i bits s t r))
      ]

  round_lem :
      (fuel i block bits : ℕ) (s : S)
      → scan_block stop start (suc fuel) i block bits s
        ≡ after_skip start
            (scan_block stop start)
            fuel
            i
            (skip_zeros stop start i block bits s).0
            (skip_zeros stop start i block bits s).1
  unfolding scan_block
  round_lem fuel i block bits s = refl

  other_round_lem :
      (fuel i block bits : ℕ) (t : T)
      → scan_block stop' start' (suc fuel) i block bits t
        ≡ after_skip start'
            (scan_block stop' start')
            fuel
            i
            (skip_zeros stop' start' i block bits t).0
            (skip_zeros stop' start' i block bits t).1
  unfolding scan_block
  other_round_lem fuel i block bits t = refl

  scan_block-related :
      (fuel i block bits : ℕ) (s : S) (t : T)
      → R s t
      → R (scan_block stop start fuel i block bits s) (scan_block stop' start' fuel i block bits t)
  unfolding scan_block
  scan_block-related zero i block bits s t r = r
  scan_block-related (suc fuel) i block bits s t r =
      let ih : (block' bits' : ℕ) (s' : S) (t' : T)
          → R s' t'
          → R (scan_block stop start fuel i block' bits' s')
              (scan_block stop' start' fuel i block' bits' t') =
        λ block' bits' s' t' r'. scan_block-related fuel i block' bits' s' t' r' in
      let (same, r1) = skip-related i block bits s t r in
      let there = after-related fuel i (skip_zeros stop start i block bits s).0 _ _ ih r1 in
      subst (λ x. R x (scan_block stop' start' (suc fuel) i block bits t))
        (sym (round_lem fuel i block bits s))
        (subst
          (λ y.
            R
              (after_skip start (scan_block stop start) fuel i
                (skip_zeros stop start i block bits s).0 (skip_zeros stop start i block bits s).1)
              y)
          (ap
              (λ o.
                after_skip start' (scan_block stop' start') fuel i o
                  (skip_zeros stop' start' i block bits t).1)
              same
            ∙ sym (other_round_lem fuel i block bits t))
          there)

  scan_blocks-related :
      (i : ℕ) (bs : List ℕ) (s : S) (t : T)
      → R s t
      → R (scan_blocks stop start i bs s) (scan_blocks stop' start' i bs t)
  unfolding scan_blocks
  scan_blocks-related i [] s t r = r
  scan_blocks-related i (w ∷ bs) s t r =
      scan_blocks-related (i + 1) bs _ _ (scan_block-related 64 i w 64 s t r)

-- As many ranges have begun as are counted.
Counts : Scan → Bool × ℕ → Type 0
Counts s c = (c.0 ≡ s.in_range) × (c.1 ≡ length s.ranges + (if s.in_range then 1 else 0))

close-Counts :
    (i bits : ℕ) (s : Scan) (c : Bool × ℕ)
    → Counts s c
    → Counts (close_range i bits s) (close_count i bits c)
unfolding Counts
close-Counts i bits s c = go s.in_range s.from s.ranges c
  where
    go :
        (b : Bool) (from : ℕ) (rs : List PortRange) (c : Bool × ℕ)
        → Counts (record { in_range = b; from = from; ranges = rs }) c
        → Counts
            (close_range i bits (record { in_range = b; from = from; ranges = rs }))
            (close_count i bits c)
    go true from rs (_, n) (e, f) =
        let r : PortRange = record {
          from = from;
          to = ((i + 1) * 64 + 2 ^ 64 - bits - 1) % 2 ^ 16;
        } in
        (refl, omega (arith, f, length-append rs (r ∷ [])))
    go false from rs (_, n) (e, f) = (refl, f)

open-Counts :
    (i bits : ℕ) (s : Scan) (c : Bool × ℕ)
    → Counts s c
    → Counts (open_range i bits s) (open_count i bits c)
unfolding Counts
open-Counts i bits s c = go s.in_range s.from s.ranges c
  where
    go :
        (b : Bool) (from : ℕ) (rs : List PortRange) (c : Bool × ℕ)
        → Counts (record { in_range = b; from = from; ranges = rs }) c
        → Counts
            (open_range i bits (record { in_range = b; from = from; ranges = rs }))
            (open_count i bits c)
    go true from rs (true, n) (e, f) = (refl, f)
    go true from rs (false, n) (e, f) = cc
    go false from rs (true, n) (e, f) = cc
    go false from rs (false, n) (e, f) = (refl, omega (arith, f))

finish_length :
    (s : Scan) (c : Bool × ℕ)
    → Counts s c
    → c.1
      ≡ length
          (if s.in_range then s.ranges ++ (record { from = s.from; to = 65535 } ∷ []) else s.ranges)
unfolding Counts
finish_length s c = go s.in_range s.from s.ranges c
  where
    go :
        (b : Bool) (from : ℕ) (rs : List PortRange) (c : Bool × ℕ)
        → Counts (record { in_range = b; from = from; ranges = rs }) c
        → c.1 ≡ length (if b then rs ++ (record { from = from; to = 65535 } ∷ []) else rs)
    go true from rs (_, n) (e, f) =
        omega (arith, f, length-append rs ((record { from = from; to = 65535 }) ∷ []))
    go false from rs (_, n) (e, f) = omega (arith, f)

pub range_count_lem : (s : PortSet) → range_count s ≡ length (range_set s)
unfolding range_count range_set Counts
range_count_lem s =
    let start : Scan = record { in_range = false; from = 0; ranges = [] } in
    finish_length (scan_blocks close_range open_range 0 s start)
      (scan_blocks close_count open_count 0 s (false, 0))
      (scan_blocks-related Counts close_range open_range close_count open_count close-Counts
        open-Counts 0 s start (false, 0) (refl, refl))
