-- ===== src/PortSet/Scans.antt =====
-- The loops of `RangeSet` find the ranges of the set.
use native.Mathlib.Decide.{dec_lt, ℕ_discrete}
use shadowsocks.Base.{
  ℕ, zero, suc, ◌+◌, ◌-◌, ◌*◌, ◌/◌, ◌%◌, ◌^◌, ◌≤◌, ◌<◌, ◌≡◌, refl, sym, ap, ◌∙◌, subst, Bool, true,
  false, List, [], ◌∷◌, ◌++◌, Option, none, some, arith, ◌==◌, if◌then◌else◌, length, All, ne→==,
  ==_iff, le→leb, lt→leb,
}
use shadowsocks.Base.Bits.{test_bit, pow_lt, complement}
use shadowsocks.Base.Blocks.{bit_at, bit_at_first, bit_at_next}
use shadowsocks.PortSet.{PortSet, PortRange, trailing_zeros, contains, set_contains}
use shadowsocks.PortSet.Members.{member, IsPorts, contains_lem}
use shadowsocks.PortSet.Ranges.{IsSorted, set_contains-eq-any}
use shadowsocks.PortSet.RangeSet.{
  Scan, close_range, open_range, skip_zeros, scan_block, scan_blocks, range_set,
}
use shadowsocks.PortSet.Runs.{
  Closed, Opened, FoundAs, Found, open_again, open_new, Closed-past, close_new,
}
use shadowsocks.PortSet.RangeSet.{range_count}
use shadowsocks.PortSet.RangeCount.{range_count_lem}
use shadowsocks.PortSet.Words.{
  zeros_below, ones_below, test_bit_shift, shift_bound, ones_bounds, odd_lem,
}

module _ (m : ℕ → Bool) where
  Found-open :
      (p n i bits : ℕ) (s : Scan)
      → (i + 1) * 64 ≡ p + bits
      → p < 2 ^ 16
      → 1 ≤ n
      → ((j : ℕ) → j < n → m (p + j) ≡ true)
      → Found m p s
      → Found m (p + n) (open_range i bits s)
  Found-open p n i bits s at small pos ones f = go s.in_range s.from s.ranges f
    where
      go :
          (b : Bool) (from : ℕ) (rs : List PortRange)
          → FoundAs m p b from rs
          → Found m (p + n) (open_range i bits (record { in_range = b; from = from; ranges = rs }))
      go true from rs f = open_again m p n from rs f ones
      go false from rs f =
          subst (λ k. Opened m (p + n) k rs) {x = p} {y = ((i + 1) * 64 - bits) % 2 ^ 16}
            (omega (arith, at, small)) (open_new m p n rs f pos ones)

  Found-close :
      (p n i bits : ℕ) (s : Scan)
      → (i + 1) * 64 ≡ p + bits
      → p < 2 ^ 16
      → ((j : ℕ) → j < n → m (p + j) ≡ false)
      → Found m p s
      → Found m (p + n) (close_range i bits s)
  Found-close p n i bits s at small zeros f = go s.in_range s.from s.ranges f
    where
      go :
          (b : Bool) (from : ℕ) (rs : List PortRange)
          → FoundAs m p b from rs
          → Found m (p + n) (close_range i bits (record { in_range = b; from = from; ranges = rs }))
      go true from rs f =
          subst (λ k. Closed m (p + n) (rs ++ (record { from = from; to = k } ∷ []))) {x = p - 1}
            {y = ((i + 1) * 64 + 2 ^ 64 - bits - 1) % 2 ^ 16} (omega (arith, at, small, f.opened))
            (Closed-past m p n _ (close_new m p n from rs f) zeros)
      go false from rs f = Closed-past m p n rs f zeros

  module _ (i : ℕ) (small : i < 1024) where
    -- The second half of a round.
    abbrev ones_half : ℕ → ℕ → ℕ → Scan → Scan
    ones_half fuel block bits s =
        let ones = trailing_zeros 64 (complement block) in
        if ones == bits
        then open_range i bits s
        else scan_block close_range open_range fuel i (block / 2 ^ ones) (bits - ones)
            (open_range i bits s)

    abbrev after_skip : ℕ → Option (ℕ × ℕ) × Scan → Scan
    after_skip fuel x = elim x.0 [ none ↦ x.1 | some left ↦ ones_half fuel left.0 left.1 x.1 ]

    round_lem :
        (fuel block bits : ℕ) (s : Scan)
        → scan_block close_range open_range (suc fuel) i block bits s
          ≡ after_skip fuel (skip_zeros close_range open_range i block bits s)
    unfolding scan_block
    round_lem fuel block bits s = refl

    -- What the rest of a block is: its bits are those of the set from p on.
    record IsRest (p block bits : ℕ) : Type 0 where
      left : 1 ≤ bits
      most : bits ≤ 64
      at : (i + 1) * 64 ≡ p + bits
      word : block < 2 ^ bits
      same : (k : ℕ) → k < bits → test_bit block k ≡ m (p + k)

    IsRest-word : (p block bits : ℕ) → IsRest p block bits → block < 2 ^ 64
    IsRest-word p block bits r = elim (ℕ_discrete bits 64) [
      | yes e ↦ subst (λ b. block < 2 ^ b) e r.word
      | no n ↦ omega (arith, r.word, pow_lt bits (omega (arith, r.most, n)))
    ]

    IsRest-shift :
        (p block bits n : ℕ)
        → IsRest p block bits
        → n < bits
        → IsRest (p + n) (block / 2 ^ n) (bits - n)
    IsRest-shift p block bits n r l = record {
      left = omega (arith, l);
      most = omega (arith, r.most);
      at = omega (arith, r.at, l);
      word = shift_bound n bits block (omega (arith, l)) r.word;
      same = λ k h.
          test_bit_shift n block k
          ∙ r.same (n + k) (omega (arith, h))
          ∙ ap m {x = p + (n + k)} {y = p + n + k} (omega arith);
    }

    Found-ones_half :
        (fuel p block bits : ℕ) (s : Scan)
        → IsRest p block bits
        → test_bit block 0 ≡ true
        → ((p' block' bits' : ℕ) (s' : Scan)
            → bits' < bits
            → IsRest p' block' bits'
            → Found m p' s'
            → Found m ((i + 1) * 64) (scan_block close_range open_range fuel i block' bits' s'))
        → Found m p s
        → Found m ((i + 1) * 64) (ones_half fuel block bits s)
    Found-ones_half fuel p block bits s r odd ih f =
        let ones : ℕ = trailing_zeros 64 (complement block) in
        let w : block < 2 ^ 64 = IsRest-word p block bits r in
        let (pos, le) = ones_bounds block bits r.most r.word w odd in
        let run : (j : ℕ) → j < ones → m (p + j) ≡ true = λ j l.
          sym (r.same j (omega (arith, l, le)))
          ∙ ones_below block j w (omega (arith, l, le, r.most)) l in
        let opened : Found m (p + ones) (open_range i bits s) =
          Found-open p ones i bits s r.at (omega (arith, r.at, small, r.left)) pos run f in
        elim (ℕ_discrete ones bits) [
          | yes e ↦ rw ((==_iff ones bits).1 e) (
              subst (λ k. Found m k (open_range i bits s)) {x = p + ones} {y = (i + 1) * 64}
                (omega (arith, e, r.at)) opened)
          | no n ↦ rw (ne→== ones bits n) (
              ih (p + ones) (block / 2 ^ ones) (bits - ones) (open_range i bits s)
                (omega (arith, pos, r.left))
                (IsRest-shift p block bits ones r (omega (arith, le, n))) opened)
        ]

    -- A round, whose rest finds what it should.
    Found-round :
        (fuel p block bits : ℕ) (s : Scan)
        → IsRest p block bits
        → ((p' block' bits' : ℕ) (s' : Scan)
            → bits' < bits
            → IsRest p' block' bits'
            → Found m p' s'
            → Found m ((i + 1) * 64) (scan_block close_range open_range fuel i block' bits' s'))
        → Found m p s
        → Found m
            ((i + 1) * 64)
            (after_skip fuel (skip_zeros close_range open_range i block bits s))
    unfolding skip_zeros
    Found-round fuel p block bits s r ih f =
        let zeros : ℕ = trailing_zeros 64 block in
        let w : block < 2 ^ 64 = IsRest-word p block bits r in
        let here : p < 2 ^ 16 = omega (arith, r.at, small, r.left) in
        let run : (n : ℕ) → n ≤ zeros → n ≤ bits → Found m (p + n) (close_range i bits s) = λ n l k.
          Found-close p n i bits s r.at here
            (λ j h.
              sym (r.same j (omega (arith, h, k))) ∙ zeros_below block j w (omega (arith, h, l)))
            f in
        elim (ℕ_discrete zeros 0) [
          | yes z ↦ rw ((==_iff zeros 0).1 z) (
              Found-ones_half fuel p block bits s r
                (ap (test_bit block) (sym z) ∙ odd_lem block w (omega (arith, z))) ih f)
          | no n ↦ rw (ne→== zeros 0 n) (elim (dec_lt zeros bits) [
            | no all ↦ rw (le→leb bits zeros (omega (arith, all))) (
                subst (λ k. Found m k (close_range i bits s)) {x = p + bits} {y = (i + 1) * 64}
                  (omega (arith, r.at)) (run bits (omega (arith, all)) (omega arith)))
            | yes part ↦ rw (lt→leb bits zeros part) (
                Found-ones_half fuel (p + zeros) (block / 2 ^ zeros) (bits - zeros)
                  (close_range i bits s) (IsRest-shift p block bits zeros r part)
                  (test_bit_shift zeros block 0
                    ∙ ap (test_bit block) {x = zeros + 0} {y = zeros} (omega arith)
                    ∙ odd_lem block w (omega (arith, part, r.most)))
                  (λ p' b' bits' s' l. ih p' b' bits' s' (omega (arith, l)))
                  (run zeros (omega arith) (omega (arith, part))))
          ])
        ]

    -- The loop over the rest of a block finds the ranges of the rest.
    Found-scan_block :
        (fuel p block bits : ℕ) (s : Scan)
        → bits ≤ fuel
        → IsRest p block bits
        → Found m p s
        → Found m ((i + 1) * 64) (scan_block close_range open_range fuel i block bits s)
    Found-scan_block zero p block bits s enough r f = absurd (omega (arith, r.left, enough))
    Found-scan_block (suc fuel) p block bits s enough r f =
        let ih : (p' block' bits' : ℕ) (s' : Scan)
            → bits' < bits
            → IsRest p' block' bits'
            → Found m p' s'
            → Found m ((i + 1) * 64) (scan_block close_range open_range fuel i block' bits' s') =
          λ p' block' bits' s' l r' f'.
            Found-scan_block fuel p' block' bits' s' (omega (arith, l, enough)) r' f' in
        subst (Found m ((i + 1) * 64)) (sym (round_lem fuel block bits s))
          (Found-round fuel p block bits s r ih f)

  -- The loop over the blocks from one on, whose bits are those of the set from there on.
  Found-scan_blocks :
      (i : ℕ) (bs : List ℕ) (s : Scan)
      → i + length bs ≤ 1024
      → All (λ w. w < 2 ^ 64) bs
      → ((k : ℕ) → k < 64 * length bs → bit_at bs k ≡ m (i * 64 + k))
      → Found m (i * 64) s
      → Found m ((i + length bs) * 64) (scan_blocks close_range open_range i bs s)
  unfolding scan_blocks
  Found-scan_blocks i [] s small v same f =
      subst (λ k. Found m k s) {x = i * 64} {y = (i + 0) * 64} (omega arith) f
  Found-scan_blocks i (w ∷ bs) s small v same f =
      let after : Scan = scan_block close_range open_range 64 i w 64 s in
      let there : Found m ((i + 1) * 64) after =
        Found-scan_block i (omega (arith, small)) 64 (i * 64) w 64 s (omega arith)
          (record {
            left = omega arith;
            most = omega arith;
            at = omega arith;
            word = v.0;
            same = λ k h. sym (bit_at_first w bs k h) ∙ same k (omega (arith, h));
          })
          f in
      subst (λ k. Found m k (scan_blocks close_range open_range (i + 1) bs after))
        {x = (i + 1 + length bs) * 64} {y = (i + suc (length bs)) * 64} (omega arith)
        (Found-scan_blocks (i + 1) bs after (omega (arith, small)) v.1
          (λ k h.
            sym (bit_at_next w bs k)
            ∙ same (64 + k) (omega (arith, h))
            ∙ ap m {x = i * 64 + (64 + k)} {y = (i + 1) * 64 + k} (omega arith))
          there)

finish_lem :
    (m : ℕ → Bool) (b : Bool) (from : ℕ) (rs : List PortRange)
    → FoundAs m 65536 b from rs
    → Closed m 65536 (if b then rs ++ (record { from = from; to = 65535 } ∷ []) else rs)
finish_lem m true from rs f = close_new m 65536 0 from rs f
finish_lem m false from rs f = f

range_set-member :
    (s : PortSet) (port : ℕ)
    → IsPorts s
    → All (λ w. w < 2 ^ 64) s
    → port < 2 ^ 16
    → IsSorted (range_set s) × (set_contains (range_set s) port ≡ member s port)
unfolding range_set
range_set-member s port v words h =
    let start : Scan = record { in_range = false; from = 0; ranges = [] } in
    let none_ : Closed (member s) 0 [] = record {
      sorted = record {
        proper = λ i l. absurd (omega (arith, l));
        apart = λ i j l k. absurd (omega (arith, k));
      };
      below = λ i l. absurd (omega (arith, l));
      covers = λ q l. absurd (omega (arith, l));
    } in
    let last : Scan = scan_blocks close_range open_range 0 s start in
    let found : Found (member s) 65536 last =
      subst (λ k. Found (member s) k last) {x = (0 + length s) * 64} {y = 65536} (omega (arith, v))
        (Found-scan_blocks (member s) 0 s start (omega (arith, v)) words
          (λ k l. ap (member s) {x = k} {y = 0 * 64 + k} (omega arith)) none_) in
    let c = finish_lem (member s) last.in_range last.from last.ranges found in
    (c.sorted, set_contains-eq-any (range_set s) port c.sorted ∙ c.covers port (omega (arith, h)))

-- `RangeSet` of a port set of 1024 words of 64 bits gives sorted ranges, in the number that `RangeCount` tells,
-- and in them `PortRangeSet.Contains` answers as `PortSet.Contains` does, for every port from 1 to 65535.
pub range_set-contains :
    (s : PortSet) (port : ℕ)
    → IsPorts s
    → All (λ w. w < 2 ^ 64) s
    → 1 ≤ port
    → port < 2 ^ 16
    → IsSorted (range_set s)
      × (range_count s ≡ length (range_set s))
      × (contains s port ≡ some (set_contains (range_set s) port))
range_set-contains s port v words pos h =
    let (sorted, e) = range_set-member s port v words h in
    (
      sorted,
      range_count_lem s,
      contains_lem s port ∙ rw (ne→== port 0 (λ z. omega (arith, z, pos))) (ap some (sym e)),
    )
