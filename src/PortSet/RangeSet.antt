-- ===== src/PortSet/RangeSet.antt =====
-- `RangeCount` and `RangeSet`: the runs of ports of a set, block by block.
use shadowsocks.Base.{
  ℕ, zero, suc, ◌+◌, ◌-◌, ◌*◌, ◌/◌, ◌%◌, ◌^◌, Bool, true, false, List, [], ◌∷◌, ◌++◌, leb, ◌==◌,
  if◌then◌else◌, Option, none, some,
}
use shadowsocks.Base.Bits.{complement}
use shadowsocks.PortSet.{PortSet, trailing_zeros, PortRange}

-- The variables of the loops of `RangeSet`.
pub record Scan : Type 0 where
  pub in_range : Bool
  pub from : ℕ
  pub ranges : List PortRange

-- A bit that is 0 ends a range: `uint16((uint(i)+1)*blockBits - bitsRemaining - 1)`.
abbrev pub close_range : ℕ → ℕ → Scan → Scan
close_range i bits s =
    if s.in_range
    then record {
      in_range = false;
      from = s.from;
      ranges =
          s.ranges
          ++ (record { from = s.from; to = ((i + 1) * 64 + 2 ^ 64 - bits - 1) % 2 ^ 16 } ∷ []);
    }
    else s

-- A bit that is 1 starts a range.
abbrev pub open_range : ℕ → ℕ → Scan → Scan
open_range i bits s =
    if s.in_range then s else record s { in_range = true; from = ((i + 1) * 64 - bits) % 2 ^ 16 }

-- The loops of `RangeSet` and `RangeCount`, which differ in what they do at the start and the end of a range.
module _ {S : Type 0} (stop start : ℕ → ℕ → S → S) where
  -- The first half of a round: what is left of the block's word and of its bits, if anything.
  unfoldable pub skip_zeros : ℕ → ℕ → ℕ → S → Option (ℕ × ℕ) × S
  skip_zeros i block bits s =
      let zeros = trailing_zeros 64 block in
      if zeros == 0
      then (some (block, bits), s)
      else if leb bits zeros
      then (none, stop i bits s)
      else (some (block / 2 ^ zeros, bits - zeros), stop i bits s)

  -- The inner loop on block i, in whose word `bits` bits remain; each round takes one of them at least.
  unfoldable pub scan_block : ℕ → ℕ → ℕ → ℕ → S → S
  scan_block zero i block bits s = s
  scan_block (suc fuel) i block bits s =
      let (left, s') = skip_zeros i block bits s in
      elim left [
        | none ↦ s'
        | some (block', bits') ↦
            let ones = trailing_zeros 64 (complement block') in
            let rest = scan_block fuel i (block' / 2 ^ ones) (bits' - ones) (start i bits' s') in
            if ones == bits' then start i bits' s' else rest
      ]

  -- The outer loop; a block has 64 bits.
  unfoldable pub scan_blocks : ℕ → PortSet → S → S
  scan_blocks i [] s = s
  scan_blocks i (block ∷ blocks) s = scan_blocks (i + 1) blocks (scan_block 64 i block 64 s)

-- `RangeSet`
unfoldable pub range_set : PortSet → List PortRange
range_set ports =
    let s =
      scan_blocks close_range open_range 0 ports
        (record { in_range = false; from = 0; ranges = [] }) in
    if s.in_range then s.ranges ++ (record { from = s.from; to = 65535 } ∷ []) else s.ranges

-- The variables of `RangeCount`: whether a range is open, and the count.
abbrev pub close_count : ℕ → ℕ → Bool × ℕ → Bool × ℕ
close_count i bits (in_range, count) = (false, count)

abbrev pub open_count : ℕ → ℕ → Bool × ℕ → Bool × ℕ
open_count i bits (in_range, count) = if in_range then (in_range, count) else (true, count + 1)

-- `RangeCount`
unfoldable pub range_count : PortSet → ℕ
range_count ports = (scan_blocks close_count open_count 0 ports (false, 0)).1
