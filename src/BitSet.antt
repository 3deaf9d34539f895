-- ===== src/BitSet.antt =====
-- bitset/bitset.go: a set of the numbers below a capacity, in 64-bit blocks (`bits.UintSize`).
-- An index of at least the capacity panics, which is `none`.
pub mod Laws
pub mod Count
mod Examples
use shadowsocks.Base.{
  ℕ, zero, suc, ◌+◌, ◌-◌, ◌*◌, ◌/◌, ◌%◌, ◌^◌, Bool, true, false, not, List, [], ◌∷◌, Option, none,
  some, bit_and, bit_or, bit_xor, ltb, leb, ◌==◌, if◌then◌else◌, length, get_or, set, replicate,
  map, take, drop, ◌++◌,
}
use shadowsocks.Base.Bits.{shl, complement}
use shadowsocks.Base.Blocks.{count_blocks}

-- `BitSet`
pub record BitSet : Type 0 where
  pub blocks : List ℕ
  pub capacity : ℕ

unfoldable pub new_bit_set : ℕ → BitSet
new_bit_set capacity = record {
  blocks = replicate ((capacity + 64 - 1) % 2 ^ 64 / 64) 0;
  capacity = capacity;
}

-- `Count`
pub count : BitSet → ℕ
count s = count_blocks s.blocks

abbrev pub block_index : ℕ → ℕ
block_index index = index / 64

abbrev pub bit_index : ℕ → ℕ
bit_index index = index % 64

-- `checkIndex`, then the rest of the method.
unfoldable pub check_index {ℓ} : {A : Type ℓ} → BitSet → ℕ → A → Option A
check_index s index a = if leb s.capacity index then none else some a

unfoldable pub is_set : BitSet → ℕ → Option Bool
unfolding check_index
is_set s index =
    check_index s index
      (not (bit_and (get_or s.blocks (block_index index) 0) (shl 1 (bit_index index)) == 0))

-- `s.blocks[s.blockIndex(index)] = g(s.blocks[s.blockIndex(index)], 1<<s.bitIndex(index))`
unfoldable pub update : (ℕ → ℕ → ℕ) → BitSet → ℕ → BitSet
update g s index =
    let i = block_index index in
    record s { blocks = set s.blocks i (g (get_or s.blocks i 0) (shl 1 (bit_index index))) }

-- `Set`, `|=`
unfoldable pub set_bit : BitSet → ℕ → Option BitSet
unfolding check_index update
set_bit s index = check_index s index (update bit_or s index)

-- `Unset`, `&^=`
pub unset : BitSet → ℕ → Option BitSet
unfolding check_index update
unset s index = check_index s index (update (λ w m. bit_and w (complement m)) s index)

-- `Flip`, `^=`
pub flip : BitSet → ℕ → Option BitSet
unfolding check_index update
flip s index = check_index s index (update bit_xor s index)

-- A loop over `s.blocks[:fullBlocks]`, and the step on the last block, if it is not full.
pub each_block : (ℕ → ℕ) → (ℕ → ℕ) → BitSet → BitSet
each_block whole part s =
    let full = block_index s.capacity in
    let blocks = map whole (take full s.blocks) ++ drop full s.blocks in
    record s {
      blocks =
          if ltb full (length blocks)
          then set blocks full (part (get_or blocks full 0))
          else blocks;
    }

-- `^(^uint(0) << s.bitIndex(s.capacity))`
abbrev pub last_mask : BitSet → ℕ
last_mask s = complement (shl (2 ^ 64 - 1) (bit_index s.capacity))

-- `SetAll`
pub set_all : BitSet → BitSet
unfolding each_block
set_all s = each_block (λ w. 2 ^ 64 - 1) (λ w. last_mask s) s

-- `UnsetAll`
pub unset_all : BitSet → BitSet
unset_all s = record s { blocks = map (λ w. 0) s.blocks }

-- `FlipAll`
pub flip_all : BitSet → BitSet
unfolding each_block
flip_all s = each_block complement (λ w. bit_xor w (last_mask s)) s
