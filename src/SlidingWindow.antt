-- ===== src/SlidingWindow.antt =====
-- ss2022/slidingwindow.go: the replay filter of a UDP session, a window over 64-bit packet counters
-- kept in a ring of 64-bit blocks. `bits.UintSize` is 64. An index out of range, where Go panics,
-- reads as 0 and writes nothing.
pub mod Window
pub mod Clear
pub mod Refine
pub mod Run
pub mod Memory
mod Examples
use shadowsocks.Base.{
  ℕ, zero, suc, ◌+◌, ◌-◌, ◌/◌, ◌%◌, ◌^◌, min, bit_and, bit_or, Bool, true, false, not, List, [],
  ◌∷◌, arith, ltb, leb, ◌==◌, if◌then◌else◌, length, get_or, set, replicate,
}
use shadowsocks.Base.Bits.{shl}

-- `SlidingWindowFilter`
pub record Filter : Type 0 where
  pub size : ℕ
  pub last : ℕ
  pub ring : List ℕ
  pub ring_block_index_mask : ℕ

-- `bits.Len64`, the number of bits of x, for x below `2 ^ fuel`.
unfoldable pub bit_length : ℕ → ℕ → ℕ
bit_length zero x = 0
bit_length (suc fuel) zero = 0
bit_length (suc fuel) (suc x) = suc (bit_length fuel (suc x / 2))

pub ring_blocks : ℕ → ℕ
unfolding bit_length
ring_blocks size = shl 1 (bit_length 64 ((size + 64 - 1) % 2 ^ 64)) / 64

pub new_filter : ℕ → Filter
new_filter size = record {
  size = size;
  last = 0;
  ring = replicate (ring_blocks size) 0;
  ring_block_index_mask = (ring_blocks size + 2 ^ 64 - 1) % 2 ^ 64;
}

pub reset : Filter → Filter
reset f = record f { last = 0; ring = set f.ring 0 0 }

abbrev pub unmasked_block_index : ℕ → ℕ
unmasked_block_index counter = counter / 64

abbrev pub block_index : Filter → ℕ → ℕ
block_index f counter = bit_and (counter / 64) f.ring_block_index_mask

abbrev pub bit_index : ℕ → ℕ
bit_index counter = counter % 64

-- `f.ring[f.blockIndex(counter)] & (1 << f.bitIndex(counter)) == 0`
pub is_unseen : Filter → ℕ → Bool
is_unseen f counter =
    bit_and (get_or f.ring (block_index f counter) 0) (shl 1 (bit_index counter)) == 0

pub is_ok : Filter → ℕ → Bool
is_ok f counter =
    if ltb f.last counter
    then true
    else if leb f.size (f.last - counter)
    then false
    else is_unseen f counter

-- The loop that clears blocks ahead, round by round.
pub clear_blocks : ℕ → ℕ → ℕ → List ℕ → List ℕ
clear_blocks zero mask last_block ring = ring
clear_blocks (suc n) mask last_block ring =
    let next = bit_and ((last_block + 1) % 2 ^ 64) mask in
    clear_blocks n mask next (set ring next 0)

-- `int(blockIndex-lastBlockIndex)` is below 2 ^ 58, so the conversion keeps it.
pub advance : Filter → ℕ → Filter
advance f counter =
    let last_block = unmasked_block_index f.last in
    let ahead = (unmasked_block_index counter + 2 ^ 64 - last_block) % 2 ^ 64 in
    record f {
      last = counter;
      ring = clear_blocks (min ahead (length f.ring)) f.ring_block_index_mask last_block f.ring;
    }

-- `f.ring[blockIndex] |= 1 << bitIndex`
pub mark : Filter → ℕ → Filter
mark f counter =
    let i = block_index f counter in
    record f { ring = set f.ring i (bit_or (get_or f.ring i 0) (shl 1 (bit_index counter))) }

pub must_add : Filter → ℕ → Filter
must_add f counter = mark (if ltb f.last counter then advance f counter else f) counter

pub add : Filter → ℕ → Bool × Filter
add f counter =
    if ltb f.last counter
    then (true, mark (advance f counter) counter)
    else if leb f.size (f.last - counter)
    then (false, f)
    else if not (is_unseen f counter)
    then (false, f)
    else (true, mark f counter)

-- A session's calls of `Add` in order, with what each returns.
pub add_all : Filter → List ℕ → List Bool × Filter
add_all f [] = ([], f)
add_all f (c ∷ cs) =
    let (accepted, f') = add f c in let (rest, f'') = add_all f' cs in (accepted ∷ rest, f'')
