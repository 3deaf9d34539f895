-- ===== src/PortSet.antt =====
-- portset/portset.go and portset/range.go: sets of ports as 1024 blocks of 64 bits, the parser of
-- their text form, and the sorted ranges that a lookup searches by halves.
pub mod Members
pub mod First
pub mod Text
pub mod Ranges
pub mod RangeSet
pub mod RangeCount
pub mod Runs
pub mod Words
pub mod Scans
pub mod Single
mod Examples
use shadowsocks.Base.{
  ℕ, zero, suc, ◌+◌, ◌-◌, ◌*◌, ◌/◌, ◌%◌, ◌^◌, Bool, true, false, not, List, [], ◌∷◌, Option, none,
  some, bit_and, bit_or, ltb, leb, ◌==◌, if◌then◌else◌, length, get_or, set, replicate,
}
use shadowsocks.Base.Bits.{shl, complement}
use shadowsocks.Base.Blocks.{count_blocks}
use shadowsocks.Base.Text.{cut, parse_uint}

-- `PortSet`, by its array of 65536 / 64 blocks.
abbrev pub PortSet : Type 0
PortSet = List ℕ

-- The zero value.
unfoldable pub new_port_set : PortSet
new_port_set = replicate 1024 0

unfoldable pub count : PortSet → ℕ
count s = count_blocks s

-- `bits.TrailingZeros` of a word of n bits: n for 0.
unfoldable pub trailing_zeros : ℕ → ℕ → ℕ
trailing_zeros zero w = 0
trailing_zeros (suc n) w =
    let rest = suc (trailing_zeros n (w / 2)) in if w % 2 == 1 then 0 else rest

-- The loop of `First` from block i on. The array has 1024 blocks, so `uint16` keeps the number.
unfoldable pub first_from : ℕ → PortSet → ℕ
unfolding trailing_zeros
first_from i [] = 0
first_from i (block ∷ blocks) =
    let rest = first_from (i + 1) blocks in
    if block == 0 then rest else (i * 64 + trailing_zeros 64 block) % 2 ^ 16

unfoldable pub first : PortSet → ℕ
unfolding first_from
first s = first_from 0 s

abbrev pub block_index : ℕ → ℕ
block_index port = port / 64

abbrev pub bit_index : ℕ → ℕ
bit_index port = port % 64

-- `Contains`; port 0 panics, which is `none`.
pub contains : PortSet → ℕ → Option Bool
contains s port =
    if port == 0
    then none
    else some (not (bit_and (get_or s (block_index port) 0) (shl 1 (bit_index port)) == 0))

-- `s.blocks[i] |= mask`
abbrev pub or_block : PortSet → ℕ → ℕ → PortSet
or_block s i mask = set s i (bit_or (get_or s i 0) mask)

-- The method `add`.
unfoldable pub add_port : PortSet → ℕ → PortSet
add_port s port = or_block s (block_index port) (shl 1 (bit_index port))

-- The method `Add`.
unfoldable pub add : PortSet → ℕ → Option PortSet
add s port = if port == 0 then none else some (add_port s port)

-- `for i := from; i < from + n; i++ { s.blocks[i] = ^uint(0) }`
unfoldable pub fill_blocks : ℕ → ℕ → PortSet → PortSet
fill_blocks zero i s = s
fill_blocks (suc n) i s = fill_blocks n (i + 1) (set s i (2 ^ 64 - 1))

-- The method `addRange`, from the first port to before the last.
unfoldable pub add_range : PortSet → ℕ → ℕ → PortSet
unfolding fill_blocks
add_range s from_inclusive to_exclusive =
    let from_block = block_index from_inclusive in
    let to_block = block_index to_exclusive in
    let from_mask = shl (2 ^ 64 - 1) (bit_index from_inclusive) in
    let to_mask = complement (shl (2 ^ 64 - 1) (bit_index to_exclusive)) in
    let started = or_block s from_block from_mask in
    let filled = fill_blocks (to_block - (from_block + 1)) (from_block + 1) started in
    if from_block == to_block
    then or_block s from_block (bit_and from_mask to_mask)
    else if ltb to_block (length s)
    then or_block filled to_block to_mask
    else filled

-- The method `AddRange`; a zero or empty range panics.
pub add_inclusive_range : PortSet → ℕ → ℕ → Option PortSet
add_inclusive_range s from to =
    if from == 0 then none else if leb to from then none else some (add_range s from (to + 1))

-- The errors of `Parse`. `stuck` is no Go value: the loop ran out of fuel.
pub data ParseError : Type 0 where
  invalid_port zero_port invalid_from zero_from invalid_to empty_range stuck : ParseError

-- One round's element: the error, if any, and the set after it.
unfoldable pub parse_element : PortSet → List ℕ → Option ParseError × PortSet
parse_element s text = elim (cut b'-' text) [
  | none ↦ elim (parse_uint (2 ^ 16) text) [
    | none ↦ (some invalid_port, s)
    | some port ↦ if port == 0 then (some zero_port, s) else (none, add_port s port)
  ]
  | some (from_text, to_text) ↦ elim (parse_uint (2 ^ 16) from_text) [
    | none ↦ (some invalid_from, s)
    | some from ↦ if from == 0 then (some zero_from, s) else elim (parse_uint (2 ^ 16) to_text) [
      | none ↦ (some invalid_to, s)
      | some to ↦ if leb to from then (some empty_range, s) else (none, add_range s from (to + 1))
    ]
  ]
]

-- `portRangeString` and what is left of `portSetString` after a round.
unfoldable pub next_element : List ℕ → List ℕ × List ℕ
next_element text = elim (cut b',' text) [ none ↦ (text, []) | some (a, b) ↦ (a, b) ]

unfoldable pub parse_loop : ℕ → PortSet → List ℕ → Option ParseError × PortSet
unfolding parse_element next_element
parse_loop fuel s [] = (none, s)
parse_loop zero s (c ∷ cs) = (some stuck, s)
parse_loop (suc fuel) s (c ∷ cs) =
    let (text, rest) = next_element (c ∷ cs) in
    let (e, s') = parse_element s text in
    elim e [ some e' ↦ (some e', s') | none ↦ parse_loop fuel s' rest ]

-- `Parse`: each round takes a byte at least, so as many rounds as bytes are enough.
unfoldable pub parse : PortSet → List ℕ → Option ParseError × PortSet
unfolding parse_loop
parse s text = parse_loop (length text) s text

-- `PortRange`
pub record PortRange : Type 0 where
  pub from : ℕ
  pub to : ℕ

-- The method `PortRange.Contains`.
unfoldable pub range_contains : PortRange → ℕ → Bool
range_contains r port = if leb r.from port then leb port r.to else false

-- The loop of `PortRangeSet.Contains`; the fuel is one more than `j - i`.
pub search : ℕ → List PortRange → ℕ → ℕ → ℕ → Bool
search zero ranges port i j = false
search (suc fuel) ranges port i j =
    let h = (i + j) / 2 in
    let r = get_or ranges h (record { from = 0; to = 0 }) in
    let right = search fuel ranges port (h + 1) j in
    let left = search fuel ranges port i h in
    if ltb i j
    then if ltb r.to port then right else if ltb port r.from then left else true
    else false

-- `PortRangeSet.Contains`
pub set_contains : List PortRange → ℕ → Bool
unfolding search
set_contains ranges port = search (length ranges + 1) ranges port 0 (length ranges)
