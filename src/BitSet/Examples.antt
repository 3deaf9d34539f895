-- ===== src/BitSet/Examples.antt =====
-- The bit set at concrete indices.
use shadowsocks.Base.{◌≡◌, refl, true, none, arith}
use shadowsocks.Base.Blocks.{count_blocks, count_from}
use shadowsocks.BitSet.{BitSet, new_bit_set, count, set_bit, set_all}
use shadowsocks.BitSet.Laws.{member, IsValid, Changed, set_bit-Changed, new_bit_set-IsValid}
use shadowsocks.BitSet.Count.{count-eq-count_from}

abbrev empty : BitSet
empty = new_bit_set 70

empty-IsValid : IsValid empty
empty-IsValid = (new_bit_set-IsValid 70 (omega arith)).0

count-full : count (set_all empty) ≡ 70
unfolding count set_all new_bit_set count_blocks
count-full = refl

set_out_of_range : set_bit empty 70 ≡ none
unfolding set_bit new_bit_set
set_out_of_range = refl

set_bit-Changed_example : Changed (λ b. true) empty 65 (set_bit empty 65)
set_bit-Changed_example = set_bit-Changed empty 65 empty-IsValid

count-eq-count_from_example : count empty ≡ count_from (member empty) 0 empty.capacity
count-eq-count_from_example = count-eq-count_from empty empty-IsValid
