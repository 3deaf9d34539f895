-- ===== src/PortSet/Examples.antt =====
-- The port set at concrete ports and texts.
use shadowsocks.Base.{
  ℕ, zero, suc, ◌≤◌, ◌<◌, ◌^◌, ◌≡◌, refl, true, ◌||◌, ◌&&◌, List, [], ◌∷◌, none, some, All, arith,
  ltb, leb, length-replicate, replicate, ap,
}
use shadowsocks.Base.{length}
use shadowsocks.Base.Text.{cut, parse_uint}
use shadowsocks.PortSet.RangeSet.{range_set, range_count, scan_blocks, scan_block, skip_zeros}
use shadowsocks.PortSet.{
  PortSet, PortRange, trailing_zeros, invalid_port, new_port_set, add_port, add_range, parse, first,
  contains, set_contains,
}
use shadowsocks.PortSet.Scans.{range_set-contains}
use shadowsocks.PortSet.Members.{member, IsPorts, member-add_range}
use shadowsocks.PortSet.First.{first-IsLeast}
use shadowsocks.PortSet.Ranges.{IsSorted, any_contains, set_contains-eq-any, nth}
use shadowsocks.PortSet.Text.{Element, one, span, in_elements, write, parse-write}

empty-IsPorts : IsPorts new_port_set
unfolding new_port_set
empty-IsPorts = length-replicate {A = ℕ} 1024 0

abbrev few : PortSet
few = 0 ∷ 6 ∷ []

first-few : first few ≡ 65
unfolding first
first-few = refl

parse-bad : (parse new_port_set (b'5' ∷ b'3' ∷ b',' ∷ b'x' ∷ [])).0 ≡ some invalid_port
unfolding parse cut parse_uint add_port new_port_set
parse-bad = refl

-- What stood before the error has been added.
parse_adds_before_error :
    contains (parse new_port_set (b'5' ∷ b'3' ∷ b',' ∷ b'x' ∷ [])).1 53 ≡ some true
unfolding parse cut parse_uint add_port new_port_set contains
parse_adds_before_error = refl

member-add_range_example :
    member (add_range new_port_set 60 200) 100
    ≡ ((leb 60 100 && ltb 100 200) || member new_port_set 100)
member-add_range_example =
    member-add_range new_port_set 60 200 100 empty-IsPorts (omega arith) (omega arith) (omega arith)

abbrev elements : List Element
elements = one 53 ∷ span 60 200 ∷ []

parse-write_example :
    ((parse new_port_set (write elements)).0 ≡ none)
    × (member (parse new_port_set (write elements)).1 100
        ≡ (in_elements elements 100 || member new_port_set 100))
parse-write_example =
    parse-write new_port_set elements 100 empty-IsPorts (omega arith) (omega arith)

abbrev ranges : List PortRange
ranges = record { from = 53; to = 53 } ∷ record { from = 60; to = 200 } ∷ []

ranges-IsSorted : IsSorted ranges
ranges-IsSorted = record { proper = proper'; apart = apart' }
  where
    proper' : (i : ℕ) → i < 2 → (nth ranges i).from ≤ (nth ranges i).to
    proper' zero h = omega arith
    proper' (suc zero) h = omega arith
    proper' (suc (suc i)) h = absurd (omega arith)

    apart' : (i j : ℕ) → i < j → j < 2 → (nth ranges i).to < (nth ranges j).from
    apart' i zero h l = absurd (omega arith)
    apart' zero (suc zero) h l = omega arith
    apart' (suc i) (suc zero) h l = absurd (omega arith)
    apart' i (suc (suc j)) h l = absurd (omega arith)

set_contains-eq-any_example : set_contains ranges 100 ≡ any_contains ranges 100
set_contains-eq-any_example = set_contains-eq-any ranges 100 ranges-IsSorted

abbrev one_port : PortSet
one_port = 2 ∷ replicate 1023 0

replicate-All : (n : ℕ) → All (λ w. w < 2 ^ 64) (replicate n 0)
replicate-All zero = tt
replicate-All (suc n) = (omega arith, replicate-All n)

first-IsLeast_example :
    (member one_port (first one_port) ≡ true)
    × ((q : ℕ) → member one_port q ≡ true → first one_port ≤ q)
first-IsLeast_example =
    first-IsLeast one_port 1 (ap suc (length-replicate {A = ℕ} 1023 0))
      (omega arith, replicate-All 1023) refl

-- Two ranges, one of them over the edge of a block.
two_ranges :
    range_set (14 ∷ 2 ^ 63 ∷ 3 ∷ [])
    ≡ (record { from = 1; to = 3 } ∷ record { from = 127; to = 129 } ∷ [])
unfolding range_set scan_blocks scan_block skip_zeros trailing_zeros
two_ranges = refl

abbrev many_ports : PortSet
many_ports = 14 ∷ 2 ^ 63 ∷ replicate 1022 0

range_set-contains_example :
    IsSorted (range_set many_ports)
    × (range_count many_ports ≡ length (range_set many_ports))
    × (contains many_ports 127 ≡ some (set_contains (range_set many_ports) 127))
range_set-contains_example =
    range_set-contains many_ports 127 (ap (λ n. suc (suc n)) (length-replicate {A = ℕ} 1022 0))
      (omega arith, (omega arith, replicate-All 1022)) (omega arith) (omega arith)
