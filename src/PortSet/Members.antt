-- ===== src/PortSet/Members.antt =====
-- The members of a port set, and what `Contains`, `Add` and `AddRange` do to them.
use shadowsocks.Base.{
  ℕ, zero, suc, ◌+◌, ◌-◌, ◌/◌, ◌%◌, ◌^◌, ◌≤◌, ◌<◌, ◌≡◌, refl, ◌∙◌, Bool, ◌||◌, ◌&&◌, none, some,
  arith, bit_and, bit_or, ltb, leb, ◌==◌, ==_iff, ne→==, if◌then◌else◌, length, get_or, set,
  length-set, lt→ltb, le→ltb, inl, inr, Bool-cases,
}
use shadowsocks.Base.Bits.{
  test_bit, test_bit-or, test_bit-and, test_bit-pow, shl, shl-one, complement, test_bit-shl_ones,
  test_bit-low_ones, test_bit_ones,
}
use shadowsocks.Base.Blocks.{bit_at, bit_at_mask, bit_at-set}
use native.Mathlib.Decide.{ℕ_discrete, dec_lt}
use shadowsocks.PortSet.{PortSet, contains, or_block, add_port, fill_blocks, add_range}

abbrev pub member : PortSet → ℕ → Bool
member s p = bit_at s p

abbrev pub IsPorts : PortSet → Type 0
IsPorts s = length s ≡ 1024

-- `Contains` panics at port 0 and else answers for the member.
pub contains_lem :
    (s : PortSet) (p : ℕ) → contains s p ≡ (if p == 0 then none else some (member s p))
unfolding contains
contains_lem s p = rw (bit_at_mask s p)

-- A mask put into block b adds its bits there.
member-or_block :
    (s : PortSet) (b mask p : ℕ)
    → b < length s
    → member (or_block s b mask) p
      ≡ (if b == p / 64 then test_bit mask (p % 64) || member s p else member s p)
member-or_block s b mask p h =
    rw (bit_at-set s b (bit_or (get_or s b 0) mask) p h) (elim (ℕ_discrete b (p / 64)) [
      | yes e ↦ rw ((==_iff _ _).1 e, test_bit-or (get_or s b 0) mask (p % 64), e) (ground arith)
      | no n ↦ rw (ne→== _ _ n) refl
    ])

pub member-add_port :
    (s : PortSet) (p q : ℕ) → p / 64 < length s → member (add_port s p) q ≡ (p == q || member s q)
unfolding add_port
member-add_port s p q h =
    rw
      (
        member-or_block s (p / 64) (shl 1 (p % 64)) q h,
        shl-one (p % 64) (omega arith),
        test_bit-pow (p % 64) (q % 64),
      )
      (ground arith)

member-fill_blocks :
    (n i : ℕ) (s : PortSet) (p : ℕ)
    → i + n ≤ length s
    → member (fill_blocks n i s) p ≡ ((leb i (p / 64) && ltb (p / 64) (i + n)) || member s p)
unfolding fill_blocks
member-fill_blocks zero i s p h = ground arith
member-fill_blocks (suc n) i s p h =
    member-fill_blocks n (i + 1) (set s i (2 ^ 64 - 1)) p
      (omega (arith, length-set s i (2 ^ 64 - 1)))
    ∙ rw (bit_at-set s i (2 ^ 64 - 1) p (omega arith), test_bit_ones 64 (p % 64)) (ground arith)

length-fill_blocks : (n i : ℕ) (s : PortSet) → length (fill_blocks n i s) ≡ length s
unfolding fill_blocks
length-fill_blocks zero i s = refl
length-fill_blocks (suc n) i s = length-fill_blocks n (i + 1) _ ∙ length-set s i (2 ^ 64 - 1)

pub length-add_port : (s : PortSet) (p : ℕ) → length (add_port s p) ≡ length s
unfolding add_port
length-add_port s p = length-set s _ _

-- The first block of a range and the whole blocks behind it, which `addRange` fills first.
abbrev filled : PortSet → ℕ → ℕ → PortSet
filled s a b =
    fill_blocks (b / 64 - (a / 64 + 1)) (a / 64 + 1)
      (or_block s (a / 64) (shl (2 ^ 64 - 1) (a % 64)))

length-filled : (s : PortSet) (a b : ℕ) → length (filled s a b) ≡ length s
length-filled s a b = length-fill_blocks _ _ _ ∙ length-set s (a / 64) _

pub length-add_range : (s : PortSet) (a b : ℕ) → length (add_range s a b) ≡ length s
unfolding add_range
length-add_range s a b = elim (Bool-cases (a / 64 == b / 64)) [
  | inl e ↦ rw e (length-set s _ _)
  | inr n ↦ rw n (elim (Bool-cases (ltb (b / 64) (length s))) [
    | inl l ↦ rw l (length-set (filled s a b) (b / 64) _ ∙ length-filled s a b)
    | inr g ↦ rw g (length-filled s a b)
  ])
]

-- A range inside one block.
one_block :
    (s : PortSet) (a b p : ℕ)
    → a < b
    → a / 64 ≡ b / 64
    → a / 64 < length s
    → member
        (or_block s
          (a / 64)
          (bit_and (shl (2 ^ 64 - 1) (a % 64)) (complement (shl (2 ^ 64 - 1) (b % 64)))))
        p
      ≡ ((leb a p && ltb p b) || member s p)
one_block s a b p h e l =
    rw
      (
        member-or_block s (a / 64)
            (bit_and (shl (2 ^ 64 - 1) (a % 64)) (complement (shl (2 ^ 64 - 1) (b % 64)))) p l,
        test_bit-and (shl (2 ^ 64 - 1) (a % 64)) (complement (shl (2 ^ 64 - 1) (b % 64))) (p % 64),
        test_bit-shl_ones (a % 64) (p % 64) (omega arith) (omega arith),
        test_bit-low_ones (b % 64) (p % 64) (omega arith),
      )
      (ground arith)

-- The first block of a longer range and the whole blocks behind it.
leading_blocks :
    (s : PortSet) (a b p : ℕ)
    → a / 64 < b / 64
    → b / 64 ≤ length s
    → member (filled s a b) p ≡ ((leb a p && ltb (p / 64) (b / 64)) || member s p)
leading_blocks s a b p h l =
    let mask : ℕ = shl (2 ^ 64 - 1) (a % 64) in
    rw
      (
        member-fill_blocks (b / 64 - (a / 64 + 1)) (a / 64 + 1) (or_block s (a / 64) mask) p
            (omega (arith, length-set s (a / 64) (bit_or (get_or s (a / 64) 0) mask))),
        member-or_block s (a / 64) mask p (omega arith),
        test_bit-shl_ones (a % 64) (p % 64) (omega arith) (omega arith),
      )
      (ground arith)

-- `addRange` adds the ports from the first to before the last, and no others.
pub member-add_range :
    (s : PortSet) (a b p : ℕ)
    → IsPorts s
    → a < b
    → b ≤ 2 ^ 16
    → p < 2 ^ 16
    → member (add_range s a b) p ≡ ((leb a p && ltb p b) || member s p)
unfolding add_range
member-add_range s a b p v h l q = elim (ℕ_discrete (a / 64) (b / 64)) [
  | yes e ↦ rw ((==_iff _ _).1 e) (one_block s a b p h e (omega (arith, v)))
  | no n ↦
      let lead : member (filled s a b) p ≡ ((leb a p && ltb (p / 64) (b / 64)) || member s p) =
        leading_blocks s a b p (omega arith) (omega (arith, v)) in
      let to_mask : ℕ = complement (shl (2 ^ 64 - 1) (b % 64)) in
      rw (ne→== _ _ n) (elim (dec_lt (b / 64) (length s)) [
        | yes inside ↦
            rw
              (
                lt→ltb (b / 64) (length s) inside,
                member-or_block (filled s a b) (b / 64) to_mask p
                    (omega (arith, length-filled s a b)),
                test_bit-low_ones (b % 64) (p % 64) (omega arith),
                lead,
              )
              (ground arith)
        | no outside ↦ rw (le→ltb (b / 64) (length s) (omega arith), lead) (ground (arith, v))
      ])
]
