-- ===== src/BitSet/Laws.antt =====
-- What `IsSet`, `Set`, `Unset` and `Flip` do to the members.
use shadowsocks.Base.{
  ℕ, ◌+◌, ◌-◌, ◌/◌, ◌%◌, ◌^◌, ◌≤◌, ◌<◌, ◌≡◌, refl, ap, ◌∙◌, Bool, true, false, not, none, some,
  Option, arith, bit_and, bit_or, bit_xor, leb, ◌==◌, ==_iff, ne→==, if◌then◌else◌, length, get_or,
  length-set, length-replicate, get_or-replicate, get_or-set_self, get_or-set_ne, lt→leb, le→leb,
}
use shadowsocks.Base.Bits.{
  test_bit, test_bit-or, test_bit-and, test_bit-xor, test_bit-pow, test_bit_complement, shl-one,
  complement, or_bound, and_bound, xor_bound, pow_lt,
}
use shadowsocks.Base.Blocks.{bit_at, bit_at_mask, bit_at-set, bit_at-replicate}
use native.Mathlib.Decide.{dec_le, ℕ_discrete}
use shadowsocks.BitSet.{BitSet, new_bit_set, check_index, is_set, update, set_bit, unset, flip}

-- The members: bit i of the blocks.
abbrev pub member : BitSet → ℕ → Bool
member s i = bit_at s.blocks i

-- The blocks are those of the capacity, each is a 64-bit word, and no bit past the capacity is set.
pub record IsValid (s : BitSet) : Type 0 where
  pub blocks_length : length s.blocks ≡ (s.capacity + 63) / 64
  pub words : (b : ℕ) → get_or s.blocks b 0 < 2 ^ 64
  pub clean : (i : ℕ) → s.capacity ≤ i → member s i ≡ false

pub is_set_lem :
    (s : BitSet) (i : ℕ) → is_set s i ≡ (if leb s.capacity i then none else some (member s i))
unfolding is_set check_index
is_set_lem s i = rw (bit_at_mask s.blocks i)

-- What an operation on a word does to its bits: h to bit i, nothing to the others.
record Acts (g : ℕ → ℕ → ℕ) (h : Bool → Bool) : Type 0 where
  bit :
      (w i k : ℕ)
      → w < 2 ^ 64
      → i < 64
      → k < 64
      → test_bit (g w (2 ^ i)) k ≡ (if i == k then h (test_bit w k) else test_bit w k)
  bound : (w i : ℕ) → w < 2 ^ 64 → i < 64 → g w (2 ^ i) < 2 ^ 64

module _ {g : ℕ → ℕ → ℕ} {h : Bool → Bool} (a : Acts g h) {s : BitSet} (v : IsValid s) (i : ℕ)
    (inside : i < s.capacity) where
  member-update :
      (j : ℕ) → member (update g s i) j ≡ (if i == j then h (member s j) else member s j)
  unfolding update
  member-update j =
      let w : ℕ = get_or s.blocks (i / 64) 0 in
      rw
        (
          shl-one (i % 64) (omega arith),
          bit_at-set s.blocks (i / 64) (g w (2 ^ (i % 64))) j (omega (arith, v.blocks_length)),
        )
        (elim (ℕ_discrete (i / 64) (j / 64)) [
          | yes e ↦
              rw
                (
                  (==_iff _ _).1 e,
                  a.bit w (i % 64) (j % 64) (v.words (i / 64)) (omega arith) (omega arith),
                  e,
                )
                (ground arith)
          | no n ↦ rw (ne→== _ _ n, ne→== i j (λ q. n (ap (λ x. x / 64) q))) refl
        ])

  update_words : (b : ℕ) → get_or (update g s i).blocks b 0 < 2 ^ 64
  unfolding update
  update_words b =
      let w : ℕ = get_or s.blocks (i / 64) 0 in
      rw (shl-one (i % 64) (omega arith)) (elim (ℕ_discrete (i / 64) b) [
        | yes e ↦
            rw
              (
                ← e,
                get_or-set_self s.blocks (i / 64) (g w (2 ^ (i % 64))) 0
                    (omega (arith, v.blocks_length)),
              )
              (a.bound w (i % 64) (v.words (i / 64)) (omega arith))
        | no n ↦ rw (get_or-set_ne s.blocks (i / 64) b (g w (2 ^ (i % 64))) 0 n) (v.words b)
      ])

  capacity-update : (update g s i).capacity ≡ s.capacity
  unfolding update
  capacity-update = refl

  update-IsValid : IsValid (update g s i)
  update-IsValid = record {
    blocks_length = unfold update in (length-set s.blocks _ _ ∙ v.blocks_length);
    words = update_words;
    clean = λ j l.
        member-update j
        ∙ rw (ne→== i j (omega (arith, capacity-update)))
            (v.clean j (omega (arith, capacity-update)));
  }

or-Acts : Acts bit_or (λ b. true)
or-Acts = record {
  bit = λ w i k p q r. ground (arith, test_bit-or w (2 ^ i) k, test_bit-pow i k);
  bound = λ w i p q. or_bound 64 w (2 ^ i) p (pow_lt i q);
}

xor-Acts : Acts bit_xor not
xor-Acts = record {
  bit = λ w i k p q r. ground (arith, test_bit-xor w (2 ^ i) k, test_bit-pow i k);
  bound = λ w i p q. xor_bound 64 w (2 ^ i) p (pow_lt i q);
}

and_not-Acts : Acts (λ w m. bit_and w (complement m)) (λ b. false)
and_not-Acts = record {
  bit = λ w i k p q r. ground (
    arith,
    test_bit-and w (complement (2 ^ i)) k,
    test_bit_complement 64 (2 ^ i) k (pow_lt i q) r,
    test_bit-pow i k,
  );
  bound = λ w i p q. and_bound 64 w (complement (2 ^ i)) p;
}

-- What a change of one index by h may come to: a panic, which means an index out of range; or a
-- valid set of the same capacity in which that index is h of what it was, and no other has changed.
abbrev pub Changed : (Bool → Bool) → BitSet → ℕ → Option BitSet → Type 0
Changed h s i none = s.capacity ≤ i
Changed h s i (some t) =
    (i < s.capacity)
    × IsValid t
    × (t.capacity ≡ s.capacity)
    × ((j : ℕ) → member t j ≡ (if i == j then h (member s j) else member s j))

module _ {g : ℕ → ℕ → ℕ} {h : Bool → Bool} (a : Acts g h) {s : BitSet} (v : IsValid s) (i : ℕ) where
  update-Changed : Changed h s i (check_index s i (update g s i))
  unfolding check_index
  update-Changed = elim (dec_le s.capacity i) [
    | yes out ↦ rw (le→leb s.capacity i out) out
    | no in_range ↦
        let inside : i < s.capacity = omega arith in
        rw (lt→leb s.capacity i inside) (
          inside,
          update-IsValid a v i inside,
          capacity-update a v i inside,
          member-update a v i inside,
        )
  ]

-- On a valid set `Set` panics only out of range; else it puts the index in, and changes no other
-- member, nor the capacity, nor validity.
pub set_bit-Changed : (s : BitSet) (i : ℕ) → IsValid s → Changed (λ b. true) s i (set_bit s i)
unfolding set_bit
set_bit-Changed s i v = update-Changed or-Acts v i

-- On a valid set `Unset` panics only out of range; else it takes the index out, and changes no other
-- member, nor the capacity, nor validity.
pub unset-Changed : (s : BitSet) (i : ℕ) → IsValid s → Changed (λ b. false) s i (unset s i)
unfolding unset
unset-Changed s i v = update-Changed and_not-Acts v i

-- On a valid set `Flip` panics only out of range; else it negates the index, and changes no other
-- member, nor the capacity, nor validity.
pub flip-Changed : (s : BitSet) (i : ℕ) → IsValid s → Changed not s i (flip s i)
unfolding flip
flip-Changed s i v = update-Changed xor-Acts v i

-- A new set is valid and empty.
pub new_bit_set-IsValid :
    (n : ℕ)
    → n + 63 < 2 ^ 64
    → IsValid (new_bit_set n) × ((i : ℕ) → member (new_bit_set n) i ≡ false)
unfolding new_bit_set
new_bit_set-IsValid n h = (
  record {
    blocks_length = length-replicate ((n + 64 - 1) % 2 ^ 64 / 64) 0 ∙ omega arith;
    words = λ b. rw (get_or-replicate {A = ℕ} ((n + 64 - 1) % 2 ^ 64 / 64) b 0) (omega arith);
    clean = λ i l. bit_at-replicate _ i;
  },
  λ i. bit_at-replicate _ i,
)
