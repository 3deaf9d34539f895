-- ===== src/PortSet/First.antt =====
-- `First` and the least member.
use shadowsocks.Base.{
  ℕ, zero, suc, ◌+◌, ◌-◌, ◌*◌, ◌/◌, ◌%◌, ◌^◌, ◌≤◌, ◌<◌, ◌≡◌, refl, sym, ap, ◌∙◌, ◌≢◌, true, false,
  List, [], ◌∷◌, arith, ◌==◌, ne→==, length, All, Bool-cases, inl, inr,
}
use shadowsocks.Base.Bits.{test_bit, test_bit_zero}
use shadowsocks.Base.Blocks.{bit_at, bit_at_first, bit_at_next}
use native.Mathlib.Nat.{pow-suc}
use native.Mathlib.Decide.{ℕ_discrete, dec_lt}
use shadowsocks.PortSet.{PortSet, trailing_zeros, first_from, first}
use shadowsocks.PortSet.Members.{member, IsPorts}

-- `bits.TrailingZeros` of a word that is not 0 is its lowest bit.
pub record IsLowest (w k : ℕ) : Type 0 where
  pub holds : test_bit w k ≡ true
  pub least : (j : ℕ) → test_bit w j ≡ true → k ≤ j

least_double :
    (w k : ℕ)
    → IsLowest (w / 2) k
    → (w % 2 == 1) ≡ false
    → (j : ℕ) → test_bit w j ≡ true
    → suc k ≤ j
least_double w k low even zero e = cc
least_double w k low even (suc j) e = omega (arith, low.least j e)

pub trailing_zeros_lem :
    (n w : ℕ) → w < 2 ^ n → w ≢ 0 → (trailing_zeros n w < n) × IsLowest w (trailing_zeros n w)
unfolding trailing_zeros
trailing_zeros_lem zero w h p = absurd (omega arith)
trailing_zeros_lem (suc n) w h p = elim (Bool-cases (w % 2 == 1)) [
  | inl odd ↦ rw odd (omega arith, record { holds = odd; least = λ j e. omega arith })
  | inr even ↦
      let (lt, low) = trailing_zeros_lem n (w / 2) (omega (arith, pow-suc 2 n)) (ground arith) in
      rw even (
        omega (arith, lt),
        record { holds = low.holds; least = least_double w (trailing_zeros n (w / 2)) low even },
      )
]

bit_at_later : (w : ℕ) (bs : List ℕ) (q : ℕ) → 64 ≤ q → bit_at (w ∷ bs) q ≡ bit_at bs (q - 64)
bit_at_later w bs q h =
    let e : q ≡ 64 + (q - 64) = omega arith in ap (bit_at (w ∷ bs)) e ∙ bit_at_next w bs (q - 64)

-- What `First` must find: m is the least member.
record IsLeast (s : PortSet) (m : ℕ) : Type 0 where
  pub holds : member s m ≡ true
  pub least : (q : ℕ) → member s q ≡ true → m ≤ q

no_bit : (bs : List ℕ) (q : ℕ) → q < 64 → bit_at (0 ∷ bs) q ≡ true → ⊥
no_bit bs q h e = cc (bit_at_first 0 bs q h, test_bit_zero q)

IsLeast-skip : (bs : List ℕ) (m : ℕ) → IsLeast bs m → IsLeast (0 ∷ bs) (64 + m)
IsLeast-skip bs m l = record {
  holds = bit_at_next 0 bs m ∙ l.holds;
  least = λ q e. elim (dec_lt q 64) [
    | yes low ↦ absurd (no_bit bs q low e)
    | no high ↦ omega (arith, l.least (q - 64) (sym (bit_at_later 0 bs q (omega arith)) ∙ e))
  ];
}

IsLeast-here : (w k : ℕ) (bs : List ℕ) → k < 64 → IsLowest w k → IsLeast (w ∷ bs) k
IsLeast-here w k bs h low = record {
  holds = bit_at_first w bs k h ∙ low.holds;
  least = λ q e. elim (dec_lt q 64) [
    | yes l ↦ low.least q (sym (bit_at_first w bs q l) ∙ e)
    | no g ↦ omega arith
  ];
}

first_from_lem :
    (i : ℕ) (s : PortSet) (p : ℕ)
    → i + length s ≤ 1024
    → All (λ w. w < 2 ^ 64) s
    → member s p ≡ true
    → (m : ℕ) × (first_from i s ≡ i * 64 + m) × IsLeast s m
unfolding first_from
first_from_lem i [] p h v e = cc (test_bit_zero (p % 64))
first_from_lem i (w ∷ bs) p h v e = elim (ℕ_discrete w 0) [
  | yes z ↦
      let e' : bit_at (0 ∷ bs) p ≡ true = rw z at e in
      let high : 64 ≤ p = elim (dec_lt p 64) [
        | yes l ↦ absurd (no_bit bs p l e')
        | no g ↦ omega arith
      ] in
      let (m, found, l) =
        first_from_lem (i + 1) bs (p - 64) (omega arith) v.1
          (sym (bit_at_later 0 bs p high) ∙ e') in
      rw z (64 + m, found ∙ omega arith, IsLeast-skip bs m l)
  | no n ↦
      let (k, low) = trailing_zeros_lem 64 w v.0 n in
      rw (ne→== w 0 n)
        (trailing_zeros 64 w, omega arith, IsLeast-here w (trailing_zeros 64 w) bs k low)
]

first_from_none :
    (i : ℕ) (s : PortSet)
    → All (λ w. w < 2 ^ 64) s
    → ((p : ℕ) → member s p ≡ false)
    → first_from i s ≡ 0
unfolding first_from
first_from_none i [] v h = refl
first_from_none i (w ∷ bs) v h = elim (ℕ_discrete w 0) [
  | yes z ↦ rw z (first_from_none (i + 1) bs v.1 (λ p. sym (bit_at_next w bs p) ∙ h (64 + p)))
  | no n ↦
      let (k, low) = trailing_zeros_lem 64 w v.0 n in
      absurd (cc (low.holds, bit_at_first w bs (trailing_zeros 64 w) k, h (trailing_zeros 64 w)))
]

-- On a set with a member, `First` returns the least member.
pub first-IsLeast :
    (s : PortSet) (p : ℕ)
    → IsPorts s
    → All (λ w. w < 2 ^ 64) s
    → member s p ≡ true
    → (member s (first s) ≡ true) × ((q : ℕ) → member s q ≡ true → first s ≤ q)
unfolding first
first-IsLeast s p len v e =
    let (m, found, l) = first_from_lem 0 s p (omega (arith, len)) v e in
    let same : first_from 0 s ≡ m = found ∙ omega arith in rw same (l.holds, l.least)

-- On a set with no member, `First` returns 0.
pub first_none :
    (s : PortSet) → All (λ w. w < 2 ^ 64) s → ((p : ℕ) → member s p ≡ false) → first s ≡ 0
unfolding first
first_none s v h = first_from_none 0 s v h
