-- ===== src/PortSet/Runs.antt =====
-- What the scan of `RangeSet` has found before a port.
use native.Mathlib.Decide.{dec_lt}
use shadowsocks.Base.{
  ℕ, zero, suc, ◌+◌, ◌-◌, ◌≤◌, ◌<◌, ◌≡◌, refl, sym, ap, ◌∙◌, subst, Bool, true, false, ◌||◌, List,
  [], ◌∷◌, ◌++◌, arith, leb, length, length-append, Bool-cases, inl, inr,
}
use shadowsocks.PortSet.{PortRange, range_contains}
use shadowsocks.PortSet.Ranges.{IsSorted, any_contains, any_contains_index, nth}
use shadowsocks.PortSet.RangeSet.{Scan}

-- What is found before p, of the ports for which m holds: whole ranges, and no open one.
pub record Closed (m : ℕ → Bool) (p : ℕ) (rs : List PortRange) : Type 0 where
  pub sorted : IsSorted rs
  pub below : (i : ℕ) → i < length rs → (nth rs i).to < p
  pub covers : (q : ℕ) → q < p → any_contains rs q ≡ m q

-- Or, besides, the beginning of an open range.
pub record Opened (m : ℕ → Bool) (p from : ℕ) (rs : List PortRange) : Type 0 where
  pub sorted : IsSorted rs
  pub below : (i : ℕ) → i < length rs → (nth rs i).to < from
  pub opened : from < p
  pub covers : (q : ℕ) → q < p → (any_contains rs q || leb from q) ≡ m q

abbrev pub FoundAs : (ℕ → Bool) → ℕ → Bool → ℕ → List PortRange → Type 0
FoundAs m p true from rs = Opened m p from rs
FoundAs m p false from rs = Closed m p rs

abbrev pub Found : (ℕ → Bool) → ℕ → Scan → Type 0
Found m p s = FoundAs m p s.in_range s.from s.ranges

nth-append_before :
    (rs : List PortRange) (r : PortRange) (i : ℕ)
    → i < length rs
    → nth (rs ++ (r ∷ [])) i ≡ nth rs i
nth-append_before [] r i h = absurd (omega (arith, h))
nth-append_before (x ∷ rs) r zero h = refl
nth-append_before (x ∷ rs) r (suc i) h = nth-append_before rs r i (omega (arith, h))

nth-append_at : (rs : List PortRange) (r : PortRange) → nth (rs ++ (r ∷ [])) (length rs) ≡ r
nth-append_at [] r = refl
nth-append_at (x ∷ rs) r = nth-append_at rs r

any_contains-append :
    (rs : List PortRange) (r : PortRange) (q : ℕ)
    → any_contains (rs ++ (r ∷ [])) q ≡ (any_contains rs q || range_contains r q)
unfolding any_contains
any_contains-append [] r q = ground (arith)
any_contains-append (x ∷ rs) r q = ground (arith, any_contains-append rs r q)

IsSorted-append :
    (rs : List PortRange) (r : PortRange)
    → IsSorted rs
    → r.from ≤ r.to
    → ((i : ℕ) → i < length rs → (nth rs i).to < r.from)
    → IsSorted (rs ++ (r ∷ []))
IsSorted-append rs r v h below =
    let len : length (rs ++ (r ∷ [])) ≡ length rs + 1 = length-append rs (r ∷ []) in
    record {
      proper = λ i l. elim (dec_lt i (length rs)) [
        | yes a ↦ rw (nth-append_before rs r i a) (v.proper i a)
        | no a ↦
            let e : length rs ≡ i = omega (arith, a, l, len) in
            subst (λ k. (nth (rs ++ (r ∷ [])) k).from ≤ (nth (rs ++ (r ∷ [])) k).to) e
              (rw (nth-append_at rs r) h)
      ];
      apart = λ i j l k. elim (dec_lt j (length rs)) [
        | yes a ↦
            rw (nth-append_before rs r i (omega (arith, l, a)), nth-append_before rs r j a)
              (v.apart i j l a)
        | no a ↦
            let e : length rs ≡ j = omega (arith, a, k, len) in
            rw (nth-append_before rs r i (omega (arith, l, e))) (
              subst (λ t. (nth rs i).to < (nth (rs ++ (r ∷ [])) t).from) e
                (rw (nth-append_at rs r) (below i (omega (arith, l, e)))))
      ];
    }

-- Ranges that end before a port do not contain it.
any_contains_beyond :
    (rs : List PortRange) (b q : ℕ)
    → ((i : ℕ) → i < length rs → (nth rs i).to < b)
    → b ≤ q
    → any_contains rs q ≡ false
unfolding range_contains
any_contains_beyond rs b q h l = elim (Bool-cases (any_contains rs q)) [
  | inl e ↦ let (k, lt, f) = any_contains_index rs q e in absurd (ground (arith, f, h k lt, l))
  | inr e ↦ e
]

run_at :
    (m : ℕ → Bool) (b : Bool) (p n q : ℕ)
    → ((j : ℕ) → j < n → m (p + j) ≡ b)
    → p ≤ q
    → q < p + n
    → m q ≡ b
run_at m b p n q h l k = ap m {x = q} {y = p + (q - p)} (omega arith) ∙ h (q - p) (omega arith)

module _ (m : ℕ → Bool) (p n : ℕ) where
  pub open_again :
      (from : ℕ) (rs : List PortRange)
      → Opened m p from rs
      → ((j : ℕ) → j < n → m (p + j) ≡ true)
      → Opened m (p + n) from rs
  open_again from rs f ones = record {
    sorted = f.sorted;
    below = f.below;
    opened = omega (arith, f.opened);
    covers = λ q l. elim (dec_lt q p) [
      | yes a ↦ f.covers q a
      | no a ↦ ground (arith, run_at m true p n q ones (omega (arith, a)) l, f.opened, a)
    ];
  }

  pub open_new :
      (rs : List PortRange)
      → Closed m p rs
      → 1 ≤ n
      → ((j : ℕ) → j < n → m (p + j) ≡ true)
      → Opened m (p + n) p rs
  open_new rs f pos ones = record {
    sorted = f.sorted;
    below = f.below;
    opened = omega (arith, pos);
    covers = λ q l. elim (dec_lt q p) [
      | yes a ↦ ground (arith, f.covers q a, a)
      | no a ↦ ground (arith, run_at m true p n q ones (omega (arith, a)) l, a)
    ];
  }

  pub Closed-past :
      (rs : List PortRange)
      → Closed m p rs
      → ((j : ℕ) → j < n → m (p + j) ≡ false)
      → Closed m (p + n) rs
  Closed-past rs f zeros = record {
    sorted = f.sorted;
    below = λ i l. omega (arith, f.below i l);
    covers = λ q l. elim (dec_lt q p) [
      | yes a ↦ f.covers q a
      | no a ↦
          any_contains_beyond rs p q f.below (omega (arith, a))
          ∙ sym (run_at m false p n q zeros (omega (arith, a)) l)
    ];
  }

  pub close_new :
      (from : ℕ) (rs : List PortRange)
      → Opened m p from rs
      → Closed m p (rs ++ (record { from = from; to = p - 1 } ∷ []))
  unfolding range_contains
  close_new from rs f =
      let r : PortRange = record { from = from; to = p - 1 } in
      record {
        sorted = IsSorted-append rs r f.sorted (omega (arith, f.opened)) f.below;
        below = λ i l. elim (dec_lt i (length rs)) [
          | yes a ↦ rw (nth-append_before rs r i a) (omega (arith, f.below i a, f.opened))
          | no a ↦
              let e : length rs ≡ i = omega (arith, a, l, length-append rs (r ∷ [])) in
              subst (λ k. (nth (rs ++ (r ∷ [])) k).to < p) e
                (rw (nth-append_at rs r) (omega (arith, f.opened)))
        ];
        covers = λ q l. any_contains-append rs r q ∙ ground (arith, f.covers q l, l);
      }
