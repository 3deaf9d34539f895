-- ===== src/PortSet/Single.antt =====
-- A set with one port, by its `Count`.
use native.Mathlib.Decide.{ℕ_discrete}
use shadowsocks.Base.{
  ℕ, zero, suc, ◌+◌, ◌-◌, ◌*◌, ◌^◌, ◌≤◌, ◌<◌, ◌≡◌, sym, ap, ◌∙◌, Bool, true, arith, ◌==◌, length,
  Bool-cases, inl, inr, All, ne→==, ==_iff,
}
use shadowsocks.Base.Blocks.{count_from, count_from-add, count_blocks_lem}
use shadowsocks.PortSet.{PortSet, count, first}
use shadowsocks.PortSet.Members.{member, IsPorts}
use shadowsocks.PortSet.First.{first-IsLeast}

module _ (p : ℕ → Bool) where
  count_from_first : (m n : ℕ) → p m ≡ true → 1 ≤ n → 1 ≤ count_from p m n
  unfolding count_from
  count_from_first m zero e h = absurd (omega (arith, h))
  count_from_first m (suc n) e h = rw e (omega arith)

  count_from_member : (i m n : ℕ) → i ≤ m → m < i + n → p m ≡ true → 1 ≤ count_from p i n
  count_from_member i m n l h e =
      let split : count_from p i n ≡ count_from p i (m - i) + count_from p m (n - (m - i)) =
        ap (count_from p i) {x = n} {y = m - i + (n - (m - i))} (omega arith)
        ∙ count_from-add p i (m - i) (n - (m - i))
        ∙ ap (λ k. count_from p i (m - i) + count_from p k (n - (m - i))) {x = i + (m - i)} {y = m}
            (omega arith) in
      omega (arith, split, count_from_first m (n - (m - i)) e (omega arith))

  count_from_two : (a b n : ℕ) → a < b → b < n → p a ≡ true → p b ≡ true → 2 ≤ count_from p 0 n
  count_from_two a b n l h e f =
      let split : count_from p 0 n ≡ count_from p 0 (suc a) + count_from p (suc a) (n - suc a) =
        ap (count_from p 0) {x = n} {y = suc a + (n - suc a)} (omega arith)
        ∙ count_from-add p 0 (suc a) (n - suc a)
        ∙ ap (λ k. count_from p 0 (suc a) + count_from p k (n - suc a)) {x = 0 + suc a} {y = suc a}
            (omega arith) in
      omega (
        arith,
        split,
        count_from_member 0 a (suc a) (omega arith) (omega arith) e,
        count_from_member (suc a) b (n - suc a) (omega (arith, l)) (omega (arith, l, h)) f,
      )

  count_from_some :
      (i n : ℕ) → 1 ≤ count_from p i n → (k : ℕ) × (i ≤ k) × (k < i + n) × (p k ≡ true)
  unfolding count_from
  count_from_some i zero h = absurd (omega (arith, h))
  count_from_some i (suc n) h = elim (Bool-cases (p i)) [
    | inl e ↦ (i, omega arith, omega arith, e)
    | inr e ↦
        let (k, l, u, f) = count_from_some (suc i) n (ground (arith, e, h)) in
        (k, omega (arith, l), omega (arith, u), f)
  ]

-- In a set of one port, `First` is that port.
pub first-single :
    (s : PortSet) (port : ℕ)
    → IsPorts s
    → All (λ w. w < 2 ^ 64) s
    → port < 2 ^ 16
    → count s ≡ 1
    → (first s == port) ≡ member s port
unfolding count
first-single s port v words h one =
    let all : count_from (member s) 0 65536 ≡ 1 =
      ap (count_from (member s) 0) {x = 65536} {y = length s * 64} (omega (arith, v))
      ∙ sym (count_blocks_lem s)
      ∙ one in
    let (k, _, u, e) = count_from_some (member s) 0 65536 (omega (arith, all)) in
    let (holds, least) = first-IsLeast s k v words e in
    let f : ℕ = first s in
    elim (ℕ_discrete f port) [
      | yes same ↦ (==_iff f port).1 same ∙ sym (ap (member s) (sym same) ∙ holds)
      | no other ↦ ne→== f port other ∙ elim (Bool-cases (member s port)) [
        | inr no_port ↦ sym no_port
        | inl is_port ↦ absurd (
            omega (
              arith,
              all,
              other,
              least port is_port,
              count_from_two (member s) f port 65536 (omega (arith, other, least port is_port))
                  (omega (arith, h)) holds is_port,
            ))
      ]
    ]
