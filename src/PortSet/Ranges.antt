-- ===== src/PortSet/Ranges.antt =====
-- The search by halves of `PortRangeSet.Contains` against a scan of all ranges.
use shadowsocks.Base.{
  ℕ, zero, suc, ◌+◌, ◌/◌, ◌≤◌, ◌<◌, ◌≡◌, refl, ◌||◌, Bool, true, false, List, [], ◌∷◌, arith,
  length, get_or, Bool-cases, inl, inr, Bool-ext,
}
use shadowsocks.PortSet.{PortRange, range_contains, search, set_contains}

abbrev pub no_range : PortRange
no_range = record { from = 0; to = 0 }

abbrev pub nth : List PortRange → ℕ → PortRange
nth rs i = get_or rs i no_range

-- The ranges are not empty, and each ends before the next begins.
pub record IsSorted (rs : List PortRange) : Type 0 where
  pub proper : (i : ℕ) → i < length rs → (nth rs i).from ≤ (nth rs i).to
  pub apart : (i j : ℕ) → i < j → j < length rs → (nth rs i).to < (nth rs j).from

-- Some range of the list contains the port.
unfoldable pub any_contains : List PortRange → ℕ → Bool
any_contains [] port = false
any_contains (r ∷ rs) port = range_contains r port || any_contains rs port

any_contains-nth :
    (rs : List PortRange) (port k : ℕ)
    → k < length rs
    → range_contains (nth rs k) port ≡ true
    → any_contains rs port ≡ true
unfolding any_contains
any_contains-nth [] port k h e = absurd (omega arith)
any_contains-nth (r ∷ rs) port zero h e = rw e refl
any_contains-nth (r ∷ rs) port (suc k) h e =
    ground (arith, any_contains-nth rs port k (omega arith) e)

pub any_contains_index :
    (rs : List PortRange) (port : ℕ)
    → any_contains rs port ≡ true
    → (k : ℕ) × (k < length rs) × (range_contains (nth rs k) port ≡ true)
unfolding any_contains
any_contains_index [] port e = cc
any_contains_index (r ∷ rs) port e = elim (Bool-cases (range_contains r port)) [
  | inl here ↦ (0, omega arith, here)
  | inr there ↦
      let (k, l, f) = any_contains_index rs port (ground (arith, there)) in
      (suc k, omega (arith, l), f)
]

module _ (rs : List PortRange) (port : ℕ) where
  search_sound :
      (fuel i j : ℕ) → j ≤ length rs → search fuel rs port i j ≡ true → any_contains rs port ≡ true
  unfolding search range_contains
  search_sound zero i j h e = cc
  search_sound (suc fuel) i j h e = ground (
    arith,
    search_sound fuel ((i + j) / 2 + 1) j,
    search_sound fuel i ((i + j) / 2),
    any_contains-nth rs port ((i + j) / 2),
  )

  search_complete :
      (fuel i j k : ℕ)
      → IsSorted rs
      → j ≤ length rs
      → i ≤ k
      → k < j
      → j < i + fuel
      → range_contains (nth rs k) port ≡ true
      → search fuel rs port i j ≡ true
  unfolding search range_contains
  search_complete zero i j k v h lo hi m e = absurd (omega arith)
  search_complete (suc fuel) i j k v h lo hi m e =
      let mid : ℕ = (i + j) / 2 in
      ground (
        arith,
        search_complete fuel (mid + 1) j k v,
        search_complete fuel i mid k v,
        v.apart mid k,
        v.apart k mid,
        v.proper mid,
        v.proper k,
      )

-- On sorted ranges the search by halves answers as a scan of all ranges does.
pub set_contains-eq-any :
    (rs : List PortRange) (port : ℕ) → IsSorted rs → set_contains rs port ≡ any_contains rs port
unfolding set_contains
set_contains-eq-any rs port v =
    Bool-ext _ _ (λ e. search_sound rs port (length rs + 1) 0 (length rs) (omega arith) e)
      (λ e.
        let (k, l, f) = any_contains_index rs port e in
        search_complete rs port (length rs + 1) 0 (length rs) k v (omega arith) (omega arith) l
          (omega arith) f)
