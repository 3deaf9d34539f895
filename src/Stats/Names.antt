-- ===== src/Stats/Names.antt =====
-- The order of names: what `cmp.Compare` says of strings, and lists without a repeated name.
use shadowsocks.Base.{
  ℕ, ◌<◌, ◌≡◌, ◌≢◌, refl, sym, ap, ap₂, subst, ltb→lt, ==_iff, ◌⊎◌, ◌∙◌, true, false, List, [], ◌∷◌,
  ◌++◌, arith, inl, inr, ltb, ◌==◌, Bool-cases,
}
use shadowsocks.Stats.{name_less}

-- The first name stands before the second in a dictionary: it is a proper prefix, or at the first place
-- where they differ its byte is smaller.
pub data Before (xs ys : List ℕ) : Type 0 where
  proper_prefix : (y : ℕ) (rest : List ℕ) → ys ≡ xs ++ (y ∷ rest) → Before xs ys
  smaller_byte :
      (common : List ℕ) (x y : ℕ) (xs' ys' : List ℕ)
      → xs ≡ common ++ (x ∷ xs')
      → ys ≡ common ++ (y ∷ ys')
      → x < y
      → Before xs ys

Before-cons : (a : ℕ) (xs ys : List ℕ) → Before xs ys → Before (a ∷ xs) (a ∷ ys)
Before-cons a xs ys (proper_prefix y rest e) = proper_prefix y rest (ap (λ t. a ∷ t) e)
Before-cons a xs ys (smaller_byte common x y xs' ys' ex ey h) =
    smaller_byte (a ∷ common) x y xs' ys' (ap (λ t. a ∷ t) ex) (ap (λ t. a ∷ t) ey) h

-- The first bytes decide, or they are equal.
name_less-cases :
    (x y : ℕ) (xs ys : List ℕ)
    → ((x < y) × (name_less (x ∷ xs) (y ∷ ys) ≡ true))
      ⊎ (((y < x) × (name_less (x ∷ xs) (y ∷ ys) ≡ false))
          ⊎ ((x ≡ y) × (name_less (x ∷ xs) (y ∷ ys) ≡ name_less xs ys)))
unfolding name_less
name_less-cases x y xs ys = elim (Bool-cases (ltb x y)) [
  | inl less ↦ inl (ltb→lt x y less, rw less refl)
  | inr more ↦ elim (Bool-cases (x == y)) [
    | inl same ↦ inr (inr ((==_iff x y).0 same, rw (more, same) refl))
    | inr other ↦ inr (inl (ground arith, rw (more, other) refl))
  ]
]

pub Before-of_less : (xs ys : List ℕ) → name_less xs ys ≡ true → Before xs ys
unfolding name_less
Before-of_less [] [] h = cc
Before-of_less [] (y ∷ ys) h = proper_prefix y ys refl
Before-of_less (x ∷ xs) [] h = cc
Before-of_less (x ∷ xs) (y ∷ ys) h = elim (name_less-cases x y xs ys) [
  | inl (lt, _) ↦ smaller_byte [] x y xs ys refl refl lt
  | inr (inl (_, other)) ↦ cc (sym other ∙ h)
  | inr (inr (e, rest)) ↦
      subst (λ z. Before (x ∷ xs) (z ∷ ys)) e
        (Before-cons x xs ys (Before-of_less xs ys (sym rest ∙ h)))
]

pub Before-of_more : (xs ys : List ℕ) → name_less xs ys ≡ false → xs ≢ ys → Before ys xs
unfolding name_less
Before-of_more [] [] h n = absurd (n refl)
Before-of_more [] (y ∷ ys) h n = cc
Before-of_more (x ∷ xs) [] h n = proper_prefix x xs refl
Before-of_more (x ∷ xs) (y ∷ ys) h n = elim (name_less-cases x y xs ys) [
  | inl (_, less) ↦ cc (sym less ∙ h)
  | inr (inl (gt, _)) ↦ smaller_byte [] y x ys xs refl refl gt
  | inr (inr (e, rest)) ↦
      subst (λ z. Before (z ∷ ys) (x ∷ xs)) e
        (Before-cons x ys xs
          (Before-of_more xs ys (sym rest ∙ h) (λ q. n (ap₂ (λ a t. a ∷ t) e q))))
]
