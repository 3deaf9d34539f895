-- ===== src/Router/First.antt =====
-- Loops that end at the first element that decides.
use shadowsocks.Base.{
  ◌≡◌, ◌≢◌, refl, sym, ap, subst, ◌∙◌, ◌↔◌, ◌⊎◌, inl, inr, List, [], ◌∷◌, ◌++◌, append-nil, Option,
  none, some, Option-cases, All,
}

-- The element of a list that decides: those before it pass, and it gives the outcome.
pub record Decides {A : Type 0} (passes : A → Type 0) (gives : A → Type 0) (xs : List A)
    : Type 0 where
  pub before : List A
  pub here : A
  pub after : List A
  pub split : xs ≡ before ++ (here ∷ after)
  pub passed : All passes before
  pub given : gives here

later :
    {A : Type 0} {P Q : A → Type 0} {xs : List A} (x : A)
    → P x
    → Decides P Q xs
    → Decides P Q (x ∷ xs)
later x p d = record {
  before = x ∷ d.before;
  here = d.here;
  after = d.after;
  split = ap (λ t. x ∷ t) d.split;
  passed = (p, d.passed);
  given = d.given;
}

at_once : {A : Type 0} {P Q : A → Type 0} {xs : List A} (x : A) → Q x → Decides P Q (x ∷ xs)
at_once x q = record { before = []; here = x; after = _; split = refl; passed = tt; given = q }

-- The first element on which a step ends.
unfoldable pub first : {A B : Type 0} → (A → Option B) → B → List A → B
first step end [] = end
first step end (x ∷ xs) = let rest = first step end xs in elim (step x) [ none ↦ rest | some b ↦ b ]

module _ {A B : Type 0} (step : A → Option B) (end : B) where
  first-none : (x : A) (xs : List A) → step x ≡ none → first step end (x ∷ xs) ≡ first step end xs
  unfolding first
  first-none x xs e = rw (e, first) refl

  first-some : (x : A) (xs : List A) (b : B) → step x ≡ some b → first step end (x ∷ xs) ≡ b
  unfolding first
  first-some x xs b e = rw (e, first) refl

  abbrev DecidesOf : List A → B → Type 0
  DecidesOf xs o = Decides (λ x. step x ≡ none) (λ x. step x ≡ some o) xs

  first_decided :
      (xs : List A)
      → All (λ x. step x ≡ none) xs
        ⊎ Decides (λ x. step x ≡ none) (λ x. step x ≡ some (first step end xs)) xs
  unfolding first
  first_decided [] = inl tt
  first_decided (x ∷ xs) = elim (Option-cases (step x)) [
    | inl n ↦ elim (first_decided xs) [
      | inl all ↦ inl (n, all)
      | inr d ↦ inr (subst (DecidesOf (x ∷ xs)) (sym (first-none x xs n)) (later x n d))
    ]
    | inr (b, e) ↦ inr (subst (DecidesOf (x ∷ xs)) (sym (first-some x xs b e)) (at_once x e))
  ]

  first-passed :
      (before xs : List A)
      → All (λ x. step x ≡ none) before
      → first step end (before ++ xs) ≡ first step end xs
  unfolding first
  first-passed [] xs h = refl
  first-passed (x ∷ before) xs (n, h) = first-none x (before ++ xs) n ∙ first-passed before xs h

  first-Decides :
      (b : B) (xs : List A)
      → Decides (λ x. step x ≡ none) (λ x. step x ≡ some b) xs
      → first step end xs ≡ b
  unfolding first
  first-Decides b xs d =
      ap (first step end) d.split
      ∙ first-passed d.before (d.here ∷ d.after) d.passed
      ∙ first-some d.here d.after b d.given

  first-All : (xs : List A) → All (λ x. step x ≡ none) xs → first step end xs ≡ end
  first-All xs all =
      ap (first step end) (sym (append-nil xs)) ∙ first-passed xs [] all ∙ unfold first in refl

  -- The loop gives an outcome when an element decides for it, or when all pass and it is the end.
  pub first_cases :
      (b : B) (xs : List A)
      → (first step end xs ≡ b) ↔ (
          (All (λ x. step x ≡ none) xs × (b ≡ end))
          ⊎ Decides (λ x. step x ≡ none) (λ x. step x ≡ some b) xs)
  first_cases b xs = (
    λ e. elim (first_decided xs) [
      | inl all ↦ inl (all, sym e ∙ first-All xs all)
      | inr d ↦ inr (subst (DecidesOf xs) e d)
    ],
    λ h. elim h [ inl (all, e) ↦ first-All xs all ∙ sym e | inr d ↦ first-Decides b xs d ],
  )

  pub first_iff :
      (b : B) (xs : List A)
      → b ≢ end
      → (first step end xs ≡ b) ↔ Decides (λ x. step x ≡ none) (λ x. step x ≡ some b) xs
  first_iff b xs ne = (
    λ e. elim ((first_cases b xs).0 e) [ inl (all, b_end) ↦ absurd (ne b_end) | inr d ↦ d ],
    first-Decides b xs,
  )

pub All-map :
    {A : Type 0} {P Q : A → Type 0} → ((x : A) → P x → Q x) → (xs : List A) → All P xs → All Q xs
All-map f [] h = tt
All-map f (x ∷ xs) (p, h) = (f x p, All-map f xs h)

pub Decides-map :
    {A : Type 0} {P Q P' Q' : A → Type 0} {xs : List A}
    → ((x : A) → P x → P' x)
    → ((x : A) → Q x → Q' x)
    → Decides P Q xs
    → Decides P' Q' xs
Decides-map f g d = record {
  before = d.before;
  here = d.here;
  after = d.after;
  split = d.split;
  passed = All-map f d.before d.passed;
  given = g d.here d.given;
}
