-- ===== src/DomainSet/Domains.antt =====
-- Domain rules: the linear matcher, the map matcher, and the choice that `AppendTo` makes.
use shadowsocks.Base.{
  ℕ, ◌≡◌, refl, ap, subst, ◌∙◌, Bool, true, false, ◌||◌, List, [], ◌∷◌, ◌++◌, arith, ltb, leb,
  length, Bool-cases, inl, inr, bytes_eq, bytes_eq_sound,
}
use shadowsocks.DomainSet.{
  Matcher, domain_linear, domain_map, contains, domain_map_insert, insert_each,
  domain_map_matcher_from_slice, domain_map_append_to, domain_linear_append_to, matches, set_match,
  max_linear_domains,
}

pub contains-duplicate :
    (rules : List (List ℕ)) (rule domain : List ℕ)
    → contains rules rule ≡ true
    → contains rules domain ≡ bytes_eq rule domain || contains rules domain
contains-duplicate rules rule domain h = elim (Bool-cases (bytes_eq rule domain)) [
  | inl same ↦ rw same (subst (λ d. contains rules d ≡ true) (bytes_eq_sound rule domain same) h)
  | inr other ↦ rw other refl
]

contains-domain_map_insert :
    (dmm : List (List ℕ)) (rule domain : List ℕ)
    → contains (domain_map_insert dmm rule) domain ≡ bytes_eq rule domain || contains dmm domain
unfolding domain_map_insert contains
contains-domain_map_insert dmm rule domain = elim (Bool-cases (contains dmm rule)) [
  | inl there ↦ rw there (contains-duplicate dmm rule domain there)
  | inr absent ↦ rw absent refl
]

or-swap : (a b c : Bool) → a || (b || c) ≡ b || (a || c)
or-swap true true c = refl
or-swap true false c = refl
or-swap false b c = refl

contains-append :
    (xs ys : List (List ℕ)) (domain : List ℕ)
    → contains (xs ++ ys) domain ≡ contains xs domain || contains ys domain
unfolding contains
contains-append [] ys domain = refl
contains-append (x ∷ xs) ys domain = ground (arith, contains-append xs ys domain)

contains-insert_each :
    (dmm domains : List (List ℕ)) (domain : List ℕ)
    → contains (insert_each dmm domains) domain ≡ contains domains domain || contains dmm domain
unfolding insert_each contains
contains-insert_each dmm [] domain = refl
contains-insert_each dmm (d ∷ ds) domain =
    contains-insert_each (domain_map_insert dmm d) ds domain
    ∙ ap (λ b. contains ds domain || b) (contains-domain_map_insert dmm d domain)
    ∙ ground arith

set_match-append :
    (xs ys : List Matcher) (domain : List ℕ)
    → set_match (xs ++ ys) domain ≡ set_match xs domain || set_match ys domain
unfolding set_match
set_match-append [] ys domain = refl
set_match-append (x ∷ xs) ys domain = ground (arith, set_match-append xs ys domain)

-- A map that is built from a list of rules matches what the list matches.
pub domain_map-eq-linear :
    (domains : List (List ℕ)) (domain : List ℕ)
    → contains (domain_map_matcher_from_slice domains) domain ≡ contains domains domain
unfolding contains
domain_map-eq-linear domains domain = contains-insert_each [] domains domain ∙ ground arith

set_match-one :
    (ms : List Matcher) (m : Matcher) (domain : List ℕ)
    → set_match (ms ++ (m ∷ [])) domain ≡ set_match ms domain || matches m domain
unfolding set_match
set_match-one ms m domain = set_match-append ms (m ∷ []) domain ∙ ground arith

-- The matchers of a set behind `DomainMapMatcher.AppendTo` match what they matched before, and the
-- rules of the map.
pub domain_map_append_to_lem :
    (dmm : List (List ℕ)) (ms : List Matcher) (domain : List ℕ)
    → set_match (domain_map_append_to dmm ms) domain ≡ set_match ms domain || contains dmm domain
unfolding domain_map_append_to contains
domain_map_append_to_lem [] ms domain = ground arith
domain_map_append_to_lem (d ∷ ds) ms domain =
    elim (Bool-cases (leb (length (d ∷ ds)) max_linear_domains)) [
      | inl few ↦ rw few (set_match-one ms (domain_linear (d ∷ ds)) domain)
      | inr many ↦ rw many (set_match-one ms (domain_map (d ∷ ds)) domain)
    ]

-- The matchers of a set behind `DomainLinearMatcher.AppendTo` match what they matched before, and the
-- rules of the list, whichever matcher is picked by their number.
pub domain_linear_append_to_lem :
    (dlm : List (List ℕ)) (ms : List Matcher) (domain : List ℕ)
    → set_match (domain_linear_append_to dlm ms) domain ≡ set_match ms domain || contains dlm domain
unfolding domain_linear_append_to contains
domain_linear_append_to_lem [] ms domain = ground arith
domain_linear_append_to_lem (d ∷ ds) ms domain =
    elim (Bool-cases (ltb max_linear_domains (length (d ∷ ds)))) [
      | inl many ↦ rw many (
          domain_map_append_to_lem (domain_map_matcher_from_slice (d ∷ ds)) ms domain
          ∙ ap (λ b. set_match ms domain || b) (domain_map-eq-linear (d ∷ ds) domain))
      | inr few ↦ rw few (set_match-one ms (domain_linear (d ∷ ds)) domain)
    ]
