-- ===== src/DomainSet/Examples.antt =====
-- The matchers at concrete rules.
use shadowsocks.Base.{ℕ, ◌≡◌, refl, true, false, ◌||◌, List, [], ◌∷◌, bytes_eq}
use shadowsocks.DomainSet.{
  contains, domain_linear_append_to, set_match, domain_linear, suffix_map_match, suffix_map_scan,
  suffix_linear_match, match_domain_suffix,
}
use shadowsocks.DomainSet.Domains.{domain_linear_append_to_lem}
use shadowsocks.DomainSet.Suffixes.{suffix_map_match-eq-linear}

-- `a.b`, `b` and `xb`.
abbrev a_b : List ℕ
a_b = 97 ∷ 46 ∷ 98 ∷ []

abbrev b_ : List ℕ
b_ = 98 ∷ []

abbrev xb : List ℕ
xb = 120 ∷ 98 ∷ []

match-sub : suffix_map_match (b_ ∷ []) a_b ≡ true
unfolding suffix_map_match suffix_map_scan contains bytes_eq
match-sub = refl

match-no_dot : suffix_linear_match (b_ ∷ []) xb ≡ false
unfolding suffix_linear_match match_domain_suffix bytes_eq
match-no_dot = refl

domain_linear_append_to_lem_example :
    set_match (domain_linear_append_to (a_b ∷ b_ ∷ []) (domain_linear (xb ∷ []) ∷ [])) b_
    ≡ set_match (domain_linear (xb ∷ []) ∷ []) b_ || contains (a_b ∷ b_ ∷ []) b_
domain_linear_append_to_lem_example =
    domain_linear_append_to_lem (a_b ∷ b_ ∷ []) (domain_linear (xb ∷ []) ∷ []) b_

suffix_map_match-eq-linear_example :
    suffix_map_match (xb ∷ b_ ∷ []) a_b ≡ suffix_linear_match (xb ∷ b_ ∷ []) a_b
suffix_map_match-eq-linear_example = suffix_map_match-eq-linear (xb ∷ b_ ∷ []) a_b
