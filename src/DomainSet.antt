-- ===== src/DomainSet.antt =====
-- domainset/matcher_domain.go and domainset/matcher_suffix.go: the matchers of domain and suffix rules
-- by linear search and by map. Domains and rules are lists of bytes; a map of rules is the list of its
-- keys in the order that `range` takes, so `maphelper.Keys` is that list.
pub mod Domains
pub mod Suffixes
mod Examples
use shadowsocks.Base.{
  ℕ, zero, suc, ◌+◌, ◌-◌, Bool, true, false, ◌&&◌, ◌||◌, List, [], ◌∷◌, ◌++◌, ltb, leb, ◌==◌,
  if◌then◌else◌, length, get_or, drop, bytes_eq,
}

-- `MaxLinearDomains`
abbrev pub max_linear_domains : ℕ
max_linear_domains = 16

-- A matcher that `AppendTo` of a domain rule's builder makes.
pub data Matcher : Type 0 where
  domain_linear : List (List ℕ) → Matcher
  domain_map : List (List ℕ) → Matcher

-- `slices.Contains`, and the look-up in a map by its keys.
unfoldable pub contains : List (List ℕ) → List ℕ → Bool
contains [] domain = false
contains (rule ∷ rules) domain = bytes_eq rule domain || contains rules domain

-- `DomainLinearMatcher.Match`
abbrev pub domain_linear_match : List (List ℕ) → List ℕ → Bool
domain_linear_match dlm domain = contains dlm domain

-- `DomainLinearMatcher.Insert`
abbrev pub domain_linear_insert : List (List ℕ) → List ℕ → List (List ℕ)
domain_linear_insert dlm rule = dlm ++ (rule ∷ [])

-- `DomainMapMatcher.Match`
abbrev pub domain_map_match : List (List ℕ) → List ℕ → Bool
domain_map_match dmm domain = contains dmm domain

-- `DomainMapMatcher.Insert`: a key that is there already stays as it is.
unfoldable pub domain_map_insert : List (List ℕ) → List ℕ → List (List ℕ)
domain_map_insert dmm rule = if contains dmm rule then dmm else rule ∷ dmm

-- The loop of `DomainMapMatcherFromSlice`.
unfoldable pub insert_each : List (List ℕ) → List (List ℕ) → List (List ℕ)
insert_each dmm [] = dmm
insert_each dmm (domain ∷ domains) = insert_each (domain_map_insert dmm domain) domains

-- `DomainMapMatcherFromSlice`
abbrev pub domain_map_matcher_from_slice : List (List ℕ) → List (List ℕ)
domain_map_matcher_from_slice domains = insert_each [] domains

-- `MatcherCount` of both.
abbrev pub matcher_count : List (List ℕ) → ℕ
matcher_count [] = 0
matcher_count (_ ∷ _) = 1

-- The end of `DomainLinearMatcher.AppendTo`, with no more than 16 rules.
abbrev pub append_linear : List (List ℕ) → List Matcher → List Matcher
append_linear [] matchers = matchers
append_linear (d ∷ ds) matchers = matchers ++ (domain_linear (d ∷ ds) ∷ [])

-- `DomainMapMatcher.AppendTo`: a small map is made a linear matcher.
unfoldable pub domain_map_append_to : List (List ℕ) → List Matcher → List Matcher
domain_map_append_to [] matchers = matchers
domain_map_append_to (d ∷ ds) matchers =
    if leb (length (d ∷ ds)) max_linear_domains
    then append_linear (d ∷ ds) matchers
    else matchers ++ (domain_map (d ∷ ds) ∷ [])

-- `DomainLinearMatcher.AppendTo`: a long list is made a map.
unfoldable pub domain_linear_append_to : List (List ℕ) → List Matcher → List Matcher
domain_linear_append_to [] matchers = matchers
domain_linear_append_to (d ∷ ds) matchers =
    if ltb max_linear_domains (length (d ∷ ds))
    then domain_map_append_to (domain_map_matcher_from_slice (d ∷ ds)) matchers
    else matchers ++ (domain_linear (d ∷ ds) ∷ [])

-- `Matcher.Match`
abbrev pub matches : Matcher → List ℕ → Bool
matches (domain_linear dlm) domain = domain_linear_match dlm domain
matches (domain_map dmm) domain = domain_map_match dmm domain

-- `DomainSet.Match`
unfoldable pub set_match : List Matcher → List ℕ → Bool
set_match [] domain = false
set_match (m ∷ ms) domain = matches m domain || set_match ms domain

abbrev pub dot : ℕ
dot = 46

-- `matchDomainSuffix`
unfoldable pub match_domain_suffix : List ℕ → List ℕ → Bool
match_domain_suffix domain suffix =
    bytes_eq domain suffix
    || (ltb (length suffix) (length domain)
        && (get_or domain (length domain - length suffix - 1) 0 == dot
            && bytes_eq (drop (length domain - length suffix) domain) suffix))

-- `SuffixLinearMatcher.Match`
unfoldable pub suffix_linear_match : List (List ℕ) → List ℕ → Bool
suffix_linear_match [] domain = false
suffix_linear_match (suffix ∷ slm) domain =
    match_domain_suffix domain suffix || suffix_linear_match slm domain

-- `SuffixLinearMatcher.Insert`
abbrev pub suffix_linear_insert : List (List ℕ) → List ℕ → List (List ℕ)
suffix_linear_insert slm rule = slm ++ (rule ∷ [])

-- The loop of `SuffixMapMatcher.Match`, over the i bytes that are left, and what is behind it.
unfoldable pub suffix_map_scan : List (List ℕ) → List ℕ → ℕ → Bool
suffix_map_scan smm domain zero = contains smm domain
suffix_map_scan smm domain (suc i) =
    let rest = suffix_map_scan smm domain i in
    if get_or domain i 0 == dot
    then if contains smm (drop (suc i) domain) then true else rest
    else rest

-- `SuffixMapMatcher.Match`
unfoldable pub suffix_map_match : List (List ℕ) → List ℕ → Bool
suffix_map_match smm domain = suffix_map_scan smm domain (length domain)

-- `SuffixMapMatcher.Insert`
unfoldable pub suffix_map_insert : List (List ℕ) → List ℕ → List (List ℕ)
suffix_map_insert smm rule = if contains smm rule then smm else rule ∷ smm

-- The loop of `SuffixMapMatcherFromSlice`.
unfoldable pub suffix_insert_each : List (List ℕ) → List (List ℕ) → List (List ℕ)
suffix_insert_each smm [] = smm
suffix_insert_each smm (suffix ∷ suffixes) =
    suffix_insert_each (suffix_map_insert smm suffix) suffixes

-- `SuffixMapMatcherFromSlice`
abbrev pub suffix_map_matcher_from_slice : List (List ℕ) → List (List ℕ)
suffix_map_matcher_from_slice suffixes = suffix_insert_each [] suffixes
