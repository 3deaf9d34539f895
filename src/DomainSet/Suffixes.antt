-- ===== src/DomainSet/Suffixes.antt =====
-- Suffix rules: the scan of a domain's dots, and the linear search.
use shadowsocks.Base.{
  ℕ, zero, suc, ◌-◌, ◌≤◌, ◌<◌, ◌≡◌, refl, sym, ap, ap₂, subst, ◌∙◌, true, false, ◌||◌, List, [],
  ◌∷◌, arith, ltb, ◌==◌, length, get_or, drop, length-drop, Bool-cases, inl, inr, bytes_eq,
  bytes_eq_sound, bytes_eq_self, lt→ltb,
}
use shadowsocks.DomainSet.{
  contains, match_domain_suffix, suffix_linear_match, suffix_map_scan, suffix_map_match, dot,
}

scan-cons :
    (s : List ℕ) (smm : List (List ℕ)) (d : List ℕ) (i : ℕ)
    → suffix_map_scan (s ∷ smm) d i ≡ suffix_map_scan (s ∷ []) d i || suffix_map_scan smm d i
unfolding suffix_map_scan contains
scan-cons s smm d zero = ground arith
scan-cons s smm d (suc i) = ground (arith, scan-cons s smm d i)

scan-nil : (d : List ℕ) (i : ℕ) → suffix_map_scan [] d i ≡ false
unfolding suffix_map_scan contains
scan-nil d zero = refl
scan-nil d (suc i) = ground (arith, scan-nil d i)

scan-hit :
    (s d : List ℕ) (k i : ℕ)
    → k < i
    → get_or d k 0 == dot ≡ true
    → bytes_eq s (drop (suc k) d) ≡ true
    → suffix_map_scan (s ∷ []) d i ≡ true
unfolding suffix_map_scan contains
scan-hit s d k zero h e f = absurd (omega arith)
scan-hit s d k (suc i) h e f = elim (Bool-cases (ltb k i)) [
  | inl less ↦ ground (arith, scan-hit s d k i (ground (arith, less)) e f)
  | inr more ↦
      let same : k ≡ i = ground (arith, more) in
      rw
        (
          subst (λ n. get_or d n 0 == dot ≡ true) same e,
          subst (λ n. bytes_eq s (drop (suc n) d) ≡ true) same f,
        )
        refl
]

at-dot :
    (s d : List ℕ) (i : ℕ)
    → suc i ≤ length d
    → get_or d i 0 == dot ≡ true
    → s ≡ drop (suc i) d
    → match_domain_suffix d s ≡ true
unfolding match_domain_suffix
at-dot s d i h e f =
    let len : length s ≡ length d - suc i = ap length f ∙ length-drop (suc i) d in
    let here : i ≡ length d - length s - 1 = omega (arith, len) in
    let next : suc i ≡ length d - length s = omega (arith, len) in
    let shorter : ltb (length s) (length d) ≡ true =
      lt→ltb (length s) (length d) (omega (arith, len)) in
    let dotted : get_or d (length d - length s - 1) 0 == dot ≡ true =
      subst (λ n. get_or d n 0 == dot ≡ true) here e in
    let tail_ : bytes_eq (drop (length d - length s) d) s ≡ true =
      subst (λ n. bytes_eq (drop n d) s ≡ true) next
        (subst (λ t. bytes_eq (drop (suc i) d) t ≡ true) (sym f)
          (bytes_eq_self (drop (suc i) d))) in
    ground (arith, shorter, dotted, tail_)

scan-whole : (s d : List ℕ) (i : ℕ) → bytes_eq s d ≡ true → suffix_map_scan (s ∷ []) d i ≡ true
unfolding suffix_map_scan contains
scan-whole s d zero h = rw h refl
scan-whole s d (suc i) h = ground (arith, scan-whole s d i h)

scan_complete :
    (s d : List ℕ) → match_domain_suffix d s ≡ true → suffix_map_scan (s ∷ []) d (length d) ≡ true
unfolding match_domain_suffix
scan_complete s d h = elim (Bool-cases (bytes_eq d s)) [
  | inl same ↦
      scan-whole s d (length d)
        (subst (λ x. bytes_eq x d ≡ true) (bytes_eq_sound d s same) (bytes_eq_self d))
  | inr other ↦
      let k : ℕ = length d - length s - 1 in
      let shorter : length s < length d = ground (arith, other, h) in
      let next : length d - length s ≡ suc k = omega arith in
      let tail_ : bytes_eq (drop (length d - length s) d) s ≡ true = ground (arith, other, h) in
      let eq : drop (suc k) d ≡ s =
        subst (λ n. drop n d ≡ s) next (bytes_eq_sound (drop (length d - length s) d) s tail_) in
      scan-hit s d k (length d) (omega arith) (ground (arith, other, h))
        (subst (λ x. bytes_eq s x ≡ true) (sym eq) (bytes_eq_self s))
]

scan_sound :
    (s d : List ℕ) (i : ℕ)
    → i ≤ length d
    → suffix_map_scan (s ∷ []) d i ≡ true
    → match_domain_suffix d s ≡ true
unfolding suffix_map_scan contains match_domain_suffix
scan_sound s d zero h e = elim (Bool-cases (bytes_eq s d)) [
  | inl same ↦
      rw (subst (λ x. bytes_eq d x ≡ true) (sym (bytes_eq_sound s d same)) (bytes_eq_self d)) refl
  | inr other ↦ absurd (ground (arith, other, e))
]
scan_sound s d (suc i) h e =
    let rest : suffix_map_scan (s ∷ []) d i ≡ true → match_domain_suffix d s ≡ true =
      scan_sound s d i (omega arith) in
    elim (Bool-cases (get_or d i 0 == dot)) [
      | inr other ↦ rest (rw other at e)
      | inl found ↦ elim (Bool-cases (bytes_eq s (drop (suc i) d))) [
        | inr other ↦ rest (rw (found, other) at e)
        | inl same ↦ at-dot s d i h found (bytes_eq_sound s (drop (suc i) d) same)
      ]
    ]

scan-one : (s d : List ℕ) → suffix_map_scan (s ∷ []) d (length d) ≡ match_domain_suffix d s
scan-one s d = elim (Bool-cases (suffix_map_scan (s ∷ []) d (length d))) [
  | inl found ↦ found ∙ sym (scan_sound s d (length d) (omega arith) found)
  | inr missed ↦ elim (Bool-cases (match_domain_suffix d s)) [
    | inl match_ ↦ scan_complete s d match_ ∙ sym match_
    | inr none_ ↦ missed ∙ sym none_
  ]
]

-- On every domain, the map matcher of a list of suffix rules gives what the linear matcher of the list
-- gives.
pub suffix_map_match-eq-linear :
    (smm : List (List ℕ)) (d : List ℕ) → suffix_map_match smm d ≡ suffix_linear_match smm d
unfolding suffix_map_match suffix_linear_match
suffix_map_match-eq-linear [] d = scan-nil d (length d)
suffix_map_match-eq-linear (s ∷ smm) d =
    scan-cons s smm d (length d)
    ∙ ap₂ (λ x y. x || y) (scan-one s d) (suffix_map_match-eq-linear smm d)
