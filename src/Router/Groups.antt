-- ===== src/Router/Groups.antt =====
-- What groups of criteria and inversion mean for a route.
use shadowsocks.Base.{
  ◌≡◌, ◌≢◌, refl, sym, ap, ◌∙◌, ◌↔◌, ◌⊎◌, inl, inr, All, Bool, true, false, not, if◌then◌else◌,
  Option, none, some,
}
use shadowsocks.Router.Request.{Protocol, RequestInfo, Outcome, value, failed, panics, ◌>>=◌}
use shadowsocks.Router.Criteria.{
  Criterion, inverted, group_or, Criteria, no_criteria, criterion_and, meet, meet_any,
}
use shadowsocks.Router.First.{Decides, first, first_cases, All-map, Decides-map}
use shadowsocks.Router.Decisions.{to_list}
use shadowsocks.Router.Route.{append_criterion, match_criteria, group_criterion, group_append_to}

-- Both outcomes are positive; what comes first decides about errors.
abbrev pub both : Outcome Bool → Outcome Bool → Outcome Bool
both a b = do met ← a; if met then b else value false

-- One of the outcomes is positive; what comes first decides about errors.
abbrev pub either : Outcome Bool → Outcome Bool → Outcome Bool
either a b = do met ← a; if met then value true else b

both-true : (a : Outcome Bool) → both a (value true) ≡ a
both-true (value true) = refl
both-true (value false) = refl
both-true (failed e) = refl
both-true panics = refl

both_assoc : (a b c : Outcome Bool) → both (both a b) c ≡ both a (both b c)
both_assoc (value true) b c = refl
both_assoc (value false) b c = refl
both_assoc (failed e) b c = refl
both_assoc panics b c = refl

either-false : (a : Outcome Bool) → either a (value false) ≡ a
either-false (value true) = refl
either-false (value false) = refl
either-false (failed e) = refl
either-false panics = refl

either_assoc : (a b c : Outcome Bool) → either (either a b) c ≡ either a (either b c)
either_assoc (value true) b c = refl
either_assoc (value false) b c = refl
either_assoc (failed e) b c = refl
either_assoc panics b c = refl

negate_twice : (a : Outcome Bool) → ((a >>= λ x. value (not x)) >>= λ x. value (not x)) ≡ a
negate_twice (value true) = refl
negate_twice (value false) = refl
negate_twice (failed e) = refl
negate_twice panics = refl

both-cases :
    (a b o : Outcome Bool)
    → both a b ≡ o
    → ((a ≡ o) × (o ≢ value true)) ⊎ ((a ≡ value true) × (b ≡ o))
both-cases (value true) b o e = inr (refl, e)
both-cases (value false) b o e = inl (e, λ h. cc)
both-cases (failed k) b o e = inl (e, λ h. cc)
both-cases panics b o e = inl (e, λ h. cc)

both_decided : (a b : Outcome Bool) → a ≢ value true → both a b ≡ a
both_decided (value true) b n = absurd (n refl)
both_decided (value false) b n = refl
both_decided (failed e) b n = refl
both_decided panics b n = refl

-- What a criterion of a group ends the loop with.
abbrev hit : Outcome Bool → Option (Outcome Bool)
hit (value true) = some (value true)
hit (value false) = none
hit (failed e) = some (failed e)
hit panics = some panics

hit-none : (o : Outcome Bool) → hit o ≡ none → o ≡ value false
hit-none (value true) e = cc
hit-none (value false) e = refl
hit-none (failed k) e = cc
hit-none panics e = cc

hit-some : (o o' : Outcome Bool) → hit o ≡ some o' → (o ≡ o') × (o' ≢ value false)
hit-some (value true) o' e = (cc, λ h. cc)
hit-some (value false) o' e = cc
hit-some (failed k) o' e = (cc, λ h. cc)
hit-some panics o' e = (cc, λ h. cc)

some-hit : (o o' : Outcome Bool) → o' ≢ value false → o ≡ o' → hit o ≡ some o'
some-hit (value true) o' n e = ap some e
some-hit (value false) o' n e = absurd (n (sym e))
some-hit (failed k) o' n e = ap some e
some-hit panics o' n e = ap some e

module _ (network : Protocol) (r : RequestInfo) where
  pub match_criteria-append :
      (cs : Criteria) (c : Criterion)
      → match_criteria (append_criterion cs c) network r
        ≡ both (match_criteria cs network r) (meet c network r)
  unfolding match_criteria append_criterion
  match_criteria-append no_criteria c = both-true (meet c network r)
  match_criteria-append (criterion_and d rest) c =
      ap (both (meet d network r)) (match_criteria-append rest c)
      ∙ sym (both_assoc (meet d network r) (match_criteria rest network r) (meet c network r))

  meet_any-append :
      (cs : Criteria) (c : Criterion)
      → meet_any (append_criterion cs c) network r
        ≡ either (meet_any cs network r) (meet c network r)
  unfolding meet append_criterion
  meet_any-append no_criteria c = either-false (meet c network r)
  meet_any-append (criterion_and d rest) c =
      ap (either (meet d network r)) (meet_any-append rest c)
      ∙ sym (either_assoc (meet d network r) (meet_any rest network r) (meet c network r))

  meet-alone :
      (c : Criterion) → meet c network r ≡ meet (group_or (criterion_and c no_criteria)) network r
  unfolding meet
  meet-alone c = sym (either-false (meet c network r))

  -- What a group that is appended to the criteria of a route asks of the request.
  abbrev pub with_group : Criteria → Outcome Bool → Outcome Bool
  with_group no_criteria o = o
  with_group (criterion_and c rest) o = both o (meet (group_or (criterion_and c rest)) network r)

  match_criteria-append_to :
      (g cs : Criteria)
      → match_criteria (group_append_to g cs) network r ≡ with_group g (match_criteria cs network r)
  unfolding group_append_to
  match_criteria-append_to no_criteria cs = refl
  match_criteria-append_to (criterion_and c no_criteria) cs =
      match_criteria-append cs c ∙ ap (both (match_criteria cs network r)) (meet-alone c)
  match_criteria-append_to (criterion_and c (criterion_and d rest)) cs = match_criteria-append cs _

  meet_any-first :
      (g : Criteria)
      → meet_any g network r ≡ first (λ c. hit (meet c network r)) (value false) (to_list g)
  unfolding meet first
  meet_any-first no_criteria = refl
  meet_any-first (criterion_and c rest) =
      elim (meet c network r)
        as (λ o. either o (meet_any rest network r) ≡ elim (hit o) [
          | none ↦ first (λ c. hit (meet c network r)) (value false) (to_list rest)
          | some b ↦ b
        ]) [
          | value true ↦ refl
          | value false ↦ meet_any-first rest
          | failed e ↦ refl
          | panics ↦ refl
        ]

  -- A group of criteria gives an outcome: none of them is met, or the first one that is met or fails
  -- decides.
  pub data GroupGives (g : Criteria) (o : Outcome Bool) : Type 0 where
    none_met :
        All (λ c. meet c network r ≡ value false) (to_list g) → o ≡ value false → GroupGives g o
    one_decides :
        Decides (λ c. meet c network r ≡ value false) (λ c. meet c network r ≡ o) (to_list g)
        → o ≢ value false
        → GroupGives g o

  -- A route to which a group was appended gives an outcome: the group is empty and it is that of the
  -- criteria before; or they are not all met; or they are, and the group gives it.
  pub data GivesWith (g cs : Criteria) (o : Outcome Bool) : Type 0 where
    nothing_asked : g ≡ no_criteria → match_criteria cs network r ≡ o → GivesWith g cs o
    decided_before : match_criteria cs network r ≡ o → o ≢ value true → GivesWith g cs o
    decided_by_group :
        g ≢ no_criteria
        → match_criteria cs network r ≡ value true
        → GroupGives g o
        → GivesWith g cs o

  meet_any-to : (g : Criteria) (o : Outcome Bool) → meet_any g network r ≡ o → GroupGives g o
  meet_any-to g o e =
      elim ((first_cases (λ c. hit (meet c network r)) (value false) o (to_list g)).0
        (sym (meet_any-first g) ∙ e)) [
          | inl (all, ended) ↦
              none_met (All-map (λ c. hit-none (meet c network r)) (to_list g) all) ended
          | inr d ↦
              one_decides
                (Decides-map (λ c. hit-none (meet c network r))
                  (λ c p. (hit-some (meet c network r) o p).0) d)
                (hit-some (meet d.here network r) o d.given).1
        ]

  meet_any-from : (g : Criteria) (o : Outcome Bool) → GroupGives g o → meet_any g network r ≡ o
  meet_any-from g o (none_met all e) =
      meet_any-first g
      ∙ (first_cases (λ c. hit (meet c network r)) (value false) o (to_list g)).1
          (inl (All-map (λ c. ap hit) (to_list g) all, e))
  meet_any-from g o (one_decides d n) =
      meet_any-first g
      ∙ (first_cases (λ c. hit (meet c network r)) (value false) o (to_list g)).1
          (inr (Decides-map (λ c. ap hit) (λ c. some-hit (meet c network r) o n) d))

  group_or-meet : (g : Criteria) → meet (group_or g) network r ≡ meet_any g network r
  unfolding meet
  group_or-meet g = refl

  with_group-to :
      (g cs : Criteria) (o : Outcome Bool)
      → with_group g (match_criteria cs network r) ≡ o
      → GivesWith g cs o
  with_group-to no_criteria cs o e = nothing_asked refl e
  with_group-to (criterion_and c rest) cs o e =
      elim (both-cases (match_criteria cs network r)
        (meet (group_or (criterion_and c rest)) network r) o e) [
          | inl (before, n) ↦ decided_before before n
          | inr (before, p) ↦
              decided_by_group (λ e. cc) before
                (meet_any-to (criterion_and c rest) o
                  (sym (group_or-meet (criterion_and c rest)) ∙ p))
        ]

  with_group-from :
      (g cs : Criteria) (o : Outcome Bool)
      → GivesWith g cs o
      → with_group g (match_criteria cs network r) ≡ o
  with_group-from g cs o (nothing_asked e m) =
      ap (λ g. with_group g (match_criteria cs network r)) e ∙ m
  with_group-from no_criteria cs o (decided_before m n) = m
  with_group-from (criterion_and c rest) cs o (decided_before m n) =
      ap (λ a. both a (meet (group_or (criterion_and c rest)) network r)) m
      ∙ both_decided o (meet (group_or (criterion_and c rest)) network r) n
  with_group-from no_criteria cs o (decided_by_group n m p) = absurd (n refl)
  with_group-from (criterion_and c rest) cs o (decided_by_group n m p) =
      ap (λ a. both a (meet (group_or (criterion_and c rest)) network r)) m
      ∙ group_or-meet (criterion_and c rest)
      ∙ meet_any-from (criterion_and c rest) o p

  -- Groups do what they are for. A route to whose criteria a group is appended, in whichever form `AppendTo`
  -- gives it, is matched exactly when its criteria before are met and, unless the group is empty, one of
  -- the group is met and each before that one is not met and does not fail. It is not matched exactly when
  -- the criteria before are not, or none of a nonempty group is met. It fails or panics exactly when the
  -- criteria before do, or they are met and a criterion of the group does before any of the group is met.
  pub match_criteria-append_to_iff :
      (g cs : Criteria) (o : Outcome Bool)
      → (match_criteria (group_append_to g cs) network r ≡ o) ↔ GivesWith g cs o
  match_criteria-append_to_iff g cs o = (
    λ e. with_group-to g cs o (sym (match_criteria-append_to g cs) ∙ e),
    λ h. match_criteria-append_to g cs ∙ with_group-from g cs o h,
  )

  -- The single criterion that stands for a group is met by the same requests; there is none for an empty group.
  abbrev pub meet_optional : Option Criterion → Outcome Bool
  meet_optional none = value false
  meet_optional (some c) = meet c network r

  pub group_criterion-meet :
      (g : Criteria) → meet_optional (group_criterion g) ≡ meet_any g network r
  unfolding group_criterion meet
  group_criterion-meet no_criteria = refl
  group_criterion-meet (criterion_and d no_criteria) = meet-alone d
  group_criterion-meet (criterion_and d (criterion_and d' rest)) = refl

  meet-inverted_twice : (c : Criterion) → meet (inverted (inverted c)) network r ≡ meet c network r
  unfolding meet
  meet-inverted_twice c = negate_twice (meet c network r)
