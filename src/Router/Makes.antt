-- ===== src/Router/Makes.antt =====
-- Properties of what a construction makes, and how groups and routes keep that no criterion panics.
use shadowsocks.Base.{
  ◌≡◌, ◌⊎◌, inl, inr, refl, Bool, true, false, if◌then◌else◌, Option, none, some,
}
use shadowsocks.Router.Request.{RequestInfo}
use shadowsocks.Router.Criteria.{Criterion, Criteria, no_criteria, criterion_and}
use shadowsocks.Router.Route.{
  Route, append_criterion, maybe_inverted, add_criterion, group_add_criterion, group_criterion,
  group_append_to,
}
use shadowsocks.Router.Config.{Built, built, refused, crashed, ◌>>=◌, or_crash}
use shadowsocks.Router.Build.{or_nil, add_when, route_when}
use shadowsocks.Router.Panics.{IsSafe, AllSafe}

-- What is made has the property.
abbrev pub Makes : {A : Type 0} → (A → Type 0) → Built A → Type 0
Makes P (built a) = P a
Makes P (refused e) = Unit
Makes P crashed = Unit

pub Makes-bind :
    {A B : Type 0} (P : A → Type 0) (Q : B → Type 0) (m : Built A) (f : A → Built B)
    → Makes P m
    → ((a : A) → P a → Makes Q (f a))
    → Makes Q (m >>= f)
Makes-bind P Q (built a) f h k = k a h
Makes-bind P Q (refused e) f h k = tt
Makes-bind P Q crashed f h k = tt

-- Anything that is made.
pub Makes-any : {A : Type 0} (m : Built A) → Makes (λ _. Unit) m
Makes-any (built a) = tt
Makes-any (refused e) = tt
Makes-any crashed = tt

pub Makes-or_crash : {A : Type 0} (o : Option A) → Makes (λ a. o ≡ some a) (or_crash o)
Makes-or_crash none = tt
Makes-or_crash (some a) = refl

pub Makes-if :
    {A : Type 0} (P : A → Type 0) (b : Bool) (x y : Built A)
    → (b ≡ true → Makes P x)
    → (b ≡ false → Makes P y)
    → Makes P (if b then x else y)
Makes-if P true x y h k = h refl
Makes-if P false x y h k = k refl

-- What is made has both properties.
pub Makes-both :
    {A : Type 0} (P Q : A → Type 0) (m : Built A) → Makes P m → Makes Q m → Makes (λ a. P a × Q a) m
Makes-both P Q (built a) h k = (h, k)
Makes-both P Q (refused e) h k = tt
Makes-both P Q crashed h k = tt

abbrev pub IsNonempty : Criteria → Type 0
IsNonempty no_criteria = ⊥
IsNonempty (criterion_and c rest) = Unit

append_criterion-IsNonempty : (g : Criteria) (c : Criterion) → IsNonempty (append_criterion g c)
unfolding append_criterion
append_criterion-IsNonempty no_criteria c = tt
append_criterion-IsNonempty (criterion_and d rest) c = tt

-- A group has a criterion when one is added to it, or it had one.
pub add_when-IsNonempty :
    (b : Bool) (m : Built Criterion) (invert : Bool) (g : Criteria)
    → (b ≡ true) ⊎ IsNonempty g
    → Makes IsNonempty (add_when b m invert g)
unfolding group_add_criterion
add_when-IsNonempty true m invert g h =
    Makes-bind (λ _. Unit) IsNonempty m _ (Makes-any m)
      (λ c _. append_criterion-IsNonempty g (maybe_inverted c invert))
add_when-IsNonempty false m invert g (inl e) = cc
add_when-IsNonempty false m invert g (inr h) = h

module _ (r : RequestInfo) where
  pub AllSafe-append :
      (cs : Criteria) (c : Criterion)
      → AllSafe cs r
      → IsSafe c r
      → AllSafe (append_criterion cs c) r
  unfolding append_criterion
  AllSafe-append no_criteria c h k = (k, tt)
  AllSafe-append (criterion_and d rest) c (s, h) k = (s, AllSafe-append rest c h k)

  IsSafe-maybe_inverted :
      (c : Criterion) (invert : Bool) → IsSafe c r → IsSafe (maybe_inverted c invert) r
  IsSafe-maybe_inverted c true h = h
  IsSafe-maybe_inverted c false h = h

  pub AllSafe-group_append_to :
      (g cs : Criteria) → AllSafe g r → AllSafe cs r → AllSafe (group_append_to g cs) r
  unfolding group_append_to
  AllSafe-group_append_to no_criteria cs h k = k
  AllSafe-group_append_to (criterion_and c no_criteria) cs h k = AllSafe-append cs c k h.0
  AllSafe-group_append_to (criterion_and c (criterion_and d rest)) cs h k = AllSafe-append cs _ k h

  pub group_criterion-IsSafe :
      (g : Criteria) → AllSafe g r → IsNonempty g → IsSafe (or_nil (group_criterion g)) r
  unfolding group_criterion
  group_criterion-IsSafe no_criteria h n = n
  group_criterion-IsSafe (criterion_and c no_criteria) h n = h.0
  group_criterion-IsSafe (criterion_and c (criterion_and d rest)) h n = h

  pub add_when-AllSafe :
      (b : Bool) (m : Built Criterion) (invert : Bool) (g : Criteria)
      → (b ≡ true → Makes (λ c. IsSafe c r) m)
      → AllSafe g r
      → Makes (λ g'. AllSafe g' r) (add_when b m invert g)
  unfolding group_add_criterion
  add_when-AllSafe true m invert g h k =
      Makes-bind _ _ m _ (h refl)
        (λ c s. AllSafe-append g (maybe_inverted c invert) k (IsSafe-maybe_inverted c invert s))
  add_when-AllSafe false m invert g h k = k

  pub route_when-AllSafe :
      (b : Bool) (m : Built Criterion) (invert : Bool) (route : Route)
      → Makes (λ c. IsSafe c r) m
      → AllSafe route.criteria r
      → Makes (λ x. AllSafe x.criteria r) (route_when b m invert route)
  unfolding add_criterion
  route_when-AllSafe true m invert route h k = Makes-bind _ _ m _ h (λ c s.
      AllSafe-append route.criteria (maybe_inverted c invert) k (IsSafe-maybe_inverted c invert s))
  route_when-AllSafe false m invert route h k = k
