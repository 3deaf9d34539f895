-- ===== src/Stats/Users.antt =====
-- The users of a snapshot: which they are, and in which order.
use mathlib.Core.List.{Perm}
use mathlib.Core.List.Perm
use shadowsocks.Base.{
  ℕ, ◌≡◌, ◌≢◌, refl, sym, ap, subst, ◌∙◌, List, [], ◌∷◌, All, bytes_eq, bytes_eq_self, Bool-cases,
  inl, inr,
}
use shadowsocks.Stats.{
  Traffic, traffic_add, Event, collect, collect_traffic, at_user, at_collector, User, Collector,
  name_less, insert_user, sort_users, sum_users, sum_users_and_reset, snapshot, snapshot_and_reset,
}
use shadowsocks.Stats.Names.{Before, Before-of_less, Before-of_more}
use shadowsocks.Stats.Totals.{collect_all}

-- The keys of a map: no name is there twice.
abbrev IsOther : List ℕ → User → Type 0
IsOther name u = name ≢ u.name

abbrev pub IsMap : List User → Type 0
IsMap [] = Unit
IsMap (u ∷ us) = All (IsOther u.name) us × IsMap us

-- Each name stands before the next.
abbrev pub IsSorted : List User → Type 0
IsSorted [] = Unit
IsSorted (u ∷ []) = Unit
IsSorted (u ∷ v ∷ vs) = Before u.name v.name × IsSorted (v ∷ vs)

module _ (P : User → Type 0) where
  insert_user-All : (u : User) (us : List User) → P u → All P us → All P (insert_user u us)
  unfolding insert_user
  insert_user-All u [] p h = (p, tt)
  insert_user-All u (v ∷ vs) p h = elim (Bool-cases (name_less u.name v.name)) [
    | inl less ↦ rw less (p, h)
    | inr more ↦ rw more (h.0, insert_user-All u vs p h.1)
  ]

  sort_users-All : (us : List User) → All P us → All P (sort_users us)
  unfolding sort_users
  sort_users-All [] h = tt
  sort_users-All (u ∷ us) h = insert_user-All u (sort_users us) h.0 (sort_users-All us h.1)

-- What is inserted comes first, or the first one stays.
insert_user-IsSorted :
    (u : User) (us : List User)
    → All (IsOther u.name) us
    → IsSorted us
    → IsSorted (insert_user u us)
unfolding insert_user
insert_user-IsSorted u [] n h = tt
insert_user-IsSorted u (v ∷ []) n h = elim (Bool-cases (name_less u.name v.name)) [
  | inl less ↦ rw less (Before-of_less u.name v.name less, tt)
  | inr more ↦ rw more (Before-of_more u.name v.name more n.0, tt)
]
insert_user-IsSorted u (v ∷ w ∷ ws) n h =
    let rest : IsSorted (insert_user u (w ∷ ws)) = insert_user-IsSorted u (w ∷ ws) n.1 h.1 in
    elim (Bool-cases (name_less u.name v.name)) [
      | inl less ↦ rw less (Before-of_less u.name v.name less, h)
      | inr more ↦ elim (Bool-cases (name_less u.name w.name)) [
        | inl less ↦ rw (more, less) (Before-of_more u.name v.name more n.0, rw less at rest)
        | inr other ↦ rw (more, other) (h.0, rw other at rest)
      ]
    ]

sort_users-IsSorted : (us : List User) → IsMap us → IsSorted (sort_users us)
unfolding sort_users
sort_users-IsSorted [] h = tt
sort_users-IsSorted (u ∷ us) h =
    insert_user-IsSorted u (sort_users us) (sort_users-All (IsOther u.name) us h.0)
      (sort_users-IsSorted us h.1)

insert_user-perm : (u : User) (us : List User) → Perm (insert_user u us) (u ∷ us)
unfolding insert_user
insert_user-perm u [] = Perm.refl (u ∷ [])
insert_user-perm u (v ∷ vs) = elim (Bool-cases (name_less u.name v.name)) [
  | inl less ↦ rw less (Perm.refl (u ∷ v ∷ vs))
  | inr more ↦ rw more (Perm.trans (Perm.cons v (insert_user-perm u vs)) (Perm.swap u v vs))
]

sort_users-perm : (us : List User) → Perm (sort_users us) us
unfolding sort_users
sort_users-perm [] = Perm.refl []
sort_users-perm (u ∷ us) =
    Perm.trans (insert_user-perm u (sort_users us)) (Perm.cons u (sort_users-perm us))

sum_users-all : (us : List User) (t : Traffic) → (sum_users t us).1 ≡ us
unfolding sum_users
sum_users-all [] t = refl
sum_users-all (u ∷ us) t = ap (λ vs. u ∷ vs) (sum_users-all us (traffic_add t u.traffic))

sum_users_and_reset-all : (us : List User) (t : Traffic) → (sum_users_and_reset t us).1.0 ≡ us
unfolding sum_users_and_reset
sum_users_and_reset-all [] t = refl
sum_users_and_reset-all (u ∷ us) t =
    ap (λ vs. u ∷ vs) (sum_users_and_reset-all us (traffic_add t u.traffic))

reset-All :
    (name : List ℕ) (us : List User) (t : Traffic)
    → All (IsOther name) us
    → All (IsOther name) (sum_users_and_reset t us).1.1
unfolding sum_users_and_reset
reset-All name [] t h = tt
reset-All name (u ∷ us) t h = (h.0, reset-All name us (traffic_add t u.traffic) h.1)

reset-IsMap : (us : List User) (t : Traffic) → IsMap us → IsMap (sum_users_and_reset t us).1.1
unfolding sum_users_and_reset
reset-IsMap [] t h = tt
reset-IsMap (u ∷ us) t h =
    let t' : Traffic = traffic_add t u.traffic in
    (reset-All u.name us t' h.0, reset-IsMap us t' h.1)

module _ (name : List ℕ) (f : Traffic → Traffic) where
  at_user-All :
      (other : List ℕ) (us : List User)
      → other ≢ name
      → All (IsOther other) us
      → All (IsOther other) (at_user name f us)
  unfolding at_user
  at_user-All other [] n h = (n, tt)
  at_user-All other (u ∷ us) n h = elim (Bool-cases (bytes_eq u.name name)) [
    | inl same ↦ rw same h
    | inr differs ↦ rw differs (h.0, at_user-All other us n h.1)
  ]

  at_user-IsMap : (us : List User) → IsMap us → IsMap (at_user name f us)
  unfolding at_user
  at_user-IsMap [] h = (tt, tt)
  at_user-IsMap (u ∷ us) h = elim (Bool-cases (bytes_eq u.name name)) [
    | inl same ↦ rw same h
    | inr differs ↦ rw differs (
      at_user-All u.name us
          (λ e. cc (sym differs ∙ ap (λ t. bytes_eq u.name t) (sym e) ∙ bytes_eq_self u.name)) h.0,
      at_user-IsMap us h.1,
    )
  ]

collect-IsMap :
    (name : List ℕ) (e : Event) (sc : Collector) → IsMap sc.ucs → IsMap (collect name e sc).ucs
unfolding at_collector
collect-IsMap [] e sc h = h
collect-IsMap (c ∷ cs) e sc h = at_user-IsMap (c ∷ cs) (collect_traffic e) sc.ucs h

collect_all-IsMap :
    (events : List (List ℕ × Event)) (sc : Collector)
    → IsMap sc.ucs
    → IsMap (collect_all events sc).ucs
unfolding collect_all
collect_all-IsMap [] sc h = h
collect_all-IsMap ((name, e) ∷ events) sc h =
    collect_all-IsMap events (collect name e sc) (collect-IsMap name e sc h)

-- The users are all there, each once and with its traffic, and each name stands before the next.
abbrev pub Lists : List User → List User → Type 0
Lists users ucs = Perm users ucs × IsSorted users

-- Snapshots list the users in the order of their names: after any events, collected from a collector
-- whose users have different names, a snapshot, and one that resets, has each user of the collector
-- once, with its traffic, and each name is a proper prefix of the next or has a smaller byte where they
-- first differ. The users of the collector that was reset have different names again.
pub snapshot-IsSorted :
    (events : List (List ℕ × Event)) (sc : Collector)
    → IsMap sc.ucs
    → Lists (snapshot (collect_all events sc)).users (collect_all events sc).ucs
      × Lists (snapshot_and_reset (collect_all events sc)).0.users (collect_all events sc).ucs
      × IsMap (snapshot_and_reset (collect_all events sc)).1.ucs
unfolding snapshot snapshot_and_reset
snapshot-IsSorted events sc h =
    let after : Collector = collect_all events sc in
    let keys : IsMap after.ucs = collect_all-IsMap events sc h in
    let listed : Lists (sort_users after.ucs) after.ucs =
      (sort_users-perm after.ucs, sort_users-IsSorted after.ucs keys) in
    (
      subst (λ us. Lists (sort_users us) after.ucs) (sym (sum_users-all after.ucs after.tc)) listed,
      subst (λ us. Lists (sort_users us) after.ucs)
          (sym (sum_users_and_reset-all after.ucs after.tc)) listed,
      reset-IsMap after.ucs after.tc keys,
    )
