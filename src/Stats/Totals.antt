-- ===== src/Stats/Totals.antt =====
-- Runs of events, and the total of all users and the server.
use shadowsocks.Base.{
  ℕ, ◌^◌, ◌<◌, ◌≡◌, refl, sym, ap, subst, ◌∙◌, List, [], ◌∷◌, arith, bytes_eq, Bool-cases, inl, inr,
}
use shadowsocks.Stats.{
  Traffic, zero_traffic, traffic_add, Event, tcp_session, udp_downlink, udp_uplink, collect_traffic,
  collect_tcp_session, collect_udp_session_downlink, collect_udp_session_uplink, collect, Collector,
  User, at_user, at_collector, sum_users, sum_users_and_reset, snapshot, snapshot_and_reset,
  sort_users, new_server_collector,
}

-- The traffic of one event.
abbrev pub traffic_of : Event → Traffic
traffic_of e = collect_traffic e zero_traffic

-- The counters of a `uint64`.
pub record IsUint64 (t : Traffic) : Type 0 where
  pub downlink_packets : t.downlink_packets < 2 ^ 64
  pub downlink_bytes : t.downlink_bytes < 2 ^ 64
  pub uplink_packets : t.uplink_packets < 2 ^ 64
  pub uplink_bytes : t.uplink_bytes < 2 ^ 64
  pub tcp_sessions : t.tcp_sessions < 2 ^ 64
  pub udp_sessions : t.udp_sessions < 2 ^ 64

traffic_add-swap :
    (a x u : Traffic) → traffic_add (traffic_add a x) u ≡ traffic_add (traffic_add a u) x
unfolding traffic_add
traffic_add-swap a x u = ground arith

collect_traffic_lem :
    (e : Event) (t : Traffic) → IsUint64 t → collect_traffic e t ≡ traffic_add t (traffic_of e)
unfolding traffic_add collect_tcp_session collect_udp_session_downlink collect_udp_session_uplink
collect_traffic_lem (tcp_session d u) t h = ground arith
collect_traffic_lem (udp_downlink p b) t h = ground arith
collect_traffic_lem (udp_uplink p b) t h = ground arith

add-collect_traffic :
    (e : Event) (a t : Traffic)
    → traffic_add a (collect_traffic e t) ≡ traffic_add (traffic_add a t) (traffic_of e)
unfolding traffic_add collect_tcp_session collect_udp_session_downlink collect_udp_session_uplink
add-collect_traffic (tcp_session d u) a t = ground arith
add-collect_traffic (udp_downlink p b) a t = ground arith
add-collect_traffic (udp_uplink p b) a t = ground arith

sum_users-traffic_add :
    (a x : Traffic) (us : List User)
    → (sum_users (traffic_add a x) us).0 ≡ traffic_add (sum_users a us).0 x
unfolding sum_users
sum_users-traffic_add a x [] = refl
sum_users-traffic_add a x (u ∷ us) =
    ap (λ t. (sum_users t us).0) (traffic_add-swap a x u.traffic)
    ∙ sum_users-traffic_add (traffic_add a u.traffic) x us

sum_users-at_user :
    (name : List ℕ) (e : Event) (a : Traffic) (us : List User)
    → (sum_users a (at_user name (collect_traffic e) us)).0
      ≡ traffic_add (sum_users a us).0 (traffic_of e)
unfolding sum_users at_user
sum_users-at_user name e a [] = refl
sum_users-at_user name e a (u ∷ us) = elim (Bool-cases (bytes_eq u.name name)) [
  | inl same ↦ rw same (
      ap (λ t. (sum_users t us).0) (add-collect_traffic e a u.traffic)
      ∙ sum_users-traffic_add (traffic_add a u.traffic) (traffic_of e) us)
  | inr other ↦ rw other (sum_users-at_user name e (traffic_add a u.traffic) us)
]

-- Collecting an event adds its traffic, modulo 2 ^ 64, to the total that a snapshot gives, whichever
-- user it is for, when the server's own counters fit 64 bits.
pub collect-total :
    (name : List ℕ) (e : Event) (sc : Collector)
    → IsUint64 sc.tc
    → (snapshot (collect name e sc)).traffic ≡ traffic_add (snapshot sc).traffic (traffic_of e)
unfolding snapshot at_collector
collect-total [] e sc h =
    ap (λ t. (sum_users t sc.ucs).0) (collect_traffic_lem e sc.tc h)
    ∙ sum_users-traffic_add sc.tc (traffic_of e) sc.ucs
collect-total (c ∷ cs) e sc h = sum_users-at_user (c ∷ cs) e sc.tc sc.ucs

-- A run of events, each with its user.
unfoldable pub collect_all : List (List ℕ × Event) → Collector → Collector
collect_all [] sc = sc
collect_all ((name, e) ∷ es) sc = collect_all es (collect name e sc)

-- The traffic of a run on top of some traffic.
unfoldable pub total : Traffic → List (List ℕ × Event) → Traffic
total t [] = t
total t ((_, e) ∷ es) = total (traffic_add t (traffic_of e)) es

collect-IsUint64 :
    (name : List ℕ) (e : Event) (sc : Collector) → IsUint64 sc.tc → IsUint64 (collect name e sc).tc
unfolding at_collector collect_tcp_session collect_udp_session_downlink collect_udp_session_uplink
collect-IsUint64 [] (tcp_session d u) sc h = omega arith
collect-IsUint64 [] (udp_downlink p b) sc h = omega arith
collect-IsUint64 [] (udp_uplink p b) sc h = omega arith
collect-IsUint64 (c ∷ cs) e sc h = h

-- A snapshot after any run of events gives the traffic before it and that of each event, modulo 2 ^ 64.
pub collect_all-total :
    (es : List (List ℕ × Event)) (sc : Collector)
    → IsUint64 sc.tc
    → (snapshot (collect_all es sc)).traffic ≡ total (snapshot sc).traffic es
unfolding collect_all total
collect_all-total [] sc h = refl
collect_all-total ((name, e) ∷ es) sc h =
    collect_all-total es (collect name e sc) (collect-IsUint64 name e sc h)
    ∙ ap (λ t. total t es) (collect-total name e sc h)

sum_users_and_reset_lem :
    (a : Traffic) (us : List User)
    → ((sum_users_and_reset a us).0 ≡ (sum_users a us).0)
      × ((sum_users_and_reset a us).1.0 ≡ (sum_users a us).1)
      × ((sum_users zero_traffic (sum_users_and_reset a us).1.1).0 ≡ zero_traffic)
unfolding sum_users_and_reset sum_users traffic_add
sum_users_and_reset_lem a [] = (refl, refl, refl)
sum_users_and_reset_lem a (u ∷ us) =
    let (x, y, z) = sum_users_and_reset_lem (traffic_add a u.traffic) us in
    (x, ap (λ t. u ∷ t) y, z)

-- `SnapshotAndReset` returns what `Snapshot` returns, and leaves every counter at zero.
pub snapshot_and_reset_lem :
    (sc : Collector)
    → ((snapshot_and_reset sc).0 ≡ snapshot sc)
      × ((snapshot (snapshot_and_reset sc).1).traffic ≡ zero_traffic)
      × ((snapshot_and_reset sc).1.tc ≡ zero_traffic)
unfolding snapshot_and_reset snapshot
snapshot_and_reset_lem sc =
    let (x, y, z) = sum_users_and_reset_lem sc.tc sc.ucs in
    (λ i. record { traffic = x i; users = sort_users (y i) }, z, refl)

-- Traffic is reported once: a reset between two runs of events parts their traffic into what the reset
-- returned and what the next snapshot gives.
pub reset-total :
    (before after : List (List ℕ × Event))
    → ((snapshot_and_reset (collect_all before new_server_collector)).0.traffic
        ≡ total zero_traffic before)
      × ((snapshot (
            collect_all after
              (snapshot_and_reset (collect_all before new_server_collector)).1)).traffic
          ≡ total zero_traffic after)
reset-total before after =
    let sc : Collector = collect_all before new_server_collector in
    let (x, y, z) = snapshot_and_reset_lem sc in
    let fresh : IsUint64 (snapshot_and_reset sc).1.tc = subst IsUint64 (sym z) (omega arith) in
    (
      ap (λ s. s.traffic) x
          ∙ collect_all-total before new_server_collector (omega arith)
          ∙ ap (λ t. total t before) (unfold snapshot sum_users in refl),
      collect_all-total after (snapshot_and_reset sc).1 fresh ∙ ap (λ t. total t after) y,
    )
