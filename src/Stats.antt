-- ===== src/Stats.antt =====
-- stats/collector.go: traffic counters per user. The atomic operations happen one after the other; the
-- map of users is a list in the order that `range` takes, and usernames are lists of bytes.
-- `slices.SortFunc`, of the standard library, is an insertion sort; the keys of the map are all different,
-- so there is one sorted list.
pub mod Totals
pub mod Names
pub mod Users
mod Examples
use shadowsocks.Base.{
  ℕ, zero, suc, ◌+◌, ◌%◌, ◌^◌, Bool, true, false, ◌||◌, List, [], ◌∷◌, ltb, ◌==◌, if◌then◌else◌,
  bytes_eq,
}

-- `Traffic`, and `trafficCollector` with the values of its atomic counters.
pub record Traffic : Type 0 where
  pub downlink_packets : ℕ
  pub downlink_bytes : ℕ
  pub uplink_packets : ℕ
  pub uplink_bytes : ℕ
  pub tcp_sessions : ℕ
  pub udp_sessions : ℕ

abbrev pub zero_traffic : Traffic
zero_traffic = record {
  downlink_packets = 0;
  downlink_bytes = 0;
  uplink_packets = 0;
  uplink_bytes = 0;
  tcp_sessions = 0;
  udp_sessions = 0;
}

-- The addition of `uint64`.
abbrev pub add64 : ℕ → ℕ → ℕ
add64 a b = (a + b) % 2 ^ 64

-- `trafficCollector.collectTCPSession`
unfoldable pub collect_tcp_session : Traffic → ℕ → ℕ → Traffic
collect_tcp_session tc downlink uplink = record tc {
  downlink_bytes = add64 tc.downlink_bytes downlink;
  uplink_bytes = add64 tc.uplink_bytes uplink;
  tcp_sessions = add64 tc.tcp_sessions 1;
}

-- `trafficCollector.collectUDPSessionDownlink`
unfoldable pub collect_udp_session_downlink : Traffic → ℕ → ℕ → Traffic
collect_udp_session_downlink tc packets bytes = record tc {
  downlink_packets = add64 tc.downlink_packets packets;
  downlink_bytes = add64 tc.downlink_bytes bytes;
  udp_sessions = add64 tc.udp_sessions 1;
}

-- `trafficCollector.collectUDPSessionUplink`
unfoldable pub collect_udp_session_uplink : Traffic → ℕ → ℕ → Traffic
collect_udp_session_uplink tc packets bytes = record tc {
  uplink_packets = add64 tc.uplink_packets packets;
  uplink_bytes = add64 tc.uplink_bytes bytes;
}

-- `Traffic.Add`
unfoldable pub traffic_add : Traffic → Traffic → Traffic
traffic_add t u = record {
  downlink_packets = add64 t.downlink_packets u.downlink_packets;
  downlink_bytes = add64 t.downlink_bytes u.downlink_bytes;
  uplink_packets = add64 t.uplink_packets u.uplink_packets;
  uplink_bytes = add64 t.uplink_bytes u.uplink_bytes;
  tcp_sessions = add64 t.tcp_sessions u.tcp_sessions;
  udp_sessions = add64 t.udp_sessions u.udp_sessions;
}

-- `trafficCollector.snapshot`
abbrev pub traffic_snapshot : Traffic → Traffic
traffic_snapshot tc = tc

-- `trafficCollector.snapshotAndReset`: the result and the collector after it.
abbrev pub traffic_snapshot_and_reset : Traffic → Traffic × Traffic
traffic_snapshot_and_reset tc = (tc, zero_traffic)

-- `User`, and an entry of the map of `userCollector`.
pub record User : Type 0 where
  pub name : List ℕ
  pub traffic : Traffic

-- `strings` in the order of `cmp.Compare`: is the first one less?
unfoldable pub name_less : List ℕ → List ℕ → Bool
name_less [] [] = false
name_less [] (_ ∷ _) = true
name_less (_ ∷ _) [] = false
name_less (x ∷ xs) (y ∷ ys) = if ltb x y then true else if x == y then name_less xs ys else false

-- `userCollector.snapshot`
abbrev pub user_snapshot : User → User
user_snapshot uc = record { name = uc.name; traffic = traffic_snapshot uc.traffic }

-- `userCollector.snapshotAndReset`
abbrev pub user_snapshot_and_reset : User → User × User
user_snapshot_and_reset uc =
    let (t, tc) = traffic_snapshot_and_reset uc.traffic in
    (record { name = uc.name; traffic = t }, record { name = uc.name; traffic = tc })

-- `serverCollector`
pub record Collector : Type 0 where
  pub tc : Traffic
  pub ucs : List User

-- `NewServerCollector`
abbrev pub new_server_collector : Collector
new_server_collector = record { tc = zero_traffic; ucs = [] }

-- `serverCollector.userCollector`: the user's collector, made when it is not there, for an update.
unfoldable pub at_user : List ℕ → (Traffic → Traffic) → List User → List User
at_user name f [] = record { name = name; traffic = f zero_traffic } ∷ []
at_user name f (u ∷ us) =
    let rest = at_user name f us in
    if bytes_eq u.name name then record u { traffic = f u.traffic } ∷ us else u ∷ rest

-- `serverCollector.trafficCollector`: no name is the server itself.
unfoldable pub at_collector : List ℕ → (Traffic → Traffic) → Collector → Collector
at_collector [] f sc = record sc { tc = f sc.tc }
at_collector (c ∷ cs) f sc = record sc { ucs = at_user (c ∷ cs) f sc.ucs }

-- The calls of `CollectTCPSession`, `CollectUDPSessionDownlink` and `CollectUDPSessionUplink`.
pub data Event : Type 0 where
  tcp_session : ℕ → ℕ → Event
  udp_downlink : ℕ → ℕ → Event
  udp_uplink : ℕ → ℕ → Event

abbrev pub collect_traffic : Event → Traffic → Traffic
collect_traffic (tcp_session d u) tc = collect_tcp_session tc d u
collect_traffic (udp_downlink p b) tc = collect_udp_session_downlink tc p b
collect_traffic (udp_uplink p b) tc = collect_udp_session_uplink tc p b

abbrev pub collect : List ℕ → Event → Collector → Collector
collect username e sc = at_collector username (collect_traffic e) sc

-- `Server`
pub record Server : Type 0 where
  pub traffic : Traffic
  pub users : List User

-- `slices.SortFunc(s.Users, User.Compare)`
unfoldable pub insert_user : User → List User → List User
insert_user u [] = u ∷ []
insert_user u (v ∷ vs) =
    let rest = insert_user u vs in if name_less u.name v.name then u ∷ v ∷ vs else v ∷ rest

unfoldable pub sort_users : List User → List User
sort_users [] = []
sort_users (u ∷ us) = insert_user u (sort_users us)

-- The loop of `Snapshot`: the traffic so far, and the users.
unfoldable pub sum_users : Traffic → List User → Traffic × List User
sum_users t [] = (t, [])
sum_users t (uc ∷ ucs) =
    let u = user_snapshot uc in
    let (t', us) = sum_users (traffic_add t u.traffic) ucs in (t', u ∷ us)

-- `serverCollector.Snapshot`
unfoldable pub snapshot : Collector → Server
snapshot sc =
    let (t, us) = sum_users (traffic_snapshot sc.tc) sc.ucs in
    record { traffic = t; users = sort_users us }

-- The loop of `SnapshotAndReset`, with the collectors after it.
unfoldable pub sum_users_and_reset : Traffic → List User → Traffic × (List User × List User)
sum_users_and_reset t [] = (t, ([], []))
sum_users_and_reset t (uc ∷ ucs) =
    let (u, uc') = user_snapshot_and_reset uc in
    let (t', (us, ucs')) = sum_users_and_reset (traffic_add t u.traffic) ucs in
    (t', (u ∷ us, uc' ∷ ucs'))

-- `serverCollector.SnapshotAndReset`
unfoldable pub snapshot_and_reset : Collector → Server × Collector
snapshot_and_reset sc =
    let (t0, tc') = traffic_snapshot_and_reset sc.tc in
    let (t, (us, ucs')) = sum_users_and_reset t0 sc.ucs in
    (record { traffic = t; users = sort_users us }, record { tc = tc'; ucs = ucs' })
