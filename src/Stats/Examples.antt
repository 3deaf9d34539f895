-- ===== src/Stats/Examples.antt =====
-- The collector at concrete events.
use shadowsocks.Base.{ℕ, ◌≡◌, refl, ap, arith, List, [], ◌∷◌, bytes_eq}
use shadowsocks.Stats.{
  Traffic, zero_traffic, traffic_add, Event, tcp_session, udp_downlink, udp_uplink, collect,
  Collector, new_server_collector, snapshot, snapshot_and_reset, at_collector, at_user, sum_users,
  sort_users, insert_user, name_less, User, Server,
}
use shadowsocks.Stats.Totals.{collect_all, total, reset-total}
use shadowsocks.Stats.Users.{IsMap, Lists, snapshot-IsSorted}

abbrev events : List (List ℕ × Event)
events =
    (98 ∷ [], tcp_session 100 20)
    ∷ ([], udp_uplink 1 50)
    ∷ (97 ∷ [], udp_downlink 3 700)
    ∷ (98 ∷ [], tcp_session 1 1)
    ∷ []

abbrev later : List (List ℕ × Event)
later = (97 ∷ [], udp_uplink 2 60) ∷ []

abbrev busy : Collector
busy = collect_all events new_server_collector

snapshot-busy : (snapshot busy).traffic ≡ record {
  downlink_packets = 3;
  downlink_bytes = 801;
  uplink_packets = 1;
  uplink_bytes = 71;
  tcp_sessions = 2;
  udp_sessions = 1;
}
unfolding snapshot collect_all at_collector at_user sum_users traffic_add bytes_eq
    shadowsocks.Stats.collect_tcp_session shadowsocks.Stats.collect_udp_session_downlink
    shadowsocks.Stats.collect_udp_session_uplink
snapshot-busy = refl

abbrev first_byte : List ℕ → ℕ
first_byte [] = 0
first_byte (c ∷ _) = c

busy-IsMap : IsMap busy.ucs
unfolding collect_all at_collector at_user bytes_eq
busy-IsMap = (((λ e. omega (arith, ap first_byte e)), tt), (tt, tt))

reset-total_example :
    ((snapshot_and_reset (collect_all events new_server_collector)).0.traffic
      ≡ total zero_traffic events)
    × ((snapshot (
          collect_all later
            (snapshot_and_reset (collect_all events new_server_collector)).1)).traffic
        ≡ total zero_traffic later)
reset-total_example = reset-total events later

snapshot-IsSorted_example :
    Lists (snapshot (collect_all later busy)).users (collect_all later busy).ucs
    × Lists (snapshot_and_reset (collect_all later busy)).0.users (collect_all later busy).ucs
    × IsMap (snapshot_and_reset (collect_all later busy)).1.ucs
snapshot-IsSorted_example = snapshot-IsSorted later busy busy-IsMap
