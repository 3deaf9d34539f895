-- ===== src/Lib.antt =====
-- Shadowsocks: the core of the proxy, which carries TCP streams and UDP packets between clients,
-- servers and their targets, with the protocol Shadowsocks 2022 among others.
--
-- A server of Shadowsocks 2022 reads a header at the front of each stream and packet (ss2022/header.go),
-- which holds a target or source address in the SOCKS format (socks5/addr.go, conn/addr.go). It
-- refuses a stream whose salt was seen lately (ss2022/saltpool.go) and a packet whose counter was seen
-- (ss2022/slidingwindow.go). The router picks a client by sets of ports (portset, bitset) and of domains
-- (domainset), and what is carried is counted for each user (stats/collector.go).
--
-- The files and the code:
-- - Base and its children: Boolean tests, lists over native indices, bits of 64-bit words, text, bytes.
-- - SlidingWindow: `SlidingWindowFilter` of ss2022/slidingwindow.go; `f.last` is `last`, `f.ring` and
--   `f.ringBlockIndexMask` are the ring and the mask. SlidingWindow.Window is the window that the filter
--   is to be: all the counters accepted, and the last one.
-- - BitSet: `BitSet` of bitset/bitset.go. PortSet: `PortSet` of portset/portset.go and `PortRangeSet` of
--   portset/range.go.
-- - Addr: `Addr` of conn/addr.go, with a constructor for each address family.
-- - Socks5: the address format of socks5/addr.go, and the packet header of socks5/packet.go.
-- - Header: the headers of ss2022/header.go.
-- - Padding: the policies of ss2022/padding.go.
-- - SaltPool: `SaltPool` of ss2022/saltpool.go.
-- - Stats: `serverCollector` of stats/collector.go.
-- - DomainSet: the linear and map matchers of domainset/matcher_domain.go and
--   domainset/matcher_suffix.go, and `DomainSet.Match` of domainset/domainset.go.
-- - DirectPacket: the packers and unpackers of direct/packet.go, with the packet sizes of zerocopy/packet.go
--   and the headroom of zerocopy/zerocopy.go.
-- - ShadowPacket: the packets of ss2022/packet.go. ShadowPacket.Pack has `PackInPlace` of the packers,
--   ShadowPacket.Unpack `UnpackInPlace` of the unpackers; a server session of a client is the record Session.
-- - Router: router. Router.Criteria has the criteria of router/route.go and their `Meet`, Router.Route routes,
--   groups and the choice of router/router.go, Router.Config and Router.Build `RouteConfig.Route`, and
--   Router.Make `Config.Router`.
-- The children of a module hold its theorems; its Examples hold tests and runs at concrete inputs.
--
-- Conventions: a buffer is a list of bytes; a write returns the buffer behind it. A panic is `none`, an
-- error is a constructor of a result type. A machine word is a native number, and what wraps around in
-- the source is taken modulo 2 ^ 64; words have 64 bits (`bits.UintSize`). An address of net/netip is
-- its bytes, with the zone of an IPv6 address.
--
-- Fuel: `PortSet.parse` has one round for each byte of the text, and each round takes at least one;
-- the scan of a block by `PortSet.RangeSet.scan_block` has 64 rounds, and each takes a bit at least;
-- `PortSet.set_contains` has one round more than there are ranges, and each round makes the search
-- interval smaller.
--
-- Arguments stand for what is not in the repository: the system time of Header and SaltPool, the
-- resolver and the parser of IP addresses of Addr, the resolver of DirectPacket, the ciphers, the random
-- numbers and the times of ShadowPacket, and the resolvers, IP sets and GeoIP database of Router. Operations of the
-- collector that are atomic in the source come one after the other.
--
-- Not modelled: the derivation of ciphers and keys, the streams that are built on them, sockets, the relay
-- loops and session tables of service, the DNS resolver, the loading of configuration, sets and databases,
-- and the commands; the text forms of addresses, and the trie, keyword and regular expression matchers of
-- domain sets.
pub mod Base
pub mod SlidingWindow
pub mod BitSet
pub mod PortSet
pub mod Addr
pub mod Socks5
pub mod Header
pub mod SaltPool
pub mod Stats
pub mod DomainSet
pub mod DirectPacket
pub mod Padding
pub mod ShadowPacket
pub mod Router
