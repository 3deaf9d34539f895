-- ===== src/DirectPacket.antt =====
-- direct/packet.go: packers and unpackers of UDP packets, for direct connections, for Shadowsocks
-- `none` and for SOCKS5, and the packet sizes of zerocopy/packet.go. They work in place: a payload lies in
-- a buffer, with room in front for a header. `none` is a panic on an index out of range. An MTU is at least
-- 1280, as the service demands, so no maximum is negative.
pub mod RoundTrip
mod Examples
use shadowsocks.Base.{
  ℕ, ◌+◌, ◌-◌, Bool, true, false, ◌&&◌, ◌||◌, not, List, [], ◌∷◌, ◌++◌, Option, none, some, ltb,
  leb, ◌==◌, if◌then◌else◌, length, take, drop, bytes_eq,
}
use shadowsocks.Base.Bytes.{◌>>=◌}
use shadowsocks.Addr.{
  Ip, zero_ip, is_4, AddrPort, Addr, is_ip, get_ip_port, get_domain, get_port, Resolved, panicked,
  failed, resolved, resolve_ip, addr_port_mapped_equal,
}
use shadowsocks.Socks5.{
  Result, ok, err, AddrError, ipv6_addr_len, max_addr_len, length_of_addr_from_conn_addr,
  length_of_addr_from_addr_port, write_addr_from_conn_addr, write_addr_from_addr_port,
  addr_port_from_slice, conn_addr_from_slice_with_domain_cache, write_packet_header,
  validate_packet_header,
}

-- `MaxPacketSizeForAddr`
unfoldable pub max_packet_size_for_addr : ℕ → Ip → ℕ
max_packet_size_for_addr mtu ip =
    if is_4 ip then mtu - 20 - 8 else if ltb 65575 mtu then mtu - 40 - 8 - 8 else mtu - 40 - 8

-- `Headroom`
pub record Headroom : Type 0 where
  pub front : ℕ
  pub rear : ℕ

-- `UDPRelayHeadroom`
abbrev pub udp_relay_headroom : Headroom → Headroom → Headroom
udp_relay_headroom packer unpacker = record {
  front = packer.front - unpacker.front;
  rear = packer.rear - unpacker.rear;
}

-- The headroom of Shadowsocks `none` messages, from a client and from a server.
abbrev pub none_client_message_headroom : Headroom
none_client_message_headroom = record { front = max_addr_len; rear = 0 }

abbrev pub none_server_message_headroom : Headroom
none_server_message_headroom = record { front = ipv6_addr_len; rear = 0 }

-- The headroom of SOCKS5 messages, from a client and from a server.
abbrev pub socks5_client_message_headroom : Headroom
socks5_client_message_headroom = record { front = 3 + max_addr_len; rear = 0 }

abbrev pub socks5_server_message_headroom : Headroom
socks5_server_message_headroom = record { front = 3 + ipv6_addr_len; rear = 0 }

-- The errors of the unpackers and of the direct server's packer.
pub data PacketError : Type 0 where
  payload_too_big : PacketError
  non_target_source : AddrPort → PacketError
  non_server_source : AddrPort → PacketError
  packet_too_small : ℕ → PacketError
  fragmented : PacketError
  bad_address : AddrError → PacketError
  no_address : PacketError

-- What a packer returns beside the buffer. The offsets are there with an error too.
pub record Packed : Type 0 where
  pub packet_start : ℕ
  pub packet_len : ℕ
  pub error : Option PacketError

-- What an unpacker returns: an error, or the address, the payload's start and its length.
pub data Unpacked (A : Type 0) : Type 0 where
  unpacked : A → ℕ → ℕ → Unpacked A
  refused : PacketError → Unpacked A

abbrev pub too_big : ℕ → ℕ → Option PacketError
too_big packet_len max_len = if ltb max_len packet_len then some payload_too_big else none

-- `b[start : start+len]`
unfoldable pub slice : List ℕ → ℕ → ℕ → Option (List ℕ)
slice b start len = if ltb (length b) (start + len) then none else some (take len (drop start b))

-- A write into `b[start:]`, where start is `at - back` and may be negative.
unfoldable pub write_before : ℕ → ℕ → (List ℕ → Option (List ℕ)) → List ℕ → Option (List ℕ)
write_before at back write b =
    if ltb at back || ltb (length b) (at - back)
    then none
    else (do t ← write (drop (at - back) b); some (take (at - back) b ++ t))

abbrev pub written : Option (ℕ × List ℕ) → Option (List ℕ)
written none = none
written (some (_, b)) = some b

-- `DirectPacketClientPacker`
pub record DirectClientPacker : Type 0 where
  pub cached_domain : List ℕ
  pub cached_domain_ip : Ip
  pub mtu : ℕ

-- `NewDirectPacketClientPacker`
abbrev pub new_direct_client_packer : ℕ → DirectClientPacker
new_direct_client_packer mtu = record { cached_domain = []; cached_domain_ip = zero_ip; mtu = mtu }

-- The resolver is an argument, for the packer's network.
module _ (lookup_ip : List ℕ → Option Ip) where
  -- `updateDomainIPCache`
  unfoldable pub update_domain_ip_cache : DirectClientPacker → Addr → Resolved DirectClientPacker
  update_domain_ip_cache p target = elim (get_domain target) [
    | none ↦ panicked
    | some d ↦
        if bytes_eq p.cached_domain d then resolved p else elim (resolve_ip lookup_ip target) [
          | panicked ↦ panicked
          | failed ↦ failed
          | resolved ip ↦ resolved (record p { cached_domain = d; cached_domain_ip = ip })
        ]
  ]

  -- The end of `DirectPacketClientPacker.PackInPlace`: the destination is known.
  abbrev pub direct_packed : DirectClientPacker → AddrPort → ℕ → ℕ → AddrPort × Packed
  direct_packed p dest start len = (
    dest,
    record {
      packet_start = start;
      packet_len = len;
      error = too_big len (max_packet_size_for_addr p.mtu dest.ip);
    },
  )

  -- `DirectPacketClientPacker.PackInPlace`: the destination, what is packed, and the packer.
  unfoldable pub direct_client_pack :
      DirectClientPacker → Addr → ℕ → ℕ → Resolved ((AddrPort × Packed) × DirectClientPacker)
  direct_client_pack p target start len = elim (get_ip_port target) [
    | some dest ↦ resolved (direct_packed p dest start len, p)
    | none ↦ elim (update_domain_ip_cache p target) [
      | panicked ↦ panicked
      | failed ↦ failed
      | resolved p' ↦ resolved (
        direct_packed p' (record { ip = p'.cached_domain_ip; port = get_port target }) start len,
        p',
      )
    ]
  ]

-- `ShadowsocksNonePacketClientPacker`; `Socks5PacketClientPacker` has the same fields.
pub record PacketClientPacker : Type 0 where
  pub server_addr_port : AddrPort
  pub max_packet_size : ℕ

-- `ShadowsocksNonePacketClientPacker.PackInPlace`: the destination, what is packed, and the buffer.
unfoldable pub none_client_pack :
    PacketClientPacker → List ℕ → Addr → ℕ → ℕ → Option ((AddrPort × Packed) × List ℕ)
none_client_pack p b target start len = do
  let n = length_of_addr_from_conn_addr target
  b' ← write_before start n (λ s. written (write_addr_from_conn_addr s target)) b
  some (
    (
      p.server_addr_port,
      record {
        packet_start = start - n;
        packet_len = len + n;
        error = too_big (len + n) p.max_packet_size;
      },
    ),
    b',
  )

-- The end of the unpackers: an address of n bytes was read, behind a header of some bytes.
abbrev pub unpacked_behind : {A : Type 0} → ℕ → ℕ → ℕ → Result (A × ℕ) → Unpacked A
unpacked_behind header start len (err e) = refused (bad_address e)
unpacked_behind header start len (ok (a, n)) = unpacked a (start + n + header) (len - n - header)

-- `ShadowsocksNonePacketClientUnpacker.UnpackInPlace`
unfoldable pub none_client_unpack :
    AddrPort → List ℕ → AddrPort → ℕ → ℕ → Option (Unpacked AddrPort)
none_client_unpack server b source start len =
    if addr_port_mapped_equal source server
    then (do pkt ← slice b start len; some (unpacked_behind 0 start len (addr_port_from_slice pkt)))
    else some (refused (non_server_source source))

-- `ShadowsocksNonePacketServerPacker.PackInPlace`
unfoldable pub none_server_pack : List ℕ → AddrPort → ℕ → ℕ → ℕ → Option (Packed × List ℕ)
none_server_pack b source start len max_packet_len = do
  let n = length_of_addr_from_addr_port source
  b' ← write_before start n (λ s. written (write_addr_from_addr_port s source)) b
  some (
    record {
      packet_start = start - n;
      packet_len = len + n;
      error = too_big (len + n) max_packet_len;
    },
    b',
  )

-- `ShadowsocksNonePacketServerUnpacker.UnpackInPlace`: the result and the cached domain.
unfoldable pub none_server_unpack : List ℕ → List ℕ → ℕ → ℕ → Option (Unpacked Addr × List ℕ)
none_server_unpack cached b start len = do
  pkt ← slice b start len
  let r = conn_addr_from_slice_with_domain_cache pkt cached
  some (unpacked_behind 0 start len r.0, r.1)

-- `Socks5PacketClientPacker.PackInPlace`
unfoldable pub socks5_client_pack :
    PacketClientPacker → List ℕ → Addr → ℕ → ℕ → Option ((AddrPort × Packed) × List ℕ)
socks5_client_pack p b target start len = do
  let n = length_of_addr_from_conn_addr target
  b1 ← write_before start (n + 3) write_packet_header b
  b2 ← write_before start n (λ s. written (write_addr_from_conn_addr s target)) b1
  some (
    (
      p.server_addr_port,
      record {
        packet_start = start - n - 3;
        packet_len = len + n + 3;
        error = too_big (len + n + 3) p.max_packet_size;
      },
    ),
    b2,
  )

-- `Socks5PacketServerPacker.PackInPlace`
unfoldable pub socks5_server_pack : List ℕ → AddrPort → ℕ → ℕ → ℕ → Option (Packed × List ℕ)
socks5_server_pack b source start len max_packet_len = do
  let n = length_of_addr_from_addr_port source
  b1 ← write_before start (n + 3) write_packet_header b
  b2 ← write_before start n (λ s. written (write_addr_from_addr_port s source)) b1
  some (
    record {
      packet_start = start - n - 3;
      packet_len = len + n + 3;
      error = too_big (len + n + 3) max_packet_len;
    },
    b2,
  )

-- `Socks5PacketClientUnpacker.UnpackInPlace`
unfoldable pub socks5_client_unpack :
    AddrPort → List ℕ → AddrPort → ℕ → ℕ → Option (Unpacked AddrPort)
socks5_client_unpack server b source start len =
    if addr_port_mapped_equal source server
    then if ltb len 3 then some (refused (packet_too_small len)) else (do
      pkt ← slice b start len
      whole ← validate_packet_header pkt
      some (
          if whole
          then unpacked_behind 3 start len (addr_port_from_slice (drop 3 pkt))
          else refused fragmented))
    else some (refused (non_server_source source))

-- `Socks5PacketServerUnpacker.UnpackInPlace`: the result and the cached domain.
unfoldable pub socks5_server_unpack : List ℕ → List ℕ → ℕ → ℕ → Option (Unpacked Addr × List ℕ)
socks5_server_unpack cached b start len =
    if ltb len 3 then some (refused (packet_too_small len), cached) else (do
      pkt ← slice b start len
      whole ← validate_packet_header pkt
      let r = conn_addr_from_slice_with_domain_cache (drop 3 pkt) cached
      some (if whole then (unpacked_behind 3 start len r.0, r.1) else (refused fragmented, cached)))

-- `DirectPacketClientUnpacker.UnpackInPlace`
abbrev pub direct_client_unpack : AddrPort → ℕ → ℕ → Unpacked AddrPort
direct_client_unpack source start len = unpacked source start len

-- `DirectPacketServerPackUnpacker`
pub record DirectServer : Type 0 where
  pub target_addr : Addr
  pub target_addr_only : Bool

-- `DirectPacketServerPackUnpacker.PackInPlace`; `none` is the panic of `IPPort` on a domain.
unfoldable pub direct_server_pack : DirectServer → AddrPort → ℕ → ℕ → ℕ → Option Packed
direct_server_pack p source start len max_packet_len =
    let fits : Packed = record {
      packet_start = start;
      packet_len = len;
      error = too_big len max_packet_len;
    } in
    if p.target_addr_only
    then elim (get_ip_port p.target_addr) [
      | none ↦ none
      | some target ↦
          if addr_port_mapped_equal source target
          then some fits
          else some (record fits { error = some (non_target_source source) })
    ]
    else some fits

-- `DirectPacketServerPackUnpacker.UnpackInPlace`
abbrev pub direct_server_unpack : DirectServer → ℕ → ℕ → Unpacked Addr
direct_server_unpack p start len = unpacked p.target_addr start len
