-- ===== src/DirectPacket/Examples.antt =====
-- Packets at concrete buffers.
use shadowsocks.Base.{ℕ, ◌≡◌, List, [], ◌∷◌, some, arith, drop}
use shadowsocks.Addr.{Addr, domain_addr, v4}
use shadowsocks.Socks5.{length_of_addr_from_conn_addr}
use shadowsocks.Socks5.Parse.{canonical}
use shadowsocks.DirectPacket.{
  PacketClientPacker, Packed, unpacked, none_client_pack, none_server_unpack,
}
use shadowsocks.DirectPacket.RoundTrip.{answer, none_server_unpack-pack}

abbrev buffer : List ℕ
buffer = 1 ∷ 2 ∷ 3 ∷ 4 ∷ 5 ∷ 6 ∷ 7 ∷ 8 ∷ 9 ∷ 10 ∷ 11 ∷ 12 ∷ []

abbrev target : Addr
target = domain_addr (97 ∷ 46 ∷ 98 ∷ []) 443

abbrev packer : PacketClientPacker
packer = record {
  server_addr_port = record { ip = v4 (192 ∷ 0 ∷ 2 ∷ 1 ∷ []); port = 8388 };
  max_packet_size = 1400;
}

none_server_unpack-pack_example :
    (b' : List ℕ) × (p : Packed) × (none_client_pack packer buffer target 8 3
      ≡ some ((packer.server_addr_port, p), b'))
    × (answer (none_server_unpack [] b' p.packet_start p.packet_len)
        ≡ some (unpacked (canonical target) 8 3))
    × (drop 8 b' ≡ drop 8 buffer)
unfolding length_of_addr_from_conn_addr
none_server_unpack-pack_example =
    none_server_unpack-pack packer [] buffer target 8 3 (omega arith, omega arith, omega arith)
      (omega arith) (omega arith)
