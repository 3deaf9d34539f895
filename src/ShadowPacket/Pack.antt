-- ===== src/ShadowPacket/Pack.antt =====
-- `ShadowPacketClientPacker` and `ShadowPacketServerPacker`.
use shadowsocks.Base.{
  ℕ, zero, suc, ◌+◌, ◌-◌, ◌%◌, ◌^◌, min, Bool, ◌||◌, List, [], ◌∷◌, Option, none, some, ltb,
  if◌then◌else◌, drop, bit_xor,
}
use shadowsocks.Base.Bytes.{◌>>=◌}
use shadowsocks.Addr.{Addr, AddrPort, addr_from_ip_port}
use shadowsocks.Socks5.{length_of_addr_from_conn_addr, length_of_addr_from_addr_port}
use shadowsocks.Header.{
  udp_client_message_header_fixed_length, udp_server_message_header_fixed_length,
  write_udp_client_message_header, write_udp_server_message_header, write_session_id_and_packet_id,
}
use shadowsocks.Padding.{PaddingPolicy, should_pad}
use shadowsocks.ShadowPacket.Cipher.{Aead, Block, part, update_part, seal_part}

-- `UDPSeparateHeaderLength` and `IdentityHeaderLength`
abbrev pub separate_header_length : ℕ
separate_header_length = 8 + 8

abbrev pub identity_header_length : ℕ
identity_header_length = 16

-- An identity header's cipher and the hash of the next key.
pub record Identity : Type 0 where
  pub cipher : Block
  pub psk_hash : List ℕ

-- `ShadowPacketClientPacker`; `eihCiphers` and `eihPSKHashes` have the same length and are one list.
pub record ClientPacker : Type 0 where
  pub csid : ℕ
  pub cpid : ℕ
  pub aead : Aead
  pub block : Block
  pub policy : PaddingPolicy
  pub identities : List Identity
  pub max_packet_size : ℕ
  pub non_aead_header_len : ℕ
  pub server : AddrPort

-- `ShadowPacketServerPacker`
pub record ServerPacker : Type 0 where
  pub ssid : ℕ
  pub spid : ℕ
  pub csid : ℕ
  pub aead : Aead
  pub block : Block
  pub policy : PaddingPolicy

-- What `PackInPlace` returns: an error, or the start and length of the packet, with the buffer.
pub data Packed : Type 0 where
  payload_too_big : Packed
  packed : ℕ → ℕ → List ℕ → Packed

-- `maxPaddingLen`; `none` when it is negative.
unfoldable pub max_padding_len : ℕ → ℕ → ℕ → ℕ → ℕ → Option ℕ
max_padding_len max_packet_len header payload_start payload_len overhead =
    if ltb max_packet_len (header + payload_len + overhead) || ltb payload_start header
    then none
    else some (
        min (min (max_packet_len - header - payload_len - overhead) (payload_start - header)) 65535)

-- `paddingLen`, from `mrand.IntN`.
unfoldable pub padding_len : (ℕ → ℕ) → Bool → ℕ → ℕ
padding_len rand pad zero = 0
padding_len rand pad (suc n) = if pad then 1 + rand (suc n) else 0

-- `subtle.XORBytes`
abbrev pub xor_bytes : List ℕ → List ℕ → List ℕ
xor_bytes [] ys = []
xor_bytes (x ∷ xs) [] = []
xor_bytes (x ∷ xs) (y ∷ ys) = bit_xor x y ∷ xor_bytes xs ys

-- The loop over the identity headers, from one offset on.
unfoldable pub write_identities : List Identity → List ℕ → ℕ → List ℕ → Option (List ℕ)
write_identities [] header start b = some b
write_identities (i ∷ is) header start b = do
  b' ←
      update_part b start (start + identity_header_length)
        (λ _. some (i.cipher.encrypt (xor_bytes i.psk_hash header)))
  write_identities is header (start + identity_header_length) b'

-- The end of both packers: the message header stands at the offset in the buffer. The separate header
-- is written, the identity headers, the body is sealed, and the separate header encrypted.
unfoldable pub seal_packet :
    Aead → Block → List Identity → ℕ → ℕ → ℕ → ℕ → ℕ → List ℕ → Option (List ℕ)
seal_packet aead block identities sid pid packet_start message_start payload_end b = do
  b1 ←
      update_part b packet_start (packet_start + separate_header_length)
        (λ s. write_session_id_and_packet_id s sid pid)
  header ← part b1 packet_start (packet_start + separate_header_length)
  b2 ← write_identities identities header (packet_start + separate_header_length) b1
  b3 ← seal_part aead (drop 4 header) b2 message_start payload_end
  update_part b3 packet_start (packet_start + separate_header_length) (λ s. some (block.encrypt s))

-- `ShadowPacketClientPacker.PackInPlace`: the destination is the server. `rand` is `mrand.IntN`, `now` the
-- time in seconds.
unfoldable pub client_pack :
    (ℕ → ℕ) → ℕ → ClientPacker → List ℕ → Addr → ℕ → ℕ → Option (Packed × ClientPacker)
client_pack rand now p b target payload_start payload_len =
    let addr_len = length_of_addr_from_conn_addr target in
    let header = p.non_aead_header_len + udp_client_message_header_fixed_length + addr_len in
    elim (max_padding_len p.max_packet_size header payload_start payload_len p.aead.overhead) [
      | none ↦ some (payload_too_big, p)
      | some max_len ↦ (do
        let pad = padding_len rand (should_pad p.policy target) max_len
        let message_start = payload_start - udp_client_message_header_fixed_length - addr_len - pad
        b1 ←
            update_part b message_start payload_start
              (λ s. write_udp_client_message_header now s pad target)
        let packet_start = message_start - p.non_aead_header_len
        b2 ←
            seal_packet p.aead p.block p.identities p.csid p.cpid packet_start message_start
              (payload_start + payload_len) b1
        some (
          packed packet_start (payload_start - packet_start + payload_len + p.aead.overhead) b2,
          record p { cpid = (p.cpid + 1) % 2 ^ 64 },
        ))
    ]

-- `ShadowPacketServerPacker.PackInPlace`
unfoldable pub server_pack :
    (ℕ → ℕ) → ℕ → ServerPacker → List ℕ → AddrPort → ℕ → ℕ → ℕ → Option (Packed × ServerPacker)
server_pack rand now p b source payload_start payload_len max_packet_len =
    let addr_len = length_of_addr_from_addr_port source in
    let header = separate_header_length + udp_server_message_header_fixed_length + addr_len in
    elim (max_padding_len max_packet_len header payload_start payload_len p.aead.overhead) [
      | none ↦ some (payload_too_big, p)
      | some max_len ↦ (do
        let pad = padding_len rand (should_pad p.policy (addr_from_ip_port source)) max_len
        let message_start = payload_start - udp_server_message_header_fixed_length - pad - addr_len
        b1 ←
            update_part b message_start payload_start
              (λ s. write_udp_server_message_header now s p.csid pad source)
        let packet_start = message_start - separate_header_length
        b2 ←
            seal_packet p.aead p.block [] p.ssid p.spid packet_start message_start
              (payload_start + payload_len) b1
        some (
          packed packet_start (payload_start - packet_start + payload_len + p.aead.overhead) b2,
          record p { spid = (p.spid + 1) % 2 ^ 64 },
        ))
    ]
