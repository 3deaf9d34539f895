-- ===== src/Socks5.antt =====
-- socks5/addr.go and socks5/packet.go: the SOCKS address format (RFC 1928, section 5), written to a
-- buffer, appended to one, and read from a slice or from a reader. An index past a buffer panics,
-- which is `none` of the writers.
pub mod Write
pub mod Parse
pub mod Reader
mod Examples
use shadowsocks.Base.{
  ℕ, zero, suc, ◌+◌, ◌-◌, ◌*◌, ◌%◌, ◌/◌, Bool, true, false, List, [], ◌∷◌, ◌++◌, Option, none, some,
  ltb, ◌==◌, if◌then◌else◌, length, get_or, take, drop, copy_at, bytes_eq,
}
use shadowsocks.Base.Bytes.{be16, from_be16, put_at, ◌>>=◌}
use shadowsocks.Addr.{
  Ip, v4, v6, is_4, as_4, as_16, AddrPort, Addr, none_addr, ip_addr, domain_addr, addr_from_ip_port,
  addr_from_domain_port,
}

abbrev pub atyp_ipv4 : ℕ
atyp_ipv4 = 1

abbrev pub atyp_domain_name : ℕ
atyp_domain_name = 3

abbrev pub atyp_ipv6 : ℕ
atyp_ipv6 = 4

abbrev pub ipv4_addr_len : ℕ
ipv4_addr_len = 1 + 4 + 2

abbrev pub ipv6_addr_len : ℕ
ipv6_addr_len = 1 + 16 + 2

abbrev pub max_addr_len : ℕ
max_addr_len = 1 + 1 + 255 + 2

-- `netip.AddrPortFrom(netip.IPv4Unspecified(), 0)`
abbrev pub unspecified : AddrPort
unspecified = record { ip = v4 (0 ∷ 0 ∷ 0 ∷ 0 ∷ []); port = 0 }

-- `AppendAddrFromAddrPort`: the bytes that `slicehelper.Extend` adds are all written.
unfoldable pub append_addr_from_addr_port : List ℕ → AddrPort → List ℕ
append_addr_from_addr_port b a =
    if is_4 a.ip
    then b ++ (atyp_ipv4 ∷ (as_4 a.ip ++ be16 a.port))
    else b ++ (atyp_ipv6 ∷ (as_16 a.ip ++ be16 a.port))

-- `WriteAddrFromAddrPort`
unfoldable pub write_addr_from_addr_port : List ℕ → AddrPort → Option (ℕ × List ℕ)
write_addr_from_addr_port b a =
    if is_4 a.ip
    then (do
      b' ← put_at b 0 (atyp_ipv4 ∷ [])
      b2 ← put_at b' 1 (as_4 a.ip)
      b3 ← put_at b2 (1 + 4 + 2 - 2) (be16 a.port)
      some (1 + 4 + 2, b3))
    else (do
      b' ← put_at b 0 (atyp_ipv6 ∷ [])
      b2 ← put_at b' 1 (as_16 a.ip)
      b3 ← put_at b2 (1 + 16 + 2 - 2) (be16 a.port)
      some (1 + 16 + 2, b3))

-- `LengthOfAddrFromAddrPort`
unfoldable pub length_of_addr_from_addr_port : AddrPort → ℕ
length_of_addr_from_addr_port a = if is_4 a.ip then 1 + 4 + 2 else 1 + 16 + 2

-- `AppendAddrFromConnAddr`; `byte(len(domain))` keeps the low byte.
unfoldable pub append_addr_from_conn_addr : List ℕ → Addr → List ℕ
append_addr_from_conn_addr b none_addr = append_addr_from_addr_port b unspecified
append_addr_from_conn_addr b (ip_addr a) = append_addr_from_addr_port b a
append_addr_from_conn_addr b (domain_addr d p) =
    b ++ (atyp_domain_name ∷ (length d % 256) ∷ (d ++ be16 p))

-- `WriteAddrFromConnAddr`; `copy` writes as much as fits.
unfoldable pub write_addr_from_conn_addr : List ℕ → Addr → Option (ℕ × List ℕ)
write_addr_from_conn_addr b none_addr = write_addr_from_addr_port b unspecified
write_addr_from_conn_addr b (ip_addr a) = write_addr_from_addr_port b a
write_addr_from_conn_addr b (domain_addr d p) = do
  b' ← put_at b 0 (atyp_domain_name ∷ [])
  b2 ← put_at b' 1 ((length d % 256) ∷ [])
  b3 ← put_at (copy_at b2 2 d) (1 + 1 + length d) (be16 p)
  some (1 + 1 + length d + 2, b3)

-- `LengthOfAddrFromConnAddr`
unfoldable pub length_of_addr_from_conn_addr : Addr → ℕ
length_of_addr_from_conn_addr none_addr = 1 + 4 + 2
length_of_addr_from_conn_addr (ip_addr a) = length_of_addr_from_addr_port a
length_of_addr_from_conn_addr (domain_addr d p) = 1 + 1 + length d + 2

-- The errors of the readers of addresses.
pub data AddrError : Type 0 where
  too_short : ℕ → AddrError
  too_short_for : ℕ → ℕ → AddrError
  is_a_domain : AddrError
  invalid_atyp : ℕ → AddrError
  bad_domain_length : AddrError
  end_of_file : AddrError

pub data Result (A : Type 0) : Type 0 where
  ok : A → Result A
  err : AddrError → Result A

-- The address and length of a SOCKS address, with the error of `conn.AddrFromDomainPort`.
abbrev pub with_length : Option Addr → ℕ → Result (Addr × ℕ)
with_length none n = err bad_domain_length
with_length (some a) n = ok (a, n)

-- `AddrPortFromSlice`
unfoldable pub addr_port_from_slice : List ℕ → Result (AddrPort × ℕ)
addr_port_from_slice b =
    if ltb (length b) (1 + 4 + 2)
    then err (too_short (length b))
    else if get_or b 0 0 == atyp_ipv4
    then ok (record { ip = v4 (take 4 (drop 1 b)); port = from_be16 (drop (1 + 4) b) }, 1 + 4 + 2)
    else if get_or b 0 0 == atyp_ipv6
    then (if ltb (length b) (1 + 16 + 2)
        then err (too_short_for (length b) (get_or b 0 0))
        else ok (
          record { ip = v6 (take 16 (drop 1 b)) []; port = from_be16 (drop (1 + 16) b) },
          1 + 16 + 2,
        ))
    else if get_or b 0 0 == atyp_domain_name
    then err is_a_domain
    else err (invalid_atyp (get_or b 0 0))

-- `ConnAddrFromSlice`
unfoldable pub conn_addr_from_slice : List ℕ → Result (Addr × ℕ)
conn_addr_from_slice b =
    if ltb (length b) 2
    then err (too_short (length b))
    else let n = get_or b 1 0 in
      if get_or b 0 0 == atyp_domain_name
      then (if ltb (length b) (1 + 1 + n + 2)
          then err (too_short_for (length b) (get_or b 0 0))
          else with_length (addr_from_domain_port (take n (drop 2 b)) (from_be16 (drop (2 + n) b)))
              (2 + n + 2))
      else if get_or b 0 0 == atyp_ipv4
      then (if ltb (length b) (1 + 4 + 2)
          then err (too_short_for (length b) (get_or b 0 0))
          else ok (
            addr_from_ip_port
                (record { ip = v4 (take 4 (drop 1 b)); port = from_be16 (drop (1 + 4) b) }),
            1 + 4 + 2,
          ))
      else if get_or b 0 0 == atyp_ipv6
      then (if ltb (length b) (1 + 16 + 2)
          then err (too_short_for (length b) (get_or b 0 0))
          else ok (
            addr_from_ip_port
                (record { ip = v6 (take 16 (drop 1 b)) []; port = from_be16 (drop (1 + 16) b) }),
            1 + 16 + 2,
          ))
      else err (invalid_atyp (get_or b 0 0))

-- `ConnAddrFromSliceWithDomainCache`: the result and the updated cache.
unfoldable pub conn_addr_from_slice_with_domain_cache : List ℕ → List ℕ → Result (Addr × ℕ) × List ℕ
conn_addr_from_slice_with_domain_cache b cached =
    if ltb (length b) 2
    then (err (too_short (length b)), cached)
    else let n = get_or b 1 0 in
      if get_or b 0 0 == atyp_domain_name
      then (if ltb (length b) (1 + 1 + n + 2)
          then (err (too_short_for (length b) (get_or b 0 0)), cached)
          else let domain = take n (drop 2 b) in
            let cached' = if bytes_eq cached domain then cached else domain in
            (
              with_length (addr_from_domain_port cached' (from_be16 (drop (2 + n) b))) (2 + n + 2),
              cached',
            ))
      else if get_or b 0 0 == atyp_ipv4
      then (if ltb (length b) (1 + 4 + 2)
          then (err (too_short_for (length b) (get_or b 0 0)), cached)
          else (
            ok (
              addr_from_ip_port
                  (record { ip = v4 (take 4 (drop 1 b)); port = from_be16 (drop (1 + 4) b) }),
              1 + 4 + 2,
            ),
            cached,
          ))
      else if get_or b 0 0 == atyp_ipv6
      then (if ltb (length b) (1 + 16 + 2)
          then (err (too_short_for (length b) (get_or b 0 0)), cached)
          else (
            ok (
              addr_from_ip_port
                  (record { ip = v6 (take 16 (drop 1 b)) []; port = from_be16 (drop (1 + 16) b) }),
              1 + 16 + 2,
            ),
            cached,
          ))
      else (err (invalid_atyp (get_or b 0 0)), cached)

-- `io.ReadFull` of n bytes from a reader that holds these bytes: what it reads and what is left, or
-- its error.
unfoldable pub read_full : ℕ → List ℕ → Result (List ℕ × List ℕ)
read_full n r = if ltb (length r) n then err end_of_file else ok (take n r, drop n r)

-- `addrLen` by ATYP and the byte behind it; `none` for an unknown ATYP.
unfoldable pub addr_len : ℕ → ℕ → Option ℕ
addr_len atyp n =
    if atyp == atyp_domain_name
    then some (1 + 1 + n + 2)
    else if atyp == atyp_ipv4
    then some (1 + 4 + 2)
    else if atyp == atyp_ipv6
    then some (1 + 16 + 2)
    else none

-- `AppendFromReader`: the buffer with the address, and what the reader holds then.
unfoldable pub append_from_reader : List ℕ → List ℕ → Result (List ℕ × List ℕ)
append_from_reader b r = elim (read_full 2 r) [
  | err e ↦ err e
  | ok (out, r') ↦ elim (addr_len (get_or out 0 0) (get_or out 1 0)) [
    | none ↦ err (invalid_atyp (get_or out 0 0))
    | some n ↦ elim (read_full (n - 2) r') [
      | err e ↦ err e
      | ok (rest, r'') ↦ ok (b ++ (out ++ rest), r'')
    ]
  ]
]

-- `ConnAddrFromReader`: the address, and what the reader holds then.
unfoldable pub conn_addr_from_reader : List ℕ → Result (Addr × List ℕ)
conn_addr_from_reader r = elim (read_full 2 r) [
  | err e ↦ err e
  | ok (b, r') ↦
      let n = get_or b 1 0 in
      if get_or b 0 0 == atyp_domain_name
      then elim (read_full (n + 2) r') [
        | err e ↦ err e
        | ok (b1, r'') ↦ elim (addr_from_domain_port (take n b1) (from_be16 (drop n b1))) [
          | none ↦ err bad_domain_length
          | some a ↦ ok (a, r'')
        ]
      ]
      else if get_or b 0 0 == atyp_ipv4
      then elim (read_full (4 + 2 - 1) r') [
        | err e ↦ err e
        | ok (b1, r'') ↦ ok (
          addr_from_ip_port
              (record { ip = v4 (take 4 (n ∷ b1)); port = from_be16 (drop 4 (n ∷ b1)) }),
          r'',
        )
      ]
      else if get_or b 0 0 == atyp_ipv6
      then elim (read_full (16 + 2 - 1) r') [
        | err e ↦ err e
        | ok (b1, r'') ↦ ok (
          addr_from_ip_port
              (record { ip = v6 (take 16 (n ∷ b1)) []; port = from_be16 (drop 16 (n ∷ b1)) }),
          r'',
        )
      ]
      else err (invalid_atyp (get_or b 0 0))
]

-- `WritePacketHeader`
unfoldable pub write_packet_header : List ℕ → Option (List ℕ)
write_packet_header b = do b' ← put_at b 0 (0 ∷ []); b2 ← put_at b' 1 (0 ∷ []); put_at b2 2 (0 ∷ [])

-- `ValidatePacketHeader`; false for `ErrFragmentationNotSupported`, `none` for a buffer too short.
unfoldable pub validate_packet_header : List ℕ → Option Bool
validate_packet_header b = if ltb 2 (length b) then some (get_or b 2 0 == 0) else none
