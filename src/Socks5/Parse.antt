-- ===== src/Socks5/Parse.antt =====
-- Reading back what was written, and what the variants of the reader have in common.
use shadowsocks.Base.{
  ℕ, suc, ◌+◌, ◌%◌, ◌≤◌, ◌<◌, ◌^◌, ◌≡◌, refl, ap, ap₂, ◌∙◌, List, [], ◌∷◌, ◌++◌, some, arith,
  if◌then◌else◌, length, length-append, drop, take, append_assoc, Bool-cases, inl, inr, take_exact,
  drop_exact, bytes_eq_sound, le→ltb, get_or,
}
use shadowsocks.Base.Bytes.{be16, from_be16, from_be16-be16}
use shadowsocks.Addr.{
  Ip, v4, v6, IsIp, is_4, as_4, as_16, AddrPort, Addr, none_addr, ip_addr, domain_addr,
  addr_from_ip_port, addr_from_domain_port,
}
use shadowsocks.Socks5.{
  unspecified, append_addr_from_addr_port, append_addr_from_conn_addr,
  length_of_addr_from_conn_addr, length_of_addr_from_addr_port, ok, with_length,
  addr_port_from_slice, conn_addr_from_slice, conn_addr_from_slice_with_domain_cache,
}
use shadowsocks.Socks5.Write.{IsAddr, length-as_4, length-as_16}

-- The address that the format can carry: an IPv4-mapped address becomes its IPv4 address, a zone is
-- dropped, and the zero values become `0.0.0.0:0` and `::`.
unfoldable pub canonical_ip : Ip → Ip
canonical_ip ip = if is_4 ip then v4 (as_4 ip) else v6 (as_16 ip) []

unfoldable pub canonical : Addr → Addr
canonical none_addr = ip_addr unspecified
canonical (ip_addr a) = ip_addr (record a { ip = canonical_ip a.ip })
canonical (domain_addr d p) = domain_addr d p

-- An IP with its port, as the readers see it.
ip_fields :
    (n : ℕ) (ip : List ℕ) (p : ℕ) (rest : List ℕ)
    → length ip ≡ n
    → p < 2 ^ 16
    → (take n ((ip ++ be16 p) ++ rest) ≡ ip) × (from_be16 (drop n ((ip ++ be16 p) ++ rest)) ≡ p)
ip_fields n ip p rest e h = rw append_assoc (
  take_exact n ip (be16 p ++ rest) e,
  ap from_be16 (drop_exact n ip (be16 p ++ rest) e) ∙ from_be16-be16 p rest h,
)

length_fields :
    (ip : List ℕ) (p : ℕ) (rest : List ℕ)
    → length ((ip ++ be16 p) ++ rest) ≡ length ip + 2 + length rest
length_fields ip p rest =
    omega (arith, length-append (ip ++ be16 p) rest, length-append ip (be16 p))

abbrev v4_at : List ℕ → ℕ → AddrPort
v4_at ip p = record { ip = v4 ip; port = p }

abbrev v6_at : List ℕ → ℕ → AddrPort
v6_at ip p = record { ip = v6 ip []; port = p }

-- `AddrPortFromSlice` reads back what was written for an address and port, and its length, whatever
-- follows; an IPv4-mapped address comes back as IPv4, and a zone is lost.
pub addr_port_from_slice-append :
    (a : AddrPort) (rest : List ℕ)
    → IsIp a.ip
    → a.port < 2 ^ 16
    → addr_port_from_slice (append_addr_from_addr_port [] a ++ rest)
      ≡ ok (record a { ip = canonical_ip a.ip }, length_of_addr_from_addr_port a)
unfolding addr_port_from_slice append_addr_from_addr_port length_of_addr_from_addr_port canonical_ip
addr_port_from_slice-append a rest v h = elim (Bool-cases (is_4 a.ip)) [
  | inl four ↦
      let ip : List ℕ = as_4 a.ip in
      let len : length ip ≡ 4 = length-as_4 a.ip v four in
      let f = ip_fields 4 ip a.port rest len h in
      rw
        (
          four,
          le→ltb (suc (length ((ip ++ be16 a.port) ++ rest))) 7
              (omega (arith, length_fields ip a.port rest)),
        )
        (ap₂ (λ x y. ok (v4_at x y, 7)) f.0 f.1)
  | inr six ↦
      let ip : List ℕ = as_16 a.ip in
      let len : length ip ≡ 16 = length-as_16 a.ip v in
      let f = ip_fields 16 ip a.port rest len h in
      let l : ℕ = suc (length ((ip ++ be16 a.port) ++ rest)) in
      rw
        (
          six,
          le→ltb l 7 (omega (arith, length_fields ip a.port rest)),
          le→ltb l 19 (omega (arith, length_fields ip a.port rest)),
        )
        (ap₂ (λ x y. ok (v6_at x y, 19)) f.0 f.1)
]

ip_from_slice :
    (a : AddrPort) (rest : List ℕ)
    → IsIp a.ip
    → a.port < 2 ^ 16
    → conn_addr_from_slice (append_addr_from_addr_port [] a ++ rest)
      ≡ ok (ip_addr (record a { ip = canonical_ip a.ip }), length_of_addr_from_addr_port a)
unfolding conn_addr_from_slice append_addr_from_addr_port length_of_addr_from_addr_port canonical_ip
    addr_from_ip_port
ip_from_slice a rest v h = elim (Bool-cases (is_4 a.ip)) [
  | inl four ↦
      let ip : List ℕ = as_4 a.ip in
      let len : length ip ≡ 4 = length-as_4 a.ip v four in
      let f = ip_fields 4 ip a.port rest len h in
      let l : ℕ = suc (length ((ip ++ be16 a.port) ++ rest)) in
      rw
        (
          four,
          le→ltb l 2 (omega (arith, length_fields ip a.port rest)),
          le→ltb l 7 (omega (arith, length_fields ip a.port rest)),
        )
        (ap₂ (λ x y. ok (ip_addr (v4_at x y), 7)) f.0 f.1)
  | inr six ↦
      let ip : List ℕ = as_16 a.ip in
      let len : length ip ≡ 16 = length-as_16 a.ip v in
      let f = ip_fields 16 ip a.port rest len h in
      let l : ℕ = suc (length ((ip ++ be16 a.port) ++ rest)) in
      rw
        (
          six,
          le→ltb l 2 (omega (arith, length_fields ip a.port rest)),
          le→ltb l 19 (omega (arith, length_fields ip a.port rest)),
        )
        (ap₂ (λ x y. ok (ip_addr (v6_at x y), 19)) f.0 f.1)
]

addr_from_domain_port_lem :
    (d : List ℕ) (p : ℕ)
    → 1 ≤ length d
    → length d ≤ 255
    → addr_from_domain_port d p ≡ some (domain_addr d p)
unfolding addr_from_domain_port
addr_from_domain_port_lem d p lo hi = ground arith

domain_from_slice :
    (d : List ℕ) (p : ℕ) (rest : List ℕ)
    → 1 ≤ length d
    → length d ≤ 255
    → p < 2 ^ 16
    → conn_addr_from_slice (append_addr_from_conn_addr [] (domain_addr d p) ++ rest)
      ≡ ok (domain_addr d p, 2 + length d + 2)
unfolding conn_addr_from_slice append_addr_from_conn_addr
domain_from_slice d p rest lo hi h =
    let f = ip_fields (length d) d p rest refl h in
    let l : ℕ = suc (suc (length ((d ++ be16 p) ++ rest))) in
    let byte : length d % 256 ≡ length d = omega arith in
    rw
      (
        byte,
        le→ltb l 2 (omega arith),
        le→ltb l (1 + 1 + length d + 2) (omega (arith, length_fields d p rest)),
      )
      (ap₂ (λ x y. with_length (addr_from_domain_port x y) (2 + length d + 2)) f.0
          (ap (λ k. from_be16 (drop k (3 ∷ length d ∷ ((d ++ be16 p) ++ rest)))) {x = 2 + length d}
              {y = suc (suc (length d))} (omega arith)
            ∙ f.1)
        ∙ ap (λ o. with_length o (2 + length d + 2)) (addr_from_domain_port_lem d p lo hi))

-- `ConnAddrFromSlice` reads back what was written for an address, and its length, whatever follows:
-- an IPv4-mapped address comes back as IPv4, a zone is lost, and the zero value is `0.0.0.0:0`.
pub conn_addr_from_slice-append :
    (a : Addr) (rest : List ℕ)
    → IsAddr a
    → conn_addr_from_slice (append_addr_from_conn_addr [] a ++ rest)
      ≡ ok (canonical a, length_of_addr_from_conn_addr a)
unfolding append_addr_from_conn_addr canonical length_of_addr_from_conn_addr
conn_addr_from_slice-append none_addr rest v =
    unfold canonical_ip is_4 as_4 length_of_addr_from_addr_port in
    ip_from_slice unspecified rest (omega arith) (omega arith)
conn_addr_from_slice-append (ip_addr a) rest v = ip_from_slice a rest v.0 v.1
conn_addr_from_slice-append (domain_addr d p) rest v = domain_from_slice d p rest v.0 v.1 v.2

-- `ConnAddrFromSliceWithDomainCache` gives the result of `ConnAddrFromSlice` on every slice and cache.
pub conn_addr_from_slice_with_domain_cache_lem :
    (b cached : List ℕ)
    → (conn_addr_from_slice_with_domain_cache b cached).0 ≡ conn_addr_from_slice b
unfolding conn_addr_from_slice_with_domain_cache conn_addr_from_slice
conn_addr_from_slice_with_domain_cache_lem b cached =
    ground (arith, bytes_eq_sound cached (take (get_or b 1 0) (drop 2 b)))

-- What the readers accept lies inside the slice: the length returned is at most the slice's.
pub conn_addr_from_slice_bound :
    (b : List ℕ) (a : Addr) (n : ℕ) → conn_addr_from_slice b ≡ ok (a, n) → n ≤ length b
unfolding conn_addr_from_slice
conn_addr_from_slice_bound b a n e = ground arith

pub addr_port_from_slice_bound :
    (b : List ℕ) (a : AddrPort) (n : ℕ) → addr_port_from_slice b ≡ ok (a, n) → n ≤ length b
unfolding addr_port_from_slice
addr_port_from_slice_bound b a n e = ground arith
