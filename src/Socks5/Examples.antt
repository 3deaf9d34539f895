-- ===== src/Socks5/Examples.antt =====
-- SOCKS addresses at concrete bytes.
use shadowsocks.Base.{ℕ, ◌≤◌, ◌≡◌, refl, List, [], ◌∷◌, ◌++◌, arith, replicate, take, drop}
use shadowsocks.Addr.{v4, AddrPort, Addr, domain_addr, addr_from_domain_port}
use shadowsocks.Socks5.{
  ok, append_addr_from_addr_port, append_addr_from_conn_addr, write_addr_from_conn_addr,
  length_of_addr_from_addr_port, length_of_addr_from_conn_addr, addr_port_from_slice,
  conn_addr_from_slice, conn_addr_from_reader, append_from_reader,
}
use shadowsocks.Socks5.Write.{Writes, write_addr_from_conn_addr_lem}
use shadowsocks.Socks5.Parse.{
  canonical, canonical_ip, addr_port_from_slice-append, conn_addr_from_slice-append,
}
use shadowsocks.Socks5.Reader.{conn_addr_from_reader_lem, append_from_reader_lem}

abbrev site : Addr
site = domain_addr (b'a' ∷ b'.' ∷ b'b' ∷ []) 443

abbrev endpoint : AddrPort
endpoint = record { ip = v4 (1 ∷ 2 ∷ 3 ∷ 4 ∷ []); port = 53 }

abbrev site_bytes : List ℕ
site_bytes = 3 ∷ 3 ∷ b'a' ∷ b'.' ∷ b'b' ∷ 1 ∷ 187 ∷ []

append-site : append_addr_from_conn_addr [] site ≡ site_bytes
unfolding append_addr_from_conn_addr
append-site = refl

site_read : conn_addr_from_slice (site_bytes ++ (9 ∷ [])) ≡ ok (site, 7)
unfolding conn_addr_from_slice addr_from_domain_port
site_read = refl

write_addr_from_conn_addr_lem_example :
    Writes
      (write_addr_from_conn_addr (replicate 9 0) site)
      (replicate 9 0)
      (length_of_addr_from_conn_addr site)
      (append_addr_from_conn_addr [] site)
write_addr_from_conn_addr_lem_example =
    write_addr_from_conn_addr_lem (replicate 9 0) site (omega arith) long_enough
  where
    long_enough : length_of_addr_from_conn_addr site ≤ 9
    long_enough = unfold length_of_addr_from_conn_addr in omega arith

addr_port_from_slice-append_example :
    addr_port_from_slice (append_addr_from_addr_port [] endpoint ++ (9 ∷ []))
    ≡ ok (record endpoint { ip = canonical_ip endpoint.ip }, length_of_addr_from_addr_port endpoint)
addr_port_from_slice-append_example =
    addr_port_from_slice-append endpoint (9 ∷ []) (omega arith) (omega arith)

conn_addr_from_slice-append_example :
    conn_addr_from_slice (append_addr_from_conn_addr [] site ++ (9 ∷ []))
    ≡ ok (canonical site, length_of_addr_from_conn_addr site)
conn_addr_from_slice-append_example = conn_addr_from_slice-append site (9 ∷ []) (omega arith)

conn_addr_from_reader_lem_example :
    conn_addr_from_reader (site_bytes ++ (9 ∷ [])) ≡ ok (site, drop 7 (site_bytes ++ (9 ∷ [])))
conn_addr_from_reader_lem_example =
    conn_addr_from_reader_lem (site_bytes ++ (9 ∷ [])) site 7 site_read

append_from_reader_lem_example :
    append_from_reader (5 ∷ []) (site_bytes ++ (9 ∷ []))
    ≡ ok ((5 ∷ []) ++ take 7 (site_bytes ++ (9 ∷ [])), drop 7 (site_bytes ++ (9 ∷ [])))
append_from_reader_lem_example =
    append_from_reader_lem (5 ∷ []) (site_bytes ++ (9 ∷ [])) site 7 site_read
