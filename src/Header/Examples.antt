-- ===== src/Header/Examples.antt =====
-- Headers at concrete times and buffers.
use shadowsocks.Base.{
  ℕ, suc, ◌+◌, ◌-◌, ◌^◌, ◌≤◌, ◌<◌, ◌≡◌, refl, ◌↔◌, List, [], ◌∷◌, ◌++◌, Option, some, arith, length,
}
use shadowsocks.Base.Bytes.{be}
use shadowsocks.Addr.{Addr, domain_addr, AddrPort, v4, is_4}
use shadowsocks.Socks5.{length_of_addr_from_conn_addr, length_of_addr_from_addr_port}
use shadowsocks.Socks5.Parse.{canonical, canonical_ip}
use shadowsocks.Header.{
  parse_udp_server_message_header, write_udp_server_message_header, parse_udp_client_message_header,
  write_udp_client_message_header, parsed, fault, type_mismatch, bad_timestamp, validate_timestamp,
  parse_tcp_request_fixed_length_header, write_tcp_request_fixed_length_header,
  parse_tcp_request_variable_length_header, write_tcp_request_variable_length_header,
  parse_tcp_response_header, write_tcp_response_header,
}
use shadowsocks.Header.Packet.{parse-write_udp_client}
use shadowsocks.Header.ServerPacket.{parse-write_udp_server}
use shadowsocks.Header.Response.{parse-write_response}
use shadowsocks.Header.Stream.{
  Near, validate_timestamp_iff, parse-write_request_fixed, parse-write_request_variable,
}

abbrev buffer : List ℕ
buffer = 1 ∷ 2 ∷ 3 ∷ 4 ∷ 5 ∷ 6 ∷ 7 ∷ 8 ∷ 9 ∷ 10 ∷ 11 ∷ 12 ∷ 13 ∷ 14 ∷ 15 ∷ 16 ∷ 17 ∷ 18 ∷ []

abbrev target : Addr
target = domain_addr (97 ∷ 46 ∷ 98 ∷ []) 443

parse-late :
    parse_tcp_request_fixed_length_header 1031 (0 ∷ (be 8 1000 ++ (4 ∷ 5 ∷ [])))
    ≡ fault (bad_timestamp 1000)
unfolding parse_tcp_request_fixed_length_header validate_timestamp be shadowsocks.Base.Bytes.from_be
parse-late = refl

parse-mismatch : parse_tcp_request_fixed_length_header 0 buffer ≡ fault (type_mismatch 1)
unfolding parse_tcp_request_fixed_length_header
parse-mismatch = refl

validate_timestamp_iff_example :
    (validate_timestamp 1031 (be 8 1000 ++ []) ≡ parsed tt) ↔ Near 1000 1031
validate_timestamp_iff_example = validate_timestamp_iff 1000 1031 [] (omega arith) (omega arith)

parse-write_request_fixed_example :
    (b' : List ℕ) × (write_tcp_request_fixed_length_header 1000 buffer 300 ≡ some b')
    × (parse_tcp_request_fixed_length_header 1030 b' ≡ parsed 300)
parse-write_request_fixed_example =
    parse-write_request_fixed 1000 1030 buffer 300 (omega arith) (omega arith) (omega arith)
      (omega arith) (omega arith)

parse-write_request_variable_example :
    (b' : List ℕ) × (write_tcp_request_variable_length_header buffer target (7 ∷ 8 ∷ []) ≡ some b')
    × (parse_tcp_request_variable_length_header b' ≡ parsed (canonical target, 7 ∷ 8 ∷ []))
unfolding length_of_addr_from_conn_addr
parse-write_request_variable_example =
    parse-write_request_variable buffer target (7 ∷ 8 ∷ [])
      ((omega arith, omega arith, omega arith)) (omega arith) (omega arith) (omega arith)

parse-write_response_example :
    (b' : List ℕ) × (write_tcp_response_header 1000 buffer (21 ∷ 22 ∷ []) 300 ≡ some b')
    × (parse_tcp_response_header 1030 b' (21 ∷ 22 ∷ []) ≡ parsed 300)
parse-write_response_example =
    parse-write_response 1000 1030 buffer (21 ∷ 22 ∷ []) 300 (omega arith) (omega arith)
      (omega arith) (omega arith) (omega arith)

parse-write_udp_client_example :
    (b' : List ℕ) × (write_udp_client_message_header 1000 buffer 0 target ≡ some b')
    × ((parse_udp_client_message_header 1030 b' []).0
        ≡ parsed (record {
          address = canonical target;
          payload_start = 11 + 0 + length_of_addr_from_conn_addr target;
          payload_len = length b' - (11 + 0 + length_of_addr_from_conn_addr target);
        }))
unfolding length_of_addr_from_conn_addr
parse-write_udp_client_example =
    parse-write_udp_client 1000 1030 [] buffer 0 target (omega arith) (omega arith) (omega arith)
      (omega arith) (omega arith, omega arith, omega arith) (omega arith)

abbrev source : AddrPort
source = record { ip = v4 (192 ∷ 0 ∷ 2 ∷ 1 ∷ []); port = 53 }

parse-write_udp_server_example :
    (b' : List ℕ) × (write_udp_server_message_header 1000 (buffer ++ buffer) 77 2 source ≡ some b')
    × (parse_udp_server_message_header 1030 b' 77
        ≡ parsed (record {
          address = record source { ip = canonical_ip source.ip };
          payload_start = 19 + 2 + length_of_addr_from_addr_port source;
          payload_len = length b' - (19 + 2 + length_of_addr_from_addr_port source);
        }))
unfolding length_of_addr_from_addr_port is_4
parse-write_udp_server_example =
    parse-write_udp_server 1000 1030 77 (buffer ++ buffer) 2 source (omega arith) (omega arith)
      (omega arith) (omega arith) (omega arith) (omega arith) (omega arith) (omega arith)
