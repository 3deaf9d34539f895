-- ===== src/Header.antt =====
-- ss2022/header.go: the headers of Shadowsocks 2022 streams and packets. The system time is an
-- argument, in seconds since the epoch. An index past a buffer panics, which is `none` of the writers;
-- the parsers that check no length are given a buffer that is long enough.
pub mod Stream
pub mod Response
pub mod Packet
pub mod ServerPacket
mod Examples
use shadowsocks.Base.{
  ℕ, zero, suc, ◌+◌, ◌-◌, ◌*◌, ◌%◌, ◌/◌, ◌^◌, Bool, true, false, List, [], ◌∷◌, ◌++◌, Option, none,
  some, ltb, leb, ◌==◌, if◌then◌else◌, length, get_or, take, drop, copy_at, bytes_eq,
}
use shadowsocks.Base.Bytes.{be, from_be, be16, from_be16, put_at, ◌>>=◌}
use shadowsocks.Addr.{Addr, AddrPort}
use shadowsocks.Socks5.{
  AddrError, Result, ok, err, conn_addr_from_slice, conn_addr_from_slice_with_domain_cache,
  addr_port_from_slice, write_addr_from_conn_addr, write_addr_from_addr_port,
}

abbrev pub header_type_client_stream : ℕ
header_type_client_stream = 0

abbrev pub header_type_server_stream : ℕ
header_type_server_stream = 1

abbrev pub header_type_client_packet : ℕ
header_type_client_packet = 0

abbrev pub header_type_server_packet : ℕ
header_type_server_packet = 1

abbrev pub max_epoch_diff : ℕ
max_epoch_diff = 30

-- The errors of the parsers; `HeaderError` carries what was received.
pub data Fault : Type 0 where
  type_mismatch : ℕ → Fault
  bad_timestamp : ℕ → Fault
  incomplete_header_in_first_chunk : Fault
  padding_exceed_chunk_border : Fault
  client_salt_mismatch : Fault
  client_session_id_mismatch : ℕ → Fault
  packet_incomplete_header : Fault
  bad_address : AddrError → Fault

pub data Parsed (A : Type 0) : Type 0 where
  parsed : A → Parsed A
  fault : Fault → Parsed A

abbrev pub and_then : {A B : Type 0} → Parsed A → (A → Parsed B) → Parsed B
and_then (parsed a) f = f a
and_then (fault e) f = fault e

-- `ValidateUnixEpochTimestamp`: `diff` is the difference of two `int64`, as its bit pattern; it is
-- accepted from -30 to 30.
unfoldable pub validate_timestamp : ℕ → List ℕ → Parsed (Unit {0})
validate_timestamp now b =
    let diff = (from_be 8 b + 2 ^ 64 - now) % 2 ^ 64 in
    if leb diff max_epoch_diff
    then parsed tt
    else if leb (2 ^ 64 - max_epoch_diff) diff
    then parsed tt
    else fault (bad_timestamp (from_be 8 b))

-- `intToUint16` panics on what does not fit.
abbrev pub int_to_uint16 : ℕ → Option ℕ
int_to_uint16 i = if ltb i (2 ^ 16) then some i else none

-- `ParseTCPRequestFixedLengthHeader`
unfoldable pub parse_tcp_request_fixed_length_header : ℕ → List ℕ → Parsed ℕ
parse_tcp_request_fixed_length_header now b =
    if get_or b 0 0 == header_type_client_stream
    then and_then (validate_timestamp now (drop 1 b)) (λ _. parsed (from_be16 (drop (1 + 8) b)))
    else fault (type_mismatch (get_or b 0 0))

-- `WriteTCPRequestFixedLengthHeader`
unfoldable pub write_tcp_request_fixed_length_header : ℕ → List ℕ → ℕ → Option (List ℕ)
write_tcp_request_fixed_length_header now b n = do
  b1 ← put_at b 0 (header_type_client_stream ∷ [])
  b2 ← put_at b1 1 (be 8 now)
  b3 ← put_at b2 (1 + 8) (be16 n)
  some b3

-- `ParseTCPRequestVariableLengthHeader`, behind the SOCKS address.
unfoldable pub parse_padding : Addr → List ℕ → Parsed (Addr × List ℕ)
parse_padding target b =
    if leb (length b) 2
    then fault incomplete_header_in_first_chunk
    else if ltb (length b) (2 + from_be16 b)
    then fault padding_exceed_chunk_border
    else parsed (target, drop (2 + from_be16 b) b)

-- `ParseTCPRequestVariableLengthHeader`
unfoldable pub parse_tcp_request_variable_length_header : List ℕ → Parsed (Addr × List ℕ)
parse_tcp_request_variable_length_header b = elim (conn_addr_from_slice b) [
  | err e ↦ fault (bad_address e)
  | ok (target, n) ↦ parse_padding target (drop n b)
]

-- `WriteTCPRequestVariableLengthHeader`; a negative padding length panics in `intToUint16`.
unfoldable pub write_tcp_request_variable_length_header : List ℕ → Addr → List ℕ → Option (List ℕ)
write_tcp_request_variable_length_header b target payload = do
  (n, b1) ← write_addr_from_conn_addr b target
  padding_len ←
      (if ltb (length b) (n + 2 + length payload)
        then none
        else int_to_uint16 (length b - n - 2 - length payload))
  b2 ← put_at b1 n (be16 padding_len)
  some (copy_at b2 (n + (2 + padding_len)) payload)

-- `ParseTCPResponseHeader`
unfoldable pub parse_tcp_response_header : ℕ → List ℕ → List ℕ → Parsed ℕ
parse_tcp_response_header now b request_salt =
    if get_or b 0 0 == header_type_server_stream
    then and_then (validate_timestamp now (take 8 (drop 1 b))) (λ _.
      if bytes_eq request_salt (take (length request_salt) (drop (1 + 8) b))
      then parsed (from_be16 (drop (1 + 8 + length request_salt) b))
      else fault client_salt_mismatch)
    else fault (type_mismatch (get_or b 0 0))

-- `WriteTCPResponseHeader`
unfoldable pub write_tcp_response_header : ℕ → List ℕ → List ℕ → ℕ → Option (List ℕ)
write_tcp_response_header now b request_salt n = do
  b1 ← put_at b 0 (header_type_server_stream ∷ [])
  b2 ← put_at b1 1 (be 8 now)
  put_at (copy_at b2 (1 + 8) request_salt) (1 + 8 + length request_salt) (be16 n)

-- `ParseSessionIDAndPacketID`
unfoldable pub parse_session_id_and_packet_id : List ℕ → ℕ × ℕ
parse_session_id_and_packet_id b = (from_be 8 b, from_be 8 (drop 8 b))

-- `WriteSessionIDAndPacketID`
unfoldable pub write_session_id_and_packet_id : List ℕ → ℕ → ℕ → Option (List ℕ)
write_session_id_and_packet_id b sid pid = do b1 ← put_at b 0 (be 8 sid); put_at b1 8 (be 8 pid)

abbrev pub udp_client_message_header_fixed_length : ℕ
udp_client_message_header_fixed_length = 1 + 8 + 2

abbrev pub udp_server_message_header_fixed_length : ℕ
udp_server_message_header_fixed_length = 1 + 8 + 8 + 2

-- What a packet's parser returns: the address, the payload's start and the payload's length.
pub record Message (A : Type 0) : Type 0 where
  pub address : A
  pub payload_start : ℕ
  pub payload_len : ℕ

-- The end of both packet parsers: an address of n bytes was read at the offset.
abbrev pub message_at : {A : Type 0} → List ℕ → ℕ → Result (A × ℕ) → Parsed (Message A)
message_at b start (err e) = fault (bad_address e)
message_at b start (ok (a, n)) =
    parsed (record { address = a; payload_start = start + n; payload_len = length b - (start + n) })

-- `ParseUDPClientMessageHeader`: the result and the updated domain cache.
unfoldable pub parse_udp_client_message_header :
    ℕ → List ℕ → List ℕ → Parsed (Message Addr) × List ℕ
parse_udp_client_message_header now b cached =
    if ltb (length b) udp_client_message_header_fixed_length
    then (fault packet_incomplete_header, cached)
    else if get_or b 0 0 == header_type_client_packet
    then elim (validate_timestamp now (take 8 (drop 1 b))) [
      | fault e ↦ (fault e, cached)
      | parsed _ ↦
          let start = udp_client_message_header_fixed_length + from_be16 (drop (1 + 8) b) in
          if ltb (length b) start
          then (fault packet_incomplete_header, cached)
          else let (r, cached') = conn_addr_from_slice_with_domain_cache (drop start b) cached in
            (message_at b start r, cached')
    ]
    else (fault (type_mismatch (get_or b 0 0)), cached)

-- A write into `b[start:]`.
abbrev pub write_behind : ℕ → (List ℕ → Option (ℕ × List ℕ)) → List ℕ → Option (List ℕ)
write_behind start write b =
    if ltb (length b) start
    then none
    else (do (n, b1) ← write (drop start b); some (take start b ++ b1))

-- `WriteUDPClientMessageHeader`
unfoldable pub write_udp_client_message_header : ℕ → List ℕ → ℕ → Addr → Option (List ℕ)
write_udp_client_message_header now b padding_len target = do
  b1 ← put_at b 0 (header_type_client_packet ∷ [])
  b2 ← put_at b1 1 (be 8 now)
  n ← int_to_uint16 padding_len
  b3 ← put_at b2 (1 + 8) (be16 n)
  write_behind (1 + 8 + 2 + padding_len) (λ s. write_addr_from_conn_addr s target) b3

-- `ParseUDPServerMessageHeader`
unfoldable pub parse_udp_server_message_header : ℕ → List ℕ → ℕ → Parsed (Message AddrPort)
parse_udp_server_message_header now b csid =
    if ltb (length b) udp_server_message_header_fixed_length
    then fault packet_incomplete_header
    else if get_or b 0 0 == header_type_server_packet
    then and_then (validate_timestamp now (take 8 (drop 1 b))) (λ _.
      let pcsid = from_be 8 (drop (1 + 8) b) in
      if pcsid == csid
      then (let start = udp_server_message_header_fixed_length + from_be16 (drop (1 + 8 + 8) b) in
          if ltb (length b) start
          then fault packet_incomplete_header
          else message_at b start (addr_port_from_slice (drop start b)))
      else fault (client_session_id_mismatch pcsid))
    else fault (type_mismatch (get_or b 0 0))

-- `WriteUDPServerMessageHeader`
unfoldable pub write_udp_server_message_header : ℕ → List ℕ → ℕ → ℕ → AddrPort → Option (List ℕ)
write_udp_server_message_header now b csid padding_len source = do
  b1 ← put_at b 0 (header_type_server_packet ∷ [])
  b2 ← put_at b1 1 (be 8 now)
  b3 ← put_at b2 (1 + 8) (be 8 csid)
  n ← int_to_uint16 padding_len
  b4 ← put_at b3 (1 + 8 + 8) (be16 n)
  write_behind (1 + 8 + 8 + 2 + padding_len) (λ s. write_addr_from_addr_port s source) b4
