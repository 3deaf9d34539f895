-- ===== src/Header/ServerPacket.antt =====
-- The round trip of the header of a packet from a server.
use shadowsocks.Base.{
  ℕ, ◌+◌, ◌-◌, ◌^◌, ◌≤◌, ◌<◌, ◌≡◌, refl, sym, ap, subst, ◌∙◌, List, [], ◌∷◌, ◌++◌, some, arith,
  ==_iff, length, length-append, length-drop, length-take_of_le, take, drop, take_exact, drop_exact,
  drop_past, append-nil, append_assoc, le→ltb, lt→ltb,
}
use shadowsocks.Base.Bytes.{
  be, from_be, from_be-be, be16, from_be16, from_be16-be16, length-be, put_at, put_at-append,
}
use shadowsocks.Addr.{AddrPort, IsIp}
use shadowsocks.Socks5.{
  append_addr_from_addr_port, length_of_addr_from_addr_port, write_addr_from_addr_port,
}
use shadowsocks.Socks5.Write.{write_addr_from_addr_port_lem}
use shadowsocks.Socks5.Parse.{canonical_ip, addr_port_from_slice-append}
use shadowsocks.Header.{
  parsed, validate_timestamp, parse_udp_server_message_header, write_udp_server_message_header,
  write_behind,
}
use shadowsocks.Header.Stream.{Near, validate_timestamp_iff}
use shadowsocks.Header.Packet.{write_behind-append}

-- A packet header that a server wrote for a client's session is read back by that client when its clock
-- is within 30 seconds of the server's: the source address (an IPv4-mapped one as IPv4, with no zone),
-- and the payload behind the header. The padding fits 16 bits, and the buffer holds the header.
pub parse-write_udp_server :
    (sent now csid : ℕ) (b : List ℕ) (pad : ℕ) (source : AddrPort)
    → sent < 2 ^ 63
    → now < 2 ^ 63
    → Near sent now
    → csid < 2 ^ 64
    → pad < 2 ^ 16
    → IsIp source.ip
    → source.port < 2 ^ 16
    → 19 + pad + length_of_addr_from_addr_port source ≤ length b
    → (b' : List ℕ) × (write_udp_server_message_header sent b csid pad source ≡ some b')
      × (parse_udp_server_message_header now b' csid
          ≡ parsed (record {
            address = record source { ip = canonical_ip source.ip };
            payload_start = 19 + pad + length_of_addr_from_addr_port source;
            payload_len = length b' - (19 + pad + length_of_addr_from_addr_port source);
          }))
unfolding write_udp_server_message_header parse_udp_server_message_header
parse-write_udp_server sent now csid b pad source hs hn near hc hp v hport l =
    let n : ℕ = length_of_addr_from_addr_port source in
    let enc : List ℕ = append_addr_from_addr_port [] source in
    let time : List ℕ = be 8 sent in
    let id : List ℕ = be 8 csid in
    let front : List ℕ = 1 ∷ (time ++ id) in
    let lt : length time ≡ 8 = length-be 8 sent in
    let li : length id ≡ 8 = length-be 8 csid in
    let lf : length front ≡ 17 = omega (arith, lt, li, length-append time id) in
    let w : List ℕ = drop (length time) (drop 1 b) in
    let lw : length w ≡ length b - 1 - 8 =
      omega (arith, lt, length-drop (length time) (drop 1 b), length-drop 1 b) in
    let x : List ℕ = drop (length id) w in
    let lx : length x ≡ length w - 8 = omega (arith, li, length-drop (length id) w) in
    let z : List ℕ = drop 2 x in
    let lz : length z ≡ length x - 2 = length-drop 2 x in
    let g : List ℕ = front ++ be16 pad in
    let lg : length g ≡ 19 = omega (arith, lf, length-append front (be16 pad)) in
    let padding : List ℕ = take pad z in
    let lp : length padding ≡ pad = length-take_of_le pad z (omega arith) in
    let tail_ : List ℕ = drop pad z in
    let (wrote, le) =
      write_addr_from_addr_port_lem tail_ source v (omega (arith, length-drop pad z)) in
    let q : List ℕ = drop n tail_ in
    let b' : List ℕ = (g ++ padding) ++ (enc ++ q) in
    let behind_id : List ℕ = be16 pad ++ (padding ++ (enc ++ q)) in
    let ids : (1 ∷ time) ++ (id ++ x) ≡ front ++ x = sym (append_assoc (1 ∷ time) id x) in
    let second : put_at ((1 ∷ time) ++ w) 9 id ≡ some (front ++ x) =
      put_at-append (1 ∷ time) w id 9 (omega (arith, lt)) (omega (arith, li)) ∙ ap some ids in
    let third : write_behind (19 + pad) (λ s. write_addr_from_addr_port s source)
          (front ++ (be16 pad ++ z))
        ≡ some b' =
      subst (λ t. write_behind (19 + pad) (λ s. write_addr_from_addr_port s source) t ≡ some b')
        (append_assoc front (be16 pad) z)
        (write_behind-append g z (enc ++ q) 19 pad n (λ s. write_addr_from_addr_port s source) lg
          (omega arith) wrote) in
    let shape : b' ≡ 1 ∷ (time ++ (id ++ behind_id)) =
      append_assoc g padding (enc ++ q)
      ∙ append_assoc front (be16 pad) (padding ++ (enc ++ q))
      ∙ ap (λ t. 1 ∷ t) (append_assoc time id behind_id) in
    let long : 19 + pad ≤ length b' =
      omega (arith, length-append (g ++ padding) (enc ++ q), length-append g padding) in
    let stamp : take 8 (drop 1 b') ≡ time =
      ap (λ t. take 8 (drop 1 t)) shape ∙ take_exact 8 time (id ++ behind_id) lt in
    let session : from_be 8 (drop (1 + 8) b') ≡ csid =
      ap (λ t. from_be 8 (drop 9 t)) shape
      ∙ ap (from_be 8) (drop_exact 8 time (id ++ behind_id) lt)
      ∙ from_be-be 8 csid behind_id hc in
    let size : from_be16 (drop (1 + 8 + 8) b') ≡ pad =
      ap (λ t. from_be16 (drop 17 t)) shape
      ∙ ap from_be16
          (drop_past 8 8 16 time (id ++ behind_id) lt refl ∙ drop_exact 8 id behind_id li)
      ∙ from_be16-be16 pad (padding ++ (enc ++ q)) hp in
    let behind : drop (19 + pad) b' ≡ enc ++ q =
      drop_exact (19 + pad) (g ++ padding) (enc ++ q) (omega (arith, length-append g padding)) in
    (
      b',
      rw
          (
            put_at-append [] b (1 ∷ []) 0 refl (omega arith),
            put_at-append (1 ∷ []) (drop 1 b) time 1 refl (omega (arith, lt, length-drop 1 b)),
            second,
            lt→ltb pad (2 ^ 16) hp,
            put_at-append front x (be16 pad) 17 lf (omega arith),
          )
          third,
      rw
          (
            le→ltb (length b') 19 (omega (arith, long)),
            stamp,
            ap (validate_timestamp now) (sym (append-nil time))
                ∙ (validate_timestamp_iff sent now [] hs hn).1 near,
            session,
            (==_iff csid csid).1 refl,
            size,
            le→ltb (length b') (19 + pad) long,
            behind,
            addr_port_from_slice-append source q v hport,
          )
          refl,
    )
