-- ===== src/Header/Packet.antt =====
-- The round trip of the header of a packet from a client.
use shadowsocks.Base.{
  drop-drop, drop_append, drop_past, ap₂, ℕ, ◌+◌, ◌-◌, ◌^◌, ◌≤◌, ◌<◌, ◌≡◌, refl, sym, ap, subst,
  ◌∙◌, List, [], ◌∷◌, ◌++◌, Option, some, arith, length, length-append, length-drop,
  length-take_of_le, take, drop, take_exact, drop_exact, append-nil, append_assoc, le→ltb, lt→ltb,
  take-append-drop,
}
use shadowsocks.Base.Bytes.{be, be16, from_be16, from_be16-be16, length-be, put_at-append}
use shadowsocks.Addr.{Addr}
use shadowsocks.Socks5.{
  append_addr_from_conn_addr, length_of_addr_from_conn_addr, write_addr_from_conn_addr,
}
use shadowsocks.Socks5.Write.{IsAddr, length-append_addr, write_addr_from_conn_addr_lem}
use shadowsocks.Socks5.Parse.{
  canonical, conn_addr_from_slice-append, conn_addr_from_slice_with_domain_cache_lem,
}
use shadowsocks.Header.{
  parsed, validate_timestamp, parse_udp_client_message_header, write_udp_client_message_header,
  write_behind,
}
use shadowsocks.Header.Stream.{Near, validate_timestamp_iff}

pub write_behind-append :
    (g z t : List ℕ) (k pad n : ℕ) (w : List ℕ → Option (ℕ × List ℕ))
    → length g ≡ k
    → pad ≤ length z
    → w (drop pad z) ≡ some (n, t)
    → write_behind (k + pad) w (g ++ z) ≡ some ((g ++ take pad z) ++ t)
write_behind-append g z t k pad n w e h f =
    let head : List ℕ = g ++ take pad z in
    let whole : g ++ z ≡ head ++ drop pad z =
      ap (λ y. g ++ y) (sym (take-append-drop pad z))
      ∙ sym (append_assoc g (take pad z) (drop pad z)) in
    let len : length head ≡ k + pad =
      omega (arith, length-append g (take pad z), length-take_of_le pad z h) in
    subst (λ b. write_behind (k + pad) w b ≡ some (head ++ t)) (sym whole)
      (rw
        (
          le→ltb (length (head ++ drop pad z)) (k + pad)
              (omega (arith, len, length-append head (drop pad z))),
          drop_exact (k + pad) head (drop pad z) len,
          take_exact (k + pad) head (drop pad z) len,
          f,
        )
        refl)

-- The header of a client's packet, with its padding and what follows.
abbrev pub client_message : ℕ → List ℕ → Addr → List ℕ → List ℕ
client_message sent padding target rest =
    0
    ∷ (be 8 sent
        ++ (be16 (length padding) ++ (padding ++ (append_addr_from_conn_addr [] target ++ rest))))

pub length-client_message :
    (sent : ℕ) (padding : List ℕ) (target : Addr) (rest : List ℕ)
    → IsAddr target
    → length (client_message sent padding target rest)
      ≡ 11 + length padding + length_of_addr_from_conn_addr target + length rest
length-client_message sent padding target rest v =
    let enc : List ℕ = append_addr_from_conn_addr [] target in
    let le : length enc ≡ length_of_addr_from_conn_addr target = length-append_addr target v in
    omega (
      arith,
      le,
      length-be 8 sent,
      length-append (be 8 sent) (be16 (length padding) ++ (padding ++ (enc ++ rest))),
      length-append padding (enc ++ rest),
      length-append enc rest,
    )

-- `WriteUDPClientMessageHeader` writes the header in front of what follows; the padding is what stood there.
pub write_udp_client_message_header_lem :
    (sent : ℕ) (b : List ℕ) (pad : ℕ) (target : Addr)
    → pad < 2 ^ 16
    → IsAddr target
    → 11 + pad + length_of_addr_from_conn_addr target ≤ length b
    → (padding : List ℕ) × (length padding ≡ pad)
      × (write_udp_client_message_header sent b pad target
          ≡ some (
              client_message sent padding target
                (drop (11 + pad + length_of_addr_from_conn_addr target) b)))
unfolding write_udp_client_message_header
write_udp_client_message_header_lem sent b pad target hp v l =
    let n : ℕ = length_of_addr_from_conn_addr target in
    let enc : List ℕ = append_addr_from_conn_addr [] target in
    let time : List ℕ = be 8 sent in
    let front : List ℕ = 0 ∷ time in
    let lt : length time ≡ 8 = length-be 8 sent in
    let x : List ℕ = drop (length time) (drop 1 b) in
    let lx : length x ≡ length b - 1 - 8 =
      omega (arith, lt, length-drop (length time) (drop 1 b), length-drop 1 b) in
    let z : List ℕ = drop 2 x in
    let lz : length z ≡ length x - 2 = length-drop 2 x in
    let g : List ℕ = front ++ be16 pad in
    let padding : List ℕ = take pad z in
    let lp : length padding ≡ pad = length-take_of_le pad z (omega arith) in
    let tail_ : List ℕ = drop pad z in
    let (wrote, le) =
      write_addr_from_conn_addr_lem tail_ target v (omega (arith, length-drop pad z)) in
    let q : List ℕ = drop n tail_ in
    let w : List ℕ → Option (ℕ × List ℕ) = λ s. write_addr_from_conn_addr s target in
    let behind : write_behind (11 + pad) w (front ++ (be16 pad ++ z))
        ≡ some ((g ++ padding) ++ (enc ++ q)) =
      subst (λ t. write_behind (11 + pad) w t ≡ some ((g ++ padding) ++ (enc ++ q)))
        (append_assoc front (be16 pad) z)
        (write_behind-append g z (enc ++ q) 11 pad n w
          (omega (arith, lt, length-append front (be16 pad))) (omega arith) wrote) in
    let rest : q ≡ drop (11 + pad + n) b =
      drop-drop n pad z
      ∙ drop-drop (pad + n) 2 x
      ∙ drop-drop (2 + (pad + n)) (length time) (drop 1 b)
      ∙ drop-drop (length time + (2 + (pad + n))) 1 b
      ∙ ap (λ k. drop k b) {x = 1 + (length time + (2 + (pad + n)))} {y = 11 + pad + n}
          (omega (arith, lt)) in
    let shape : (g ++ padding) ++ (enc ++ q)
        ≡ client_message sent padding target (drop (11 + pad + n) b) =
      append_assoc g padding (enc ++ q)
      ∙ append_assoc front (be16 pad) (padding ++ (enc ++ q))
      ∙ ap₂ (λ k t. front ++ (be16 k ++ (padding ++ (enc ++ t)))) (sym lp) rest in
    (
      padding,
      lp,
      rw
          (
            put_at-append [] b (0 ∷ []) 0 refl (omega arith),
            put_at-append (0 ∷ []) (drop 1 b) time 1 refl (omega (arith, lt, length-drop 1 b)),
            lt→ltb pad (2 ^ 16) hp,
            put_at-append front x (be16 pad) 9 (omega (arith, lt)) (omega arith),
          )
          (behind ∙ ap some shape),
    )

-- What a server reads in a client's packet: the address (an IPv4-mapped one as IPv4) and what follows the
-- header, when the clocks are within 30 seconds of each other.
pub parse_udp_client-append :
    (sent now : ℕ) (cached padding : List ℕ) (target : Addr) (rest : List ℕ)
    → sent < 2 ^ 63
    → now < 2 ^ 63
    → Near sent now
    → length padding < 2 ^ 16
    → IsAddr target
    → (parse_udp_client_message_header now (client_message sent padding target rest) cached).0
      ≡ parsed (record {
        address = canonical target;
        payload_start = 11 + length padding + length_of_addr_from_conn_addr target;
        payload_len = length rest;
      })
unfolding parse_udp_client_message_header
parse_udp_client-append sent now cached padding target rest hs hn near hp v =
    let n : ℕ = length_of_addr_from_conn_addr target in
    let pad : ℕ = length padding in
    let enc : List ℕ = append_addr_from_conn_addr [] target in
    let time : List ℕ = be 8 sent in
    let lt : length time ≡ 8 = length-be 8 sent in
    let b : List ℕ = client_message sent padding target rest in
    let len : length b ≡ 11 + pad + n + length rest =
      length-client_message sent padding target rest v in
    let after_time : List ℕ = be16 pad ++ (padding ++ (enc ++ rest)) in
    let size : from_be16 (drop (1 + 8) b) ≡ pad =
      ap from_be16 (drop_exact 8 time after_time lt)
      ∙ from_be16-be16 pad (padding ++ (enc ++ rest)) hp in
    let behind : drop (11 + pad) b ≡ enc ++ rest =
      ap (drop (11 + pad)) (sym (append_assoc (0 ∷ time) (be16 pad) (padding ++ (enc ++ rest))))
      ∙ drop_past 11 pad (11 + pad) ((0 ∷ time) ++ be16 pad) (padding ++ (enc ++ rest))
          (omega (arith, lt, length-append time (be16 pad))) refl
      ∙ drop_append padding (enc ++ rest) in
    rw
      (
        le→ltb (length b) 11 (omega (arith, len)),
        take_exact 8 time after_time lt,
        ap (validate_timestamp now) (sym (append-nil time))
            ∙ (validate_timestamp_iff sent now [] hs hn).1 near,
        size,
        le→ltb (length b) (11 + pad) (omega (arith, len)),
        behind,
        conn_addr_from_slice_with_domain_cache_lem (enc ++ rest) cached,
        conn_addr_from_slice-append target rest v,
      )
      (ap
        (λ k.
          parsed
            (record { address = canonical target; payload_start = 11 + pad + n; payload_len = k }))
        {x = length b - (11 + pad + n)} {y = length rest} (omega (arith, len)))

-- A packet header that a client wrote is read back by a server whose clock is within 30 seconds of the
-- client's, whatever domain it has cached: the address (an IPv4-mapped one as IPv4), and the payload
-- behind the header. The padding fits 16 bits, and the buffer holds the header.
pub parse-write_udp_client :
    (sent now : ℕ) (cached b : List ℕ) (pad : ℕ) (target : Addr)
    → sent < 2 ^ 63
    → now < 2 ^ 63
    → Near sent now
    → pad < 2 ^ 16
    → IsAddr target
    → 11 + pad + length_of_addr_from_conn_addr target ≤ length b
    → (b' : List ℕ) × (write_udp_client_message_header sent b pad target ≡ some b')
      × ((parse_udp_client_message_header now b' cached).0
          ≡ parsed (record {
            address = canonical target;
            payload_start = 11 + pad + length_of_addr_from_conn_addr target;
            payload_len = length b' - (11 + pad + length_of_addr_from_conn_addr target);
          }))
parse-write_udp_client sent now cached b pad target hs hn near hp v l =
    let n : ℕ = length_of_addr_from_conn_addr target in
    let rest : List ℕ = drop (11 + pad + n) b in
    let (padding, lp, wrote) = write_udp_client_message_header_lem sent b pad target hp v l in
    let b' : List ℕ = client_message sent padding target rest in
    let len : length b' ≡ 11 + length padding + n + length rest =
      length-client_message sent padding target rest v in
    let start : 11 + length padding + n ≡ 11 + pad + n = omega (arith, lp) in
    let size : length rest ≡ length b' - (11 + pad + n) = omega (arith, len, lp) in
    (
      b',
      wrote,
      parse_udp_client-append sent now cached padding target rest hs hn near (omega (arith, lp)) v
          ∙ ap₂
              (λ s k.
                parsed (record { address = canonical target; payload_start = s; payload_len = k }))
              start size,
    )
