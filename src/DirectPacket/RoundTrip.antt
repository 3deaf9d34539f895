-- ===== src/DirectPacket/RoundTrip.antt =====
-- Round trips of packets from the packer of one side to the unpacker of the other.
use shadowsocks.Base.{
  ℕ, zero, suc, ◌+◌, ◌-◌, ◌≤◌, ◌≡◌, refl, ap, ◌∙◌, List, [], ◌∷◌, ◌++◌, Option, none, some, arith,
  length, length-append, length-drop, length-take_of_le, take, drop, drop_exact, drop_past,
  drop-drop, le→ltb,
}
use shadowsocks.Addr.{Addr}
use shadowsocks.Socks5.{
  ok, conn_addr_from_slice, append_addr_from_conn_addr, length_of_addr_from_conn_addr,
}
use shadowsocks.Socks5.Write.{IsAddr, write_addr_from_conn_addr_lem}
use shadowsocks.Socks5.Parse.{
  canonical, conn_addr_from_slice-append, conn_addr_from_slice_with_domain_cache_lem,
}
use shadowsocks.DirectPacket.{
  PacketClientPacker, Packed, Unpacked, unpacked, slice, write_before, none_client_pack,
  none_server_unpack, too_big,
}

take_past : (xs ys : List ℕ) (k m : ℕ) → k ≡ length xs + m → take k (xs ++ ys) ≡ xs ++ take m ys
take_past [] ys k m e = ap (λ t. take t ys) {x = k} {y = m} (omega arith)
take_past (x ∷ xs) ys zero m e = absurd (omega arith)
take_past (x ∷ xs) ys (suc k) m e = ap (λ t. x ∷ t) (take_past xs ys k m (omega arith))

slice-append :
    (front enc ys : List ℕ) (s k len : ℕ)
    → length front ≡ s
    → k ≡ length enc + len
    → len ≤ length ys
    → slice (front ++ (enc ++ ys)) s k ≡ some (enc ++ take len ys)
unfolding slice
slice-append front enc ys s k len e f h =
    rw
      (
        le→ltb (length (front ++ (enc ++ ys))) (s + k)
            (omega (arith, length-append front (enc ++ ys), length-append enc ys)),
        drop_exact s front (enc ++ ys) e,
      )
      (ap some (take_past enc ys k len f))

-- An unpacker's answer, without the cached domain.
abbrev pub answer : Option (Unpacked Addr × List ℕ) → Option (Unpacked Addr)
answer none = none
answer (some (r, _)) = some r

-- A Shadowsocks `none` packet is for the packer's server, and is read back where there is room for the
-- address: a server's unpacker finds the address (an IPv4-mapped one as IPv4) and the payload where it was, and the bytes from the
-- payload on are unchanged.
pub none_server_unpack-pack :
    (packer : PacketClientPacker) (cached b : List ℕ) (target : Addr) (start len : ℕ)
    → IsAddr target
    → length_of_addr_from_conn_addr target ≤ start
    → start + len ≤ length b
    → (b' : List ℕ) × (p : Packed) × (none_client_pack packer b target start len
        ≡ some ((packer.server_addr_port, p), b'))
      × (answer (none_server_unpack cached b' p.packet_start p.packet_len)
          ≡ some (unpacked (canonical target) start len))
      × (drop start b' ≡ drop start b)
unfolding none_client_pack none_server_unpack write_before slice
none_server_unpack-pack packer cached b target start len v room fits =
    let n : ℕ = length_of_addr_from_conn_addr target in
    let s : ℕ = start - n in
    let front : List ℕ = take s b in
    let rest : List ℕ = drop s b in
    let enc : List ℕ = append_addr_from_conn_addr [] target in
    let lr : length rest ≡ length b - s = length-drop s b in
    let lf : length front ≡ s = length-take_of_le s b (omega arith) in
    let (wrote, le) = write_addr_from_conn_addr_lem rest target v (omega arith) in
    let p : Packed = record {
      packet_start = s;
      packet_len = len + n;
      error = too_big (len + n) packer.max_packet_size;
    } in
    let b' : List ℕ = front ++ (enc ++ drop n rest) in
    let pkt : slice b' s (len + n) ≡ some (enc ++ take len (drop n rest)) =
      slice-append front enc (drop n rest) s (len + n) len lf (omega (arith, le))
        (omega (arith, le, length-drop n rest)) in
    let found : conn_addr_from_slice (enc ++ take len (drop n rest)) ≡ ok (canonical target, n) =
      conn_addr_from_slice-append target (take len (drop n rest)) v in
    (
      b',
      p,
      rw (le→ltb start n room, le→ltb (length b) s (omega arith), wrote) refl,
      rw (pkt) (
          rw
            (
              conn_addr_from_slice_with_domain_cache_lem (enc ++ take len (drop n rest)) cached,
              found,
            )
            (ap (λ x. some (unpacked (canonical target) x (len + n - n - 0))) {x = s + n + 0}
                {y = start} (omega arith)
              ∙ ap (λ y. some (unpacked (canonical target) start y)) {x = len + n - n - 0} {y = len}
                  (omega arith))),
      drop_past s n start front (enc ++ drop n rest) lf (omega arith)
          ∙ drop_exact n enc (drop n rest) le
          ∙ drop-drop n s b
          ∙ ap (λ k. drop k b) {x = s + n} {y = start} (omega arith),
    )
