-- ===== src/Header/Stream.antt =====
-- Timestamps, and round trips of the headers of a request stream.
use shadowsocks.Base.{
  ℕ, zero, suc, ◌+◌, ◌-◌, ◌^◌, ◌≤◌, ◌<◌, ◌≡◌, refl, ap, ap₂, subst, ◌∙◌, ◌↔◌, List, [], ◌∷◌, ◌++◌,
  some, arith, length, length-append, length-drop, length-take_of_le, take, drop, copy_at,
  copy_over_lem, drop_exact, drop_append, append-nil, le→ltb, lt→leb, lt→ltb,
}
use shadowsocks.Base.Bytes.{
  be, from_be, be16, from_be16, from_be16-be16, length-be, from_be-be, put_at-append,
}
use shadowsocks.Addr.{Addr}
use shadowsocks.Socks5.{append_addr_from_conn_addr, length_of_addr_from_conn_addr}
use shadowsocks.Socks5.Write.{three_writes, IsAddr, write_addr_from_conn_addr_lem}
use shadowsocks.Socks5.Parse.{canonical, conn_addr_from_slice-append}
use shadowsocks.Header.{
  parsed, validate_timestamp, parse_tcp_request_fixed_length_header,
  write_tcp_request_fixed_length_header, parse_padding, parse_tcp_request_variable_length_header,
  write_tcp_request_variable_length_header, parse_session_id_and_packet_id,
  write_session_id_and_packet_id,
}

-- Two times at most 30 seconds apart.
abbrev pub Near : ℕ → ℕ → Type 0
Near sent now = (sent ≤ now + 30) × (now ≤ sent + 30)

-- Of times before 2 ^ 63, `ValidateUnixEpochTimestamp` accepts exactly those within 30 seconds.
pub validate_timestamp_iff :
    (sent now : ℕ) (rest : List ℕ)
    → sent < 2 ^ 63
    → now < 2 ^ 63
    → (validate_timestamp now (be 8 sent ++ rest) ≡ parsed tt) ↔ Near sent now
unfolding validate_timestamp
validate_timestamp_iff sent now rest h l =
    rw (from_be-be 8 sent rest (omega arith)) ((λ e. ground (arith, e)), (λ n. ground (arith, n)))

-- A fixed-length request header is read back, by a reader whose clock is within 30 seconds of the
-- writer's.
pub parse-write_request_fixed :
    (sent now : ℕ) (b : List ℕ) (n : ℕ)
    → sent < 2 ^ 63
    → now < 2 ^ 63
    → Near sent now
    → n < 2 ^ 16
    → 11 ≤ length b
    → (b' : List ℕ) × (write_tcp_request_fixed_length_header sent b n ≡ some b')
      × (parse_tcp_request_fixed_length_header now b' ≡ parsed n)
unfolding write_tcp_request_fixed_length_header parse_tcp_request_fixed_length_header
parse-write_request_fixed sent now b n hs hn near h l =
    let rest : List ℕ = be16 n ++ drop 11 b in
    (
      0 ∷ (be 8 sent ++ rest),
      three_writes b (0 ∷ []) (be 8 sent) (be16 n) 1 9 11 some refl
          (omega (arith, length-be 8 sent)) (omega (arith, length-be 8 sent)) l,
      rw ((validate_timestamp_iff sent now rest hs hn).1 near) (
          ap (λ t. parsed (from_be16 t)) (drop_exact 8 (be 8 sent) rest (length-be 8 sent))
          ∙ ap parsed (from_be16-be16 n (drop 11 b) h)),
    )

-- Session and packet IDs are read back.
pub parse-write_session_id_and_packet_id :
    (b : List ℕ) (sid pid : ℕ)
    → sid < 2 ^ 64
    → pid < 2 ^ 64
    → 16 ≤ length b
    → (b' : List ℕ) × (write_session_id_and_packet_id b sid pid ≡ some b')
      × (parse_session_id_and_packet_id b' ≡ (sid, pid))
unfolding write_session_id_and_packet_id parse_session_id_and_packet_id
parse-write_session_id_and_packet_id b sid pid hs hp l =
    let s : List ℕ = be 8 sid in
    let p : List ℕ = be 8 pid in
    let ls : length s ≡ 8 = length-be 8 sid in
    let lp : length p ≡ 8 = length-be 8 pid in
    let b1 : List ℕ = drop (length s) b in
    let tail_ : List ℕ = p ++ drop (length p) b1 in
    (
      s ++ tail_,
      rw
          (
            put_at-append [] b s 0 refl (omega arith),
            put_at-append s b1 p 8 ls (omega (arith, length-drop (length s) b)),
          )
          refl,
      ap₂ (λ x y. (x, y)) (from_be-be 8 sid tail_ hs)
          (ap (from_be 8) (drop_exact 8 s tail_ ls) ∙ from_be-be 8 pid (drop (length p) b1) hp),
    )

parse_padding_lem :
    (target : Addr) (padding payload : List ℕ)
    → length padding < 2 ^ 16
    → 1 ≤ length padding + length payload
    → parse_padding target (be16 (length padding) ++ (padding ++ payload))
      ≡ parsed (target, payload)
unfolding parse_padding
parse_padding_lem target padding payload h l =
    let b : List ℕ = be16 (length padding) ++ (padding ++ payload) in
    let value : from_be16 b ≡ length padding =
      from_be16-be16 (length padding) (padding ++ payload) h in
    let len : length b ≡ 2 + (length padding + length payload) =
      omega (arith, length-append padding payload) in
    rw (lt→leb (length b) 2 (omega arith), le→ltb (length b) (2 + from_be16 b) (omega arith))
      (ap (λ t. parsed (target, t))
        (ap (λ k. drop k b) {x = 2 + from_be16 b} {y = suc (suc (length padding))} (omega arith)
          ∙ drop_append padding payload))

-- A copy that ends where the buffer ends.
copy_behind :
    (front body xs : List ℕ) (i k : ℕ)
    → length front + k ≡ i
    → k + length xs ≡ length body
    → copy_at (front ++ body) i xs ≡ front ++ (take k body ++ xs)
copy_behind [] body xs zero zero h e =
    copy_over_lem body xs (omega arith)
    ∙ ap (λ t. xs ++ t)
        (subst (λ t. drop (length xs) t ≡ []) (append-nil body)
          (drop_exact (length xs) body [] (omega arith)))
    ∙ append-nil xs
copy_behind [] body xs (suc i) zero h e = absurd (omega arith)
copy_behind [] body xs zero (suc k) h e = absurd (omega arith)
copy_behind [] [] xs (suc i) (suc k) h e = absurd (omega arith)
copy_behind [] (y ∷ body) xs (suc i) (suc k) h e =
    ap (λ t. y ∷ t) (copy_behind [] body xs i k (omega arith) (omega arith))
copy_behind (f ∷ front) body xs zero k h e = absurd (omega arith)
copy_behind (f ∷ front) body xs (suc i) k h e =
    ap (λ t. f ∷ t) (copy_behind front body xs i k (omega arith) e)

-- A variable-length request header that fills its buffer is read back: the address (an IPv4-mapped
-- one as IPv4) and the payload. The padding fits 16 bits, and padding or payload is not empty.
pub parse-write_request_variable :
    (b : List ℕ) (target : Addr) (payload : List ℕ)
    → IsAddr target
    → length_of_addr_from_conn_addr target + 2 + length payload ≤ length b
    → length b < length_of_addr_from_conn_addr target + 2 + length payload + 2 ^ 16
    → length_of_addr_from_conn_addr target + 2 < length b
    → (b' : List ℕ) × (write_tcp_request_variable_length_header b target payload ≡ some b')
      × (parse_tcp_request_variable_length_header b' ≡ parsed (canonical target, payload))
unfolding write_tcp_request_variable_length_header parse_tcp_request_variable_length_header
parse-write_request_variable b target payload v room small more =
    let n : ℕ = length_of_addr_from_conn_addr target in
    let enc : List ℕ = append_addr_from_conn_addr [] target in
    let (written, len) = write_addr_from_conn_addr_lem b target v (omega arith) in
    let pad : ℕ = length b - n - 2 - length payload in
    let rest : List ℕ = drop n b in
    let body : List ℕ = drop 2 rest in
    let lr : length rest ≡ length b - n = length-drop n b in
    let lb : length body ≡ length rest - 2 = length-drop 2 rest in
    let padding : List ℕ = take pad body in
    let lp : length padding ≡ pad = length-take_of_le pad body (omega arith) in
    (
      enc ++ (be16 pad ++ (padding ++ payload)),
      rw
          (
            written,
            le→ltb (length b) (n + 2 + length payload) (omega arith),
            lt→ltb pad (2 ^ 16) (omega arith),
            put_at-append enc rest (be16 pad) n len (omega arith),
          )
          (ap some (
            copy_behind enc (be16 pad ++ body) payload (n + (2 + pad)) (suc (suc pad)) (omega arith)
              (omega arith))),
      rw
          (
            conn_addr_from_slice-append target (be16 pad ++ (padding ++ payload)) v,
            parse_tcp_request_variable_length_header,
          )
          (ap (parse_padding (canonical target))
              (drop_exact n enc (be16 pad ++ (padding ++ payload)) len)
            ∙ subst
                (λ k.
                  parse_padding (canonical target) (be16 k ++ (padding ++ payload))
                  ≡ parsed (canonical target, payload))
                lp
                (parse_padding_lem (canonical target) padding payload (omega arith) (omega arith))),
    )
