-- ===== src/Header/Response.antt =====
-- The round trip of the header of a response stream.
use shadowsocks.Base.{
  ℕ, ◌+◌, ◌-◌, ◌^◌, ◌≤◌, ◌<◌, ◌≡◌, refl, sym, ap, subst, ◌∙◌, List, [], ◌∷◌, ◌++◌, some, arith,
  length, length-append, length-drop, drop, copy_at, copy_at-append, take_exact, drop_exact,
  drop_past, append-nil, append_assoc, bytes_eq_self,
}
use shadowsocks.Base.Bytes.{be, be16, from_be16, from_be16-be16, length-be, put_at, put_at-append}
use shadowsocks.Header.{
  parsed, validate_timestamp, parse_tcp_response_header, write_tcp_response_header,
}
use shadowsocks.Header.Stream.{Near, validate_timestamp_iff}

-- A response header is read back by the client that sent the request of this salt, when its clock is
-- within 30 seconds of the server's and the buffer holds the header.
pub parse-write_response :
    (sent now : ℕ) (b salt : List ℕ) (n : ℕ)
    → sent < 2 ^ 63
    → now < 2 ^ 63
    → Near sent now
    → n < 2 ^ 16
    → 11 + length salt ≤ length b
    → (b' : List ℕ) × (write_tcp_response_header sent b salt n ≡ some b')
      × (parse_tcp_response_header now b' salt ≡ parsed n)
unfolding write_tcp_response_header parse_tcp_response_header
parse-write_response sent now b salt n hs hn near h l =
    let k : ℕ = length salt in
    let time : List ℕ = be 8 sent in
    let front : List ℕ = 1 ∷ time in
    let lt : length time ≡ 8 = length-be 8 sent in
    let x : List ℕ = drop (length time) (drop 1 b) in
    let lx : length x ≡ length b - 1 - 8 =
      omega (arith, lt, length-drop (length time) (drop 1 b), length-drop 1 b) in
    let y : List ℕ = drop k x in
    let ly : length y ≡ length x - k = length-drop k x in
    let rest : List ℕ = be16 n ++ drop 2 y in
    let copied : copy_at (front ++ x) (1 + 8) salt ≡ front ++ (salt ++ y) =
      ap (λ i. copy_at (front ++ x) i salt) {x = 1 + 8} {y = length front} (omega arith)
      ∙ copy_at-append front x salt (omega arith) in
    let last : put_at (front ++ (salt ++ y)) (1 + 8 + k) (be16 n) ≡ some (front ++ (salt ++ rest)) =
      subst (λ t. put_at t (1 + 8 + k) (be16 n) ≡ some (front ++ (salt ++ rest)))
        (append_assoc front salt y)
        (put_at-append (front ++ salt) y (be16 n) (1 + 8 + k)
            (omega (arith, length-append front salt)) (omega arith)
          ∙ ap some (append_assoc front salt rest)) in
    (
      front ++ (salt ++ rest),
      rw
          (
            put_at-append [] b (1 ∷ []) 0 refl (omega arith),
            put_at-append (1 ∷ []) (drop 1 b) time 1 refl (omega (arith, lt, length-drop 1 b)),
          )
          (ap (λ t. put_at t (1 + 8 + k) (be16 n)) copied ∙ last),
      rw
          (
            take_exact 8 time (salt ++ rest) lt,
            drop_exact 8 time (salt ++ rest) lt,
            ap (validate_timestamp now) (sym (append-nil time))
                ∙ (validate_timestamp_iff sent now [] hs hn).1 near,
            take_exact k salt rest refl,
            bytes_eq_self salt,
          )
          (ap (λ t. parsed (from_be16 t))
              (drop_past 9 k (9 + k) front (salt ++ rest) (omega (arith, lt)) refl
                ∙ drop_exact k salt rest refl)
            ∙ ap parsed (from_be16-be16 n (drop 2 y) h)),
    )
