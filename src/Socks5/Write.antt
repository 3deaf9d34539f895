-- ===== src/Socks5/Write.antt =====
-- The writers, the appenders and the lengths announced.
use shadowsocks.Base.{
  replicate, length-replicate, ℕ, suc, ◌+◌, ◌-◌, ◌%◌, ◌≤◌, ◌<◌, ◌≡◌, refl, sym, ap, ◌∙◌, true, List,
  [], ◌∷◌, ◌++◌, Option, some, arith, length, length-append, length-drop, drop, drop-drop, copy_at,
  copy_at-append, append_assoc, Bool-cases, inl, inr, subst, ◌^◌,
}
use shadowsocks.Base.Bytes.{be16, put_at, put_at-append, ◌>>=◌}
use shadowsocks.Addr.{
  Ip, zero_ip, v4, v6, IsIp, is_4, as_4, as_16, AddrPort, Addr, none_addr, ip_addr, domain_addr,
}
use shadowsocks.Socks5.{
  unspecified, append_addr_from_addr_port, write_addr_from_addr_port, length_of_addr_from_addr_port,
  append_addr_from_conn_addr, write_addr_from_conn_addr, length_of_addr_from_conn_addr,
}

-- Three writes one behind the other, and what comes next.
pub three_writes :
    {C : Type 0} (b x y z : List ℕ) (i j n : ℕ) (k : List ℕ → Option C)
    → length x ≡ i
    → length x + length y ≡ j
    → length x + length y + length z ≡ n
    → n ≤ length b
    → (do b1 ← put_at b 0 x; b2 ← put_at b1 i y; b3 ← put_at b2 j z; k b3)
      ≡ k (x ++ (y ++ (z ++ drop n b)))
three_writes b x y z i j n k e f g h =
    let b1 : List ℕ = drop (length x) b in
    let b2 : List ℕ = drop (length y) b1 in
    let l1 : length b1 ≡ length b - length x = length-drop (length x) b in
    let l2 : length b2 ≡ length b1 - length y = length-drop (length y) b1 in
    let last : drop (length z) b2 ≡ drop n b =
      ap (drop (length z)) (drop-drop (length y) (length x) b)
      ∙ drop-drop (length z) (length x + length y) b
      ∙ ap (λ m. drop m b) g in
    let third : put_at (x ++ (y ++ b2)) j z ≡ some (x ++ (y ++ (z ++ drop n b))) =
      subst (λ t. put_at t j z ≡ some (x ++ (y ++ (z ++ drop n b)))) (append_assoc x y b2)
        (put_at-append (x ++ y) b2 z j (length-append x y ∙ f) (omega arith)
          ∙ ap some
              (append_assoc x y (z ++ drop (length z) b2) ∙ ap (λ t. x ++ (y ++ (z ++ t))) last)) in
    rw (put_at-append [] b x 0 refl (omega arith), put_at-append x b1 y i e (omega arith), third)
      refl

pub length-as_4 : (ip : Ip) → IsIp ip → is_4 ip ≡ true → length (as_4 ip) ≡ 4
unfolding is_4 as_4
length-as_4 zero_ip v e = cc
length-as_4 (v4 b) v e = v.0
length-as_4 (v6 b z) v e = omega (arith, length-drop 12 b)

pub length-as_16 : (ip : Ip) → IsIp ip → length (as_16 ip) ≡ 16
unfolding as_16
length-as_16 zero_ip v = refl
length-as_16 (v4 b) v = omega arith
length-as_16 (v6 b z) v = v.0

-- What a writer must do with a buffer: write these bytes, say how many, and leave the rest.
abbrev pub Writes : Option (ℕ × List ℕ) → List ℕ → ℕ → List ℕ → Type 0
Writes r b n bytes = (r ≡ some (n, bytes ++ drop n b)) × (length bytes ≡ n)

-- `WriteAddrFromAddrPort` writes what `AppendAddrFromAddrPort` appends, says how much, and leaves the
-- rest of the buffer; `LengthOfAddrFromAddrPort` is that much. The buffer holds that much at least.
pub write_addr_from_addr_port_lem :
    (b : List ℕ) (a : AddrPort)
    → IsIp a.ip
    → length_of_addr_from_addr_port a ≤ length b
    → Writes
        (write_addr_from_addr_port b a)
        b
        (length_of_addr_from_addr_port a)
        (append_addr_from_addr_port [] a)
unfolding write_addr_from_addr_port length_of_addr_from_addr_port append_addr_from_addr_port
write_addr_from_addr_port_lem b a v h = elim (Bool-cases (is_4 a.ip)) [
  | inl four ↦
      let len : length (as_4 a.ip) ≡ 4 = length-as_4 a.ip v four in
      let room : 7 ≤ length b = rw four at h in
      rw four (
        three_writes b (1 ∷ []) (as_4 a.ip) (be16 a.port) 1 5 7 (λ t. some (7, t)) refl
              (omega arith) (omega arith) room
            ∙ ap (λ t. some (7, 1 ∷ t)) (sym (append_assoc (as_4 a.ip) (be16 a.port) (drop 7 b))),
        omega (arith, length-append (as_4 a.ip) (be16 a.port)),
      )
  | inr six ↦
      let len : length (as_16 a.ip) ≡ 16 = length-as_16 a.ip v in
      let room : 19 ≤ length b = rw six at h in
      rw six (
        three_writes b (4 ∷ []) (as_16 a.ip) (be16 a.port) 1 17 19 (λ t. some (19, t)) refl
              (omega arith) (omega arith) room
            ∙ ap (λ t. some (19, 4 ∷ t))
                (sym (append_assoc (as_16 a.ip) (be16 a.port) (drop 19 b))),
        omega (arith, length-append (as_16 a.ip) (be16 a.port)),
      )
]

-- An address that the program can hold: its IP is well formed, its domain has 1 to 255 bytes.
abbrev pub IsAddr : Addr → Type 0
IsAddr none_addr = Unit
IsAddr (ip_addr a) = IsIp a.ip × (a.port < 2 ^ 16)
IsAddr (domain_addr d p) = (1 ≤ length d) × (length d ≤ 255) × (p < 2 ^ 16)

-- A domain is copied, not written: where the buffer is long enough that is the same.
copy_domain :
    (b d : List ℕ) (x y : ℕ)
    → length d ≤ length b
    → copy_at (x ∷ y ∷ b) 2 d ≡ x ∷ y ∷ (d ++ drop (length d) b)
copy_domain b d x y h = copy_at-append (x ∷ y ∷ []) b d h

-- `WriteAddrFromConnAddr` writes what `AppendAddrFromConnAddr` appends, says how much, and leaves the
-- rest of the buffer; `LengthOfAddrFromConnAddr` is that much. The buffer holds that much at least.
pub write_addr_from_conn_addr_lem :
    (b : List ℕ) (a : Addr)
    → IsAddr a
    → length_of_addr_from_conn_addr a ≤ length b
    → Writes
        (write_addr_from_conn_addr b a)
        b
        (length_of_addr_from_conn_addr a)
        (append_addr_from_conn_addr [] a)
unfolding write_addr_from_conn_addr length_of_addr_from_conn_addr append_addr_from_conn_addr
write_addr_from_conn_addr_lem b none_addr v h =
    unfold length_of_addr_from_addr_port is_4 in
    write_addr_from_addr_port_lem b unspecified (omega arith) h
write_addr_from_conn_addr_lem b (ip_addr a) v h = write_addr_from_addr_port_lem b a v.0 h
write_addr_from_conn_addr_lem [] (domain_addr d p) v h = absurd (omega arith)
write_addr_from_conn_addr_lem (x ∷ []) (domain_addr d p) v h = absurd (omega arith)
write_addr_from_conn_addr_lem (x ∷ y ∷ b) (domain_addr d p) v h =
    let n : ℕ = length d % 256 in
    let tail_ : List ℕ = drop (length d) b in
    let len : length tail_ ≡ length b - length d = length-drop (length d) b in
    let last : drop 2 tail_ ≡ drop (2 + length d + 2) (x ∷ y ∷ b) =
      drop-drop 2 (length d) b
      ∙ ap (λ k. drop k (x ∷ y ∷ b)) {x = suc (suc (length d + 2))} {y = 2 + length d + 2}
          (omega arith) in
    let port : put_at (copy_at (3 ∷ n ∷ b) 2 d) (1 + 1 + length d) (be16 p)
        ≡ some (3 ∷ n ∷ (d ++ (be16 p ++ drop 2 tail_))) =
      subst
        (λ t. put_at t (1 + 1 + length d) (be16 p) ≡ some (3 ∷ n ∷ (d ++ (be16 p ++ drop 2 tail_))))
        (sym (copy_domain b d 3 n (omega arith)))
        (put_at-append (3 ∷ n ∷ d) tail_ (be16 p) (1 + 1 + length d) (omega arith) (omega arith)) in
    (
      rw
          (
            put_at-append [] (x ∷ y ∷ b) (3 ∷ []) 0 refl (omega arith),
            put_at-append (3 ∷ []) (y ∷ b) (n ∷ []) 1 refl (omega arith),
            port,
          )
          (ap (λ t. some (2 + length d + 2, 3 ∷ n ∷ t))
            (ap (λ t. d ++ (be16 p ++ t)) last ∙ sym (append_assoc d (be16 p) _))),
      omega (arith, length-append d (be16 p)),
    )

-- What is appended for an address has the length announced.
pub length-append_addr :
    (a : Addr)
    → IsAddr a
    → length (append_addr_from_conn_addr [] a) ≡ length_of_addr_from_conn_addr a
length-append_addr a v =
    (write_addr_from_conn_addr_lem (replicate (length_of_addr_from_conn_addr a) 0) a v
      (omega (arith, length-replicate {A = ℕ} (length_of_addr_from_conn_addr a) 0))).1
