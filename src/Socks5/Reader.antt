-- ===== src/Socks5/Reader.antt =====
-- Reading an address from a stream against reading it from a slice.
use shadowsocks.Base.{
  ℕ, zero, suc, ◌+◌, ◌-◌, ◌≤◌, ◌<◌, ◌≡◌, refl, ap, ◌∙◌, List, [], ◌∷◌, ◌++◌, arith, length, drop,
  take, get_or, le→ltb,
}
use shadowsocks.Base.Bytes.{from_be16}
use shadowsocks.Addr.{Addr}
use shadowsocks.Socks5.{
  ok, conn_addr_from_slice, read_full, addr_len, append_from_reader, conn_addr_from_reader,
}

take-take : (m k : ℕ) (xs : List ℕ) → m ≤ k → take m (take k xs) ≡ take m xs
take-take zero k xs h = refl
take-take (suc m) zero xs h = absurd (omega arith)
take-take (suc m) (suc k) [] h = refl
take-take (suc m) (suc k) (x ∷ xs) h = ap (λ t. x ∷ t) (take-take m k xs (omega arith))

get_or-take : (k i : ℕ) (xs : List ℕ) → i < k → get_or (take k xs) i 0 ≡ get_or xs i 0
get_or-take zero i xs h = absurd (omega arith)
get_or-take (suc k) i [] h = refl
get_or-take (suc k) zero (x ∷ xs) h = refl
get_or-take (suc k) (suc i) (x ∷ xs) h = get_or-take k i xs (omega arith)

get_or-drop : (m i : ℕ) (xs : List ℕ) → get_or (drop m xs) i 0 ≡ get_or xs (m + i) 0
get_or-drop zero i xs = ap (λ k. get_or xs k 0) (omega arith)
get_or-drop (suc m) i [] = refl
get_or-drop (suc m) i (x ∷ xs) =
    get_or-drop m i xs
    ∙ ap (λ k. get_or (x ∷ xs) k 0) {x = suc (m + i)} {y = suc m + i} (omega arith)

-- A port inside what was read is the port inside what was there.
port-take :
    (m k : ℕ) (xs : List ℕ) → m + 2 ≤ k → from_be16 (drop m (take k xs)) ≡ from_be16 (drop m xs)
port-take m k xs h = omega (
  arith,
  get_or-drop m 0 (take k xs),
  get_or-drop m 1 (take k xs),
  get_or-drop m 0 xs,
  get_or-drop m 1 xs,
  get_or-take k (m + 0) xs (omega arith),
  get_or-take k (m + 1) xs (omega arith),
)

read_full_lem : (n : ℕ) (r : List ℕ) → n ≤ length r → read_full n r ≡ ok (take n r, drop n r)
unfolding read_full
read_full_lem n r h = rw (le→ltb (length r) n h) refl

-- An address that `ConnAddrFromSlice` finds at the front of what a reader holds is the address that
-- `ConnAddrFromReader` reads, and the reader then holds what follows the address.
pub conn_addr_from_reader_lem :
    (r : List ℕ) (a : Addr) (n : ℕ)
    → conn_addr_from_slice r ≡ ok (a, n)
    → conn_addr_from_reader r ≡ ok (a, drop n r)
unfolding conn_addr_from_reader conn_addr_from_slice
conn_addr_from_reader_lem [] a n e = cc
conn_addr_from_reader_lem (x ∷ []) a n e = cc
conn_addr_from_reader_lem (x ∷ y ∷ t) a n e =
    rw (read_full_lem 2 (x ∷ y ∷ t) (omega arith), conn_addr_from_reader)
      (ground (
        arith,
        e,
        read_full_lem (y + 2) t,
        read_full_lem 5 t,
        read_full_lem 17 t,
        take-take y (y + 2) t (omega arith),
        port-take y (y + 2) t (omega arith),
        ap (λ k. drop k (x ∷ y ∷ t)) {x = 2 + y + 2} {y = suc (suc (y + 2))} (omega arith),
        take-take 3 5 t (omega arith),
        port-take 3 5 t (omega arith),
        take-take 15 17 t (omega arith),
        port-take 15 17 t (omega arith),
      ))

-- An address that `ConnAddrFromSlice` finds at the front of what a reader holds is appended by
-- `AppendFromReader`, byte for byte, and the reader then holds what follows the address.
pub append_from_reader_lem :
    (b r : List ℕ) (a : Addr) (n : ℕ)
    → conn_addr_from_slice r ≡ ok (a, n)
    → append_from_reader b r ≡ ok (b ++ take n r, drop n r)
unfolding append_from_reader conn_addr_from_slice addr_len
append_from_reader_lem b [] a n e = cc
append_from_reader_lem b (x ∷ []) a n e = cc
append_from_reader_lem b (x ∷ y ∷ t) a n e =
    rw (read_full_lem 2 (x ∷ y ∷ t) (omega arith), append_from_reader)
      (ground (
        arith,
        e,
        read_full_lem (1 + 1 + y + 2 - 2) t,
        read_full_lem 5 t,
        read_full_lem 17 t,
        ap (λ k. take k (x ∷ y ∷ t)) {x = 2 + y + 2} {y = suc (suc (1 + 1 + y + 2 - 2))}
            (omega arith),
        ap (λ k. drop k (x ∷ y ∷ t)) {x = 2 + y + 2} {y = suc (suc (1 + 1 + y + 2 - 2))}
            (omega arith),
      ))
