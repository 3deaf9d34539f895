-- ===== src/ShadowPacket/ClientStep.antt =====
-- How one packet changes a client's unpacker.
use native.Mathlib.Decide.{dec_le}
use shadowsocks.Base.{
  ℕ, ◌+◌, ◌-◌, ◌^◌, ◌≤◌, ◌<◌, ◌≡◌, refl, sym, ap, ◌∙◌, ◌⊎◌, inl, inr, Bool, false, List, ◌++◌,
  Option, none, some, arith, ltb, Bool-cases, Option-cases, if◌then◌else◌, drop, take, length,
  All-drop, length-drop, length-append, length-take_of_le, take_exact, drop_exact, le→ltb, lt→ltb,
}
use shadowsocks.Base.Bytes.{from_be, from_be_bound}
use shadowsocks.Addr.{AddrPort}
use shadowsocks.ShadowPacket.Cipher.{Aead, Block, IsBlock, part, update_part}
use shadowsocks.ShadowPacket.Unpack.{
  Unpacked, packet_too_small, ClientUnpacker, client_unpack_body, client_unpack,
}
use shadowsocks.ShadowPacket.Change.{
  Change, same, noted, noted_old, renewed, is_unpacked, as-Change,
}

-- The separate header of a packet, as it is decrypted.
abbrev pub header_of : Block → List ℕ → ℕ → List ℕ
header_of block b start = block.decrypt (take 16 (drop start b))

length-header_of :
    (c : Block) (b : List ℕ) (start : ℕ)
    → IsBlock c
    → start + 16 ≤ length b
    → length (header_of c b start) ≡ 16
length-header_of c b start k h =
    k.decrypt_length (take 16 (drop start b))
      (length-take_of_le 16 (drop start b) (omega (arith, length-drop start b)))

part_lem :
    (b : List ℕ) (start : ℕ)
    → start + 16 ≤ length b
    → part b start (start + 16) ≡ some (take 16 (drop start b))
unfolding part
part_lem b start h =
    rw (le→ltb (length b) (start + 16) h)
      (ap (λ n. some (take n (drop start b))) {x = start + 16 - start} {y = 16} (omega arith))

unchanged :
    {p q : ClientUnpacker} (r r0 : Unpacked AddrPort)
    → is_unpacked r0 ≡ false
    → ◌≡◌ {A = Option (Unpacked AddrPort × ClientUnpacker)} (some (r0, p)) (some (r, q))
    → (q ≡ p) × (is_unpacked r ≡ false)
unchanged r r0 h e = (cc, cc)

-- The session and the packet ID that a packet announces.
abbrev pub ssid_of : ClientUnpacker → List ℕ → ℕ → ℕ
ssid_of p b start = from_be 8 (header_of p.block b start)

abbrev pub spid_of : ClientUnpacker → List ℕ → ℕ → ℕ
spid_of p b start = from_be 8 (drop 8 (header_of p.block b start))

pub Change-block :
    {p q : ClientUnpacker} {now ssid spid : ℕ} {done : Bool}
    → Change p now ssid spid done q
    → q.block ≡ p.block
Change-block (same e _) = ap (λ x. x.block) e
Change-block (noted s e i ok f) = ap (λ x. x.block) f
Change-block (noted_old s e i ok f) = ap (λ x. x.block) f
Change-block (renewed a late other older f) = ap (λ x. x.block) f

module _ (aead_of : List ℕ → Option Aead) where
  -- A packet whose header is in the buffer is unpacked by its decrypted header.
  client_unpack_lem :
      (now now_s : ℕ) (p : ClientUnpacker) (b : List ℕ) (start len : ℕ)
      → IsBlock p.block
      → start + 16 ≤ length b
      → (b' : List ℕ) × (client_unpack aead_of now now_s p b start len ≡ (
          if ltb len 32
          then some (packet_too_small, p)
          else client_unpack_body aead_of now now_s p
              (header_of p.block b start)
              b'
              (start + 16)
              (start + len)))
  unfolding client_unpack update_part
  client_unpack_lem now now_s p b start len k h =
      let header : List ℕ = header_of p.block b start in
      let l : length header ≡ 16 = length-header_of p.block b start k h in
      let front : List ℕ = take start b in
      let lf : length front ≡ start = length-take_of_le start b (omega arith) in
      let b' : List ℕ = front ++ (header ++ drop (start + 16) b) in
      let first : part b start (start + 16) ≡ some (take 16 (drop start b)) = part_lem b start h in
      let whole : drop start b' ≡ header ++ drop (start + 16) b =
        drop_exact start front (header ++ drop (start + 16) b) lf in
      let again : part b' start (start + 16) ≡ some header =
        part_lem b' start (
          omega (
            arith,
            l,
            lf,
            length-append front (header ++ drop (start + 16) b),
            length-append header (drop (start + 16) b),
          ))
        ∙ ap (λ t. some (take 16 t)) whole
        ∙ ap some (take_exact 16 header (drop (start + 16) b) l) in
      (b', rw (first, again) refl)

  part_out : (b : List ℕ) (start to : ℕ) → length b < to → part b start to ≡ none
  unfolding part
  part_out b start to h = rw (lt→ltb (length b) to h) refl

  body-Change :
      (now now_s : ℕ) (p q : ClientUnpacker) (header b : List ℕ) (message_start packet_end : ℕ)
      (r : Unpacked AddrPort)
      → client_unpack_body aead_of now now_s p header b message_start packet_end ≡ some (r, q)
      → Change p now (from_be 8 header) (from_be 8 (drop 8 header)) (is_unpacked r) q
  unfolding client_unpack_body
  body-Change now now_s p q header b message_start packet_end r e =
      elim (Option-cases (part b message_start packet_end)) [
        | inl n ↦ absurd (cc (n, e))
        | inr (c, f) ↦ as-Change _ now p q _ _ _ r _ refl (rw f at e)
      ]

  pub unpack-Change :
      (now now_s : ℕ) (p q : ClientUnpacker) (b : List ℕ) (start len : ℕ) (r : Unpacked AddrPort)
      → IsBlock p.block
      → client_unpack aead_of now now_s p b start len ≡ some (r, q)
      → ((q ≡ p) × (is_unpacked r ≡ false))
        ⊎ ((start + 16 ≤ length b)
            × (spid_of p b start < 2 ^ 64)
            × Change p now (ssid_of p b start) (spid_of p b start) (is_unpacked r) q)
  unpack-Change now now_s p q b start len r k e = elim (dec_le (start + 16) (length b)) [
    | no out ↦
        inl (unfold client_unpack update_part in ground (arith, e, part_out b start (start + 16)))
    | yes h ↦
        let (b', f) = client_unpack_lem now now_s p b start len k h in
        let g : (if ltb len 32
              then some (packet_too_small, p)
              else client_unpack_body aead_of now now_s p (header_of p.block b start) b'
                  (start + 16) (start + len))
            ≡ some (r, q) =
          sym f ∙ e in
        let small : spid_of p b start < 2 ^ 64 = omega (
          arith,
          from_be_bound 8 (drop 8 (header_of p.block b start)) (
              All-drop _ 8 (header_of p.block b start) (
                k.decrypt_bytes (take 16 (drop start b))
                  (length-take_of_le 16 (drop start b) (omega (arith, length-drop start b))))),
        ) in
        elim (Bool-cases (ltb len 32)) [
          | inl short ↦ inl (unchanged r packet_too_small refl (rw short at g))
          | inr long ↦ inr (
            h,
            small,
            body-Change now now_s p q (header_of p.block b start) b' (start + 16) (start + len) r
                (rw long at g),
          )
        ]
  ]
