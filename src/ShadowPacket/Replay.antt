-- ===== src/ShadowPacket/Replay.antt =====
-- Whole runs of a client's unpacker.
use shadowsocks.Base.{
  ℕ, ◌+◌, ◌^◌, ◌≤◌, ◌<◌, ◌≡◌, refl, sym, ap, ap₂, subst, ◌∙◌, inl, inr, Bool, true, false, List, [],
  ◌∷◌, Option, none, some, Option-cases, drop, take,
}
use shadowsocks.Base.Bytes.{from_be}
use shadowsocks.Addr.{AddrPort}
use shadowsocks.ShadowPacket.Cipher.{Aead, Block, IsBlock}
use shadowsocks.ShadowPacket.Unpack.{
  Unpacked, ClientUnpacker, minute, client_unpack, new_client_unpacker,
}
use shadowsocks.ShadowPacket.Change.{is_unpacked}
use shadowsocks.ShadowPacket.Knowledge.{
  IsValid, Knows, Change-IsValid, Change-Knows, Knows-Change, Knows-refused,
}
use shadowsocks.ShadowPacket.ClientStep.{header_of, ssid_of, spid_of, unpack-Change, Change-block}

module _ (aead_of : List ℕ → Option Aead) where
  -- A packet that comes, and when: in nanoseconds, and in seconds for its timestamp.
  pub record Arrival : Type 0 where
    pub time : ℕ
    pub seconds : ℕ
    pub buffer : List ℕ
    pub start : ℕ
    pub len : ℕ

  abbrev pub unpack : Arrival → ClientUnpacker → Option (Unpacked AddrPort × ClientUnpacker)
  unpack a p = client_unpack aead_of a.time a.seconds p a.buffer a.start a.len

  abbrev pub after_unpack :
      ClientUnpacker → Option (Unpacked AddrPort × ClientUnpacker) → ClientUnpacker
  after_unpack p none = p
  after_unpack p (some (_, q)) = q

  unfoldable pub receive_all : List Arrival → ClientUnpacker → ClientUnpacker
  receive_all [] p = p
  receive_all (a ∷ rest) p = receive_all rest (after_unpack p (unpack a p))

  -- All come from one time on, and before another.
  unfoldable pub Between : ℕ → ℕ → List Arrival → Type 0
  Between t u [] = Unit
  Between t u (a ∷ rest) = (t ≤ a.time) × (a.time < u) × Between t u rest

  after_unpack-IsValid :
      (a : Arrival) (p : ClientUnpacker)
      → IsBlock p.block
      → IsValid p
      → IsValid (after_unpack p (unpack a p)) × ((after_unpack p (unpack a p)).block ≡ p.block)
  after_unpack-IsValid a p k v = elim (Option-cases (unpack a p)) [
    | inl n ↦ rw n (v, refl)
    | inr ((r, q), e) ↦
        rw e (elim (unpack-Change aead_of a.time a.seconds p q a.buffer a.start a.len r k e) [
          | inl (g, _) ↦ (subst IsValid (sym g) v, ap (λ x. x.block) g)
          | inr (_, small, c) ↦ (Change-IsValid v small c, Change-block c)
        ])
  ]

  after_unpack-Knows :
      (a : Arrival) (p : ClientUnpacker) (id pid since : ℕ)
      → IsBlock p.block
      → IsValid p
      → since ≤ a.time
      → a.time < since + minute
      → Knows p id pid since
      → Knows (after_unpack p (unpack a p)) id pid since
  after_unpack-Knows a p id pid since k v l u m = elim (Option-cases (unpack a p)) [
    | inl n ↦ rw n m
    | inr ((r, q), e) ↦
        rw e (elim (unpack-Change aead_of a.time a.seconds p q a.buffer a.start a.len r k e) [
          | inl (g, _) ↦ subst (λ x. Knows x id pid since) (sym g) m
          | inr (_, small, c) ↦ Knows-Change v small c l u m
        ])
  ]

  receive_all-IsValid :
      (rest : List Arrival) (p : ClientUnpacker)
      → IsBlock p.block
      → IsValid p
      → IsValid (receive_all rest p) × ((receive_all rest p).block ≡ p.block)
  unfolding receive_all
  receive_all-IsValid [] p k v = (v, refl)
  receive_all-IsValid (a ∷ rest) p k v =
      let (w, e) = after_unpack-IsValid a p k v in
      let (x, f) =
        receive_all-IsValid rest (after_unpack p (unpack a p)) (subst IsBlock (sym e) k) w in
      (x, f ∙ e)

  receive_all-Knows :
      (rest : List Arrival) (p : ClientUnpacker) (id pid since : ℕ)
      → IsBlock p.block
      → IsValid p
      → Between since (since + minute) rest
      → Knows p id pid since
      → Knows (receive_all rest p) id pid since
  unfolding receive_all Between
  receive_all-Knows [] p id pid since k v b m = m
  receive_all-Knows (a ∷ rest) p id pid since k v b m =
      let (w, e) = after_unpack-IsValid a p k v in
      receive_all-Knows rest (after_unpack p (unpack a p)) id pid since (subst IsBlock (sym e) k) w
        b.2 (after_unpack-Knows a p id pid since k v b.0 b.1 m)

  -- Is the packet unpacked?
  abbrev pub accepts : Option (Unpacked AddrPort × ClientUnpacker) → Bool
  accepts none = false
  accepts (some (r, _)) = is_unpacked r

  unpack-Knows :
      (a : Arrival) (p : ClientUnpacker)
      → IsBlock p.block
      → IsValid p
      → accepts (unpack a p) ≡ true
      → Knows
          (after_unpack p (unpack a p))
          (ssid_of p a.buffer a.start)
          (spid_of p a.buffer a.start)
          a.time
  unpack-Knows a p k v h = elim (Option-cases (unpack a p)) [
    | inl n ↦ cc
    | inr ((r, q), e) ↦
        rw e (elim (unpack-Change aead_of a.time a.seconds p q a.buffer a.start a.len r k e) [
          | inl (_, g) ↦ cc
          | inr (_, small, c) ↦ Change-Knows v small c (rw e at h)
        ])
  ]

  new_client_unpacker-IsValid :
      (csid size : ℕ) (block : Block)
      → 1 ≤ size
      → size < 2 ^ 62
      → IsValid (new_client_unpacker csid size block)
  new_client_unpacker-IsValid csid size block pos small = record {
    size_pos = pos;
    size_small = small;
    current_sound = λ s e. cc;
    old_sound = λ s e. cc;
    apart = λ s e. cc;
  }

  accepts-Knows :
      (a : Arrival) (p : ClientUnpacker) (since : ℕ)
      → IsBlock p.block
      → IsValid p
      → Knows p (ssid_of p a.buffer a.start) (spid_of p a.buffer a.start) since
      → accepts (unpack a p) ≡ false
  accepts-Knows a p since k v m = elim (Option-cases (unpack a p)) [
    | inl n ↦ rw n refl
    | inr ((r, q), e) ↦
        rw e (elim (unpack-Change aead_of a.time a.seconds p q a.buffer a.start a.len r k e) [
          | inl (_, h) ↦ h
          | inr (_, small, c) ↦ Knows-refused v small c m
        ])
  ]

  -- Protection against replay, over any history of a client's unpacker with a filter of a positive size
  -- below 2 ^ 62 and a block cipher that keeps its promises: a packet that is unpacked is not unpacked again
  -- in the next minute, whatever packets come in that minute before it, nor is any packet with the same
  -- encrypted separate header.
  pub accepts-once :
      (csid size : ℕ) (block : Block) (before between : List Arrival) (first again : Arrival)
      → IsBlock block
      → 1 ≤ size
      → size < 2 ^ 62
      → Between first.time (first.time + minute) between
      → first.time ≤ again.time
      → again.time < first.time + minute
      → take 16 (drop again.start again.buffer) ≡ take 16 (drop first.start first.buffer)
      → accepts (unpack first (receive_all before (new_client_unpacker csid size block))) ≡ true
      → accepts (
          unpack again (
            receive_all between (
              after_unpack
                (receive_all before (new_client_unpacker csid size block))
                (unpack first (receive_all before (new_client_unpacker csid size block))))))
        ≡ false
  accepts-once csid size block before between first again k pos small within l u eq done =
      let p0 : ClientUnpacker = new_client_unpacker csid size block in
      let (v, e) =
        receive_all-IsValid before p0 k (new_client_unpacker-IsValid csid size block pos small) in
      let p : ClientUnpacker = receive_all before p0 in
      let kp : IsBlock p.block = subst IsBlock (sym e) k in
      let q : ClientUnpacker = after_unpack p (unpack first p) in
      let (w, f) = after_unpack-IsValid first p kp v in
      let kq : IsBlock q.block = subst IsBlock (sym f) kp in
      let z : ClientUnpacker = receive_all between q in
      let (y, g) = receive_all-IsValid between q kq w in
      let known : Knows q (ssid_of p first.buffer first.start) (spid_of p first.buffer first.start)
          first.time =
        unpack-Knows first p kp v done in
      let kept : Knows z (ssid_of p first.buffer first.start) (spid_of p first.buffer first.start)
          first.time =
        receive_all-Knows between q _ _ first.time kq w within known in
      let same_header : header_of p.block first.buffer first.start
          ≡ header_of z.block again.buffer again.start =
        ap₂ (λ c t. c.decrypt t) (sym (g ∙ f)) (sym eq) in
      accepts-Knows again z first.time (subst IsBlock (sym g) kq) y
        (subst (λ h. Knows z (from_be 8 h) (from_be 8 (drop 8 h)) first.time) same_header kept)
