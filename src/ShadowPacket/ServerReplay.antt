-- ===== src/ShadowPacket/ServerReplay.antt =====
-- Whole runs of a server's unpacker.
use shadowsocks.Base.{
  ℕ, ◌^◌, ◌≤◌, ◌<◌, ◌≡◌, refl, sym, subst, Bool, true, false, List, [], ◌∷◌, Option, none, some,
  arith, drop, take, All, All-drop, All-take,
}
use shadowsocks.Base.Bytes.{IsBytes, from_be_bound}
use shadowsocks.Addr.{Addr}
use shadowsocks.ShadowPacket.Unpack.{Unpacked, ServerUnpacker, server_unpack}
use shadowsocks.ShadowPacket.Change.{is_unpacked}
use shadowsocks.ShadowPacket.ServerStep.{
  ServerChange, Holds, cpid_of, server_unpack-Change, IsReady, Noted, Change-IsReady, Change-Noted,
  Noted-Change, Noted-refused,
}

-- A packet that comes: the time in seconds, and where it stands in a buffer of bytes.
pub record ServerArrival : Type 0 where
  pub seconds : ℕ
  pub buffer : List ℕ
  pub start : ℕ
  pub len : ℕ

abbrev pub server_step : ServerArrival → ServerUnpacker → Option (Unpacked Addr × ServerUnpacker)
server_step a p = server_unpack a.seconds p a.buffer a.start a.len

abbrev pub after_step : ServerUnpacker → Option (Unpacked Addr × ServerUnpacker) → ServerUnpacker
after_step p none = p
after_step p (some (_, q)) = q

abbrev pub is_accepted : Option (Unpacked Addr × ServerUnpacker) → Bool
is_accepted none = false
is_accepted (some (r, _)) = is_unpacked r

unfoldable pub serve_all : List ServerArrival → ServerUnpacker → ServerUnpacker
serve_all [] p = p
serve_all (a ∷ rest) p = serve_all rest (after_step p (server_step a p))

abbrev pub id_of : ServerArrival → ℕ
id_of a = cpid_of a.buffer a.start

id_of_bound : (a : ServerArrival) → IsBytes a.buffer → id_of a < 2 ^ 64
id_of_bound a h = omega (
  arith,
  from_be_bound 8 (drop 8 (take 16 (drop a.start a.buffer))) (
      All-drop _ 8 (take 16 (drop a.start a.buffer))
        (All-take _ 16 (drop a.start a.buffer) (All-drop _ a.start a.buffer h))),
)

module _ (a : ServerArrival) (p : ServerUnpacker) (bytes : IsBytes a.buffer) (v : IsReady p) where
  step-IsReady : IsReady (after_step p (server_step a p))
  step-IsReady = go (server_step a p) (server_unpack-Change a.seconds p a.buffer a.start a.len)
    where
      go :
          (o : Option (Unpacked Addr × ServerUnpacker))
          → Holds (ServerChange p (id_of a)) o
          → IsReady (after_step p o)
      go none h = v
      go (some (r, q)) h = Change-IsReady p q (id_of a) r (id_of_bound a bytes) v h

  step-Noted :
      is_accepted (server_step a p) ≡ true → Noted (after_step p (server_step a p)) (id_of a)
  step-Noted = go (server_step a p) (server_unpack-Change a.seconds p a.buffer a.start a.len)
    where
      go :
          (o : Option (Unpacked Addr × ServerUnpacker))
          → Holds (ServerChange p (id_of a)) o
          → is_accepted o ≡ true
          → Noted (after_step p o) (id_of a)
      go none h e = cc
      go (some (r, q)) h e = Change-Noted p q (id_of a) r (id_of_bound a bytes) v h e

  Noted-step : (d : ℕ) → Noted p d → Noted (after_step p (server_step a p)) d
  Noted-step d m = go (server_step a p) (server_unpack-Change a.seconds p a.buffer a.start a.len)
    where
      go :
          (o : Option (Unpacked Addr × ServerUnpacker))
          → Holds (ServerChange p (id_of a)) o
          → Noted (after_step p o) d
      go none h = m
      go (some (r, q)) h = Noted-Change p q (id_of a) r (id_of_bound a bytes) v h d m

  step-refused : Noted p (id_of a) → is_accepted (server_step a p) ≡ false
  step-refused m = go (server_step a p) (server_unpack-Change a.seconds p a.buffer a.start a.len)
    where
      go :
          (o : Option (Unpacked Addr × ServerUnpacker))
          → Holds (ServerChange p (id_of a)) o
          → is_accepted o ≡ false
      go none h = refl
      go (some (r, q)) h = Noted-refused p q (id_of a) r (id_of_bound a bytes) v h m

serve_all-IsReady :
    (rest : List ServerArrival) (p : ServerUnpacker)
    → All (λ a. IsBytes a.buffer) rest
    → IsReady p
    → IsReady (serve_all rest p)
unfolding serve_all
serve_all-IsReady [] p h v = v
serve_all-IsReady (a ∷ rest) p (b, h) v = serve_all-IsReady rest _ h (step-IsReady a p b v)

serve_all-Noted :
    (rest : List ServerArrival) (p : ServerUnpacker) (d : ℕ)
    → All (λ a. IsBytes a.buffer) rest
    → IsReady p
    → Noted p d
    → Noted (serve_all rest p) d
unfolding serve_all
serve_all-Noted [] p d h v m = m
serve_all-Noted (a ∷ rest) p d (b, h) v m =
    serve_all-Noted rest _ d h (step-IsReady a p b v) (Noted-step a p b v d m)

-- Protection of a server against replay, over any history of the unpacker of a session, whose filter is of a
-- positive size below 2 ^ 62 and not made yet: a packet of an ID that was unpacked is never unpacked again,
-- whatever packets come between and however late it comes. The buffers are of bytes.
pub is_accepted_once :
    (p : ServerUnpacker) (before between : List ServerArrival) (first again : ServerArrival)
    → p.filter ≡ none
    → 1 ≤ p.filter_size
    → p.filter_size < 2 ^ 62
    → All (λ a. IsBytes a.buffer) before
    → IsBytes first.buffer
    → All (λ a. IsBytes a.buffer) between
    → IsBytes again.buffer
    → id_of again ≡ id_of first
    → is_accepted (server_step first (serve_all before p)) ≡ true
    → is_accepted (
        server_step again (
          serve_all between
            (after_step (serve_all before p) (server_step first (serve_all before p)))))
      ≡ false
is_accepted_once p before between first again fresh pos small hb hf hw ha same done =
    let start : IsReady p = record {
      size_pos = pos;
      size_small = small;
      sound = λ f e. absurd (cc (fresh, e));
    } in
    let p1 : ServerUnpacker = serve_all before p in
    let v1 : IsReady p1 = serve_all-IsReady before p hb start in
    let p2 : ServerUnpacker = after_step p1 (server_step first p1) in
    let v2 : IsReady p2 = step-IsReady first p1 hf v1 in
    let m3 : Noted (serve_all between p2) (id_of first) =
      serve_all-Noted between p2 (id_of first) hw v2 (step-Noted first p1 hf v1 done) in
    step-refused again (serve_all between p2) ha (serve_all-IsReady between p2 hw v2)
      (subst (Noted (serve_all between p2)) (sym same) m3)
