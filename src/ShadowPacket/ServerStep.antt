-- ===== src/ShadowPacket/ServerStep.antt =====
-- How one packet changes a server's unpacker.
use shadowsocks.Base.{
  ℕ, ◌+◌, ◌-◌, ◌^◌, ◌≤◌, ◌<◌, ◌≡◌, refl, sym, ap, subst, ◌∙◌, ◌⊎◌, inl, inr, Bool, true, false,
  List, ◌++◌, Option, none, some, arith, ltb, Bool-cases, if◌then◌else◌, drop, take, length,
}
use shadowsocks.Base.Bytes.{from_be, ◌>>=◌}
use shadowsocks.Addr.{Addr}
use shadowsocks.SlidingWindow.{Filter, new_filter, must_add}
use shadowsocks.SlidingWindow.Memory.{
  IsSound, Remembers, new_filter-IsSound, Remembers-IsSound, is_ok-Remembers, must_add-Remembers,
  must_add-keeps, is_ok-new_filter,
}
use shadowsocks.Header.{Parsed, parsed, fault, Message, parse_udp_client_message_header}
use shadowsocks.ShadowPacket.Cipher.{part}
use shadowsocks.ShadowPacket.Unpack.{
  Unpacked, replay, not_authentic, bad_header, unpacked, ServerUnpacker, filter_is_ok, filter_add,
  server_open, server_unpack,
}
use shadowsocks.ShadowPacket.Change.{is_unpacked}

-- What a packet changes: nothing of the filter, or its ID is acceptable and is added.
pub ServerChange : ServerUnpacker → ℕ → Unpacked Addr × ServerUnpacker → Type 0
ServerChange p cpid x =
    (x.1.filter_size ≡ p.filter_size)
    × (((x.1.filter ≡ p.filter) × (is_unpacked x.0 ≡ false))
        ⊎ ((filter_is_ok p.filter cpid ≡ true)
            × (x.1.filter ≡ some (filter_add p.filter_size p.filter cpid))))

abbrev pub Holds : {A : Type 0} → (A → Type 0) → Option A → Type 0
Holds P none = Unit
Holds P (some a) = P a

Holds-bind :
    {A B : Type 0} (Q : B → Type 0) (o : Option A) (f : A → Option B)
    → ((a : A) → o ≡ some a → Holds Q (f a))
    → Holds Q (o >>= f)
Holds-bind Q none f h = tt
Holds-bind Q (some a) f h = h a refl

server_open-Change :
    (now : ℕ) (p : ServerUnpacker) (cpid : ℕ) (nonce b : List ℕ) (message_start packet_end : ℕ)
    → filter_is_ok p.filter cpid ≡ true
    → Holds (ServerChange p cpid) (server_open now p cpid nonce b message_start packet_end)
unfolding server_open ServerChange
server_open-Change now p cpid nonce b message_start packet_end ok =
    Holds-bind (ServerChange p cpid) (part b message_start packet_end) _
      (λ c e. by_text (p.aead.open_sealed nonce c))
  where
    by_header :
        (text cached : List ℕ) (h : Parsed (Message Addr))
        → ServerChange p cpid (elim h [
          | parsed m ↦ (
            unpacked m.address
                (m.payload_start + message_start)
                m.payload_len
                (take message_start b ++ (text ++ drop (message_start + length text) b)),
            record p {
              cached_domain = cached;
              filter = some (filter_add p.filter_size p.filter cpid);
            },
          )
          | fault e ↦ (bad_header e, record p { cached_domain = cached })
        ])
    by_header text cached (parsed m) = (refl, inr (ok, refl))
    by_header text cached (fault e) = (refl, inl (refl, refl))

    by_text :
        (o : Option (List ℕ))
        → ServerChange p cpid (elim o [
          | none ↦ (not_authentic, p)
          | some text ↦ elim (parse_udp_client_message_header now text p.cached_domain).0 [
            | parsed m ↦ (
              unpacked m.address
                  (m.payload_start + message_start)
                  m.payload_len
                  (take message_start b ++ (text ++ drop (message_start + length text) b)),
              record p {
                cached_domain = (parse_udp_client_message_header now text p.cached_domain).1;
                filter = some (filter_add p.filter_size p.filter cpid);
              },
            )
            | fault e ↦ (
              bad_header e,
              record p {
                cached_domain = (parse_udp_client_message_header now text p.cached_domain).1;
              },
            )
          ]
        ])
    by_text none = (refl, inl (refl, refl))
    by_text (some text) =
        by_header text (parse_udp_client_message_header now text p.cached_domain).1
          (parse_udp_client_message_header now text p.cached_domain).0

-- The packet ID that a packet announces; its separate header is decrypted.
abbrev pub cpid_of : List ℕ → ℕ → ℕ
cpid_of b start = from_be 8 (drop 8 (take 16 (drop start b)))

Holds-if :
    {A : Type 0} (Q : A → Type 0) (c : Bool) (x y : Option A)
    → (c ≡ true → Holds Q x)
    → (c ≡ false → Holds Q y)
    → Holds Q (if c then x else y)
Holds-if Q true x y h k = h refl
Holds-if Q false x y h k = k refl

part_header :
    (b : List ℕ) (start : ℕ) (header : List ℕ)
    → part b start (start + 16) ≡ some header
    → take 16 (drop start b) ≡ header
unfolding part
part_header b start header e = elim (Bool-cases (ltb (length b) (start + 16))) [
  | inl out ↦ absurd (cc (rw out at e))
  | inr inside ↦
      ap (λ n. take n (drop start b)) {x = 16} {y = start + 16 - start} (omega arith)
      ∙ some_inj (rw inside at e)
]
  where
    some_inj : {x y : List ℕ} → ◌≡◌ {A = Option (List ℕ)} (some x) (some y) → x ≡ y
    some_inj e = cc

pub server_unpack-Change :
    (now : ℕ) (p : ServerUnpacker) (b : List ℕ) (start len : ℕ)
    → Holds (ServerChange p (cpid_of b start)) (server_unpack now p b start len)
unfolding server_unpack ServerChange
server_unpack-Change now p b start len =
    let P : Unpacked Addr × ServerUnpacker → Type 0 = ServerChange p (cpid_of b start) in
    Holds-if P (ltb len (p.non_aead_header_len + p.aead.overhead)) _ _
      (λ _. (refl, inl (refl, refl)))
      (λ _. Holds-bind P (part b start (start + 16)) _ (λ header e.
        Holds-bind P (part b (start + p.non_aead_header_len) (start + len)) _ (λ _ _.
          let same : cpid_of b start ≡ from_be 8 (drop 8 header) =
            ap (λ t. from_be 8 (drop 8 t)) (part_header b start header e) in
          let here : Unpacked Addr × ServerUnpacker → Type 0 =
            ServerChange p (from_be 8 (drop 8 header)) in
          let rest : Option (Unpacked Addr × ServerUnpacker) =
            if filter_is_ok p.filter (from_be 8 (drop 8 header))
            then server_open now p (from_be 8 (drop 8 header)) (drop 4 header) b
                (start + p.non_aead_header_len) (start + len)
            else some (replay p.csid (from_be 8 (drop 8 header)), p) in
          subst (λ c. Holds (ServerChange p c) rest) (sym same)
            (Holds-if here (filter_is_ok p.filter (from_be 8 (drop 8 header))) _ _
              (λ ok.
                server_open-Change now p (from_be 8 (drop 8 header)) (drop 4 header) b
                  (start + p.non_aead_header_len) (start + len) ok)
              (λ _. (refl, inl (refl, refl)))))))

some_filter : {x y : Filter} → ◌≡◌ {A = Option Filter} (some x) (some y) → x ≡ y
some_filter e = cc

-- A filter of a size that keeps what it has noted, if there is one yet.
pub record IsReady (p : ServerUnpacker) : Type 0 where
  pub size_pos : 1 ≤ p.filter_size
  pub size_small : p.filter_size < 2 ^ 62
  pub sound : (f : Filter) → p.filter ≡ some f → IsSound f

-- The ID of a packet that was unpacked is known.
pub Noted : ServerUnpacker → ℕ → Type 0
Noted p cpid = (f : Filter) × (p.filter ≡ some f) × Remembers f cpid

filter_add-Remembers :
    (size : ℕ) (o : Option Filter) (cpid : ℕ)
    → cpid < 2 ^ 64
    → 1 ≤ size
    → size < 2 ^ 62
    → ((f : Filter) → o ≡ some f → IsSound f)
    → filter_is_ok o cpid ≡ true
    → Remembers (filter_add size o cpid) cpid
filter_add-Remembers size none cpid small pos le sound ok =
    must_add-Remembers (new_filter size) cpid small (new_filter-IsSound size le)
      (is_ok-new_filter size cpid pos le)
filter_add-Remembers size (some f) cpid small pos le sound ok =
    must_add-Remembers f cpid small (sound f refl) ok

module _ (p q : ServerUnpacker) (cpid : ℕ) (r : Unpacked Addr) (small : cpid < 2 ^ 64)
    (v : IsReady p) (c : ServerChange p cpid (r, q)) where
  added :
      filter_is_ok p.filter cpid ≡ true → Remembers (filter_add p.filter_size p.filter cpid) cpid
  added ok =
      filter_add-Remembers p.filter_size p.filter cpid small v.size_pos v.size_small v.sound ok

  pub Change-IsReady : IsReady q
  unfolding ServerChange
  Change-IsReady = record {
    size_pos = subst (λ n. 1 ≤ n) (sym c.0) v.size_pos;
    size_small = subst (λ n. n < 2 ^ 62) (sym c.0) v.size_small;
    sound = λ f e. elim c.1 [
      | inl (g, _) ↦ v.sound f (sym g ∙ e)
      | inr (ok, g) ↦
          Remembers-IsSound f cpid
            (subst (λ x. Remembers x cpid) (some_filter (sym g ∙ e)) (added ok))
    ];
  }

  pub Change-Noted : is_unpacked r ≡ true → Noted q cpid
  unfolding ServerChange Noted
  Change-Noted done = elim c.1 [
    | inl (_, e) ↦ absurd (cc (done, e))
    | inr (ok, g) ↦ (filter_add p.filter_size p.filter cpid, g, added ok)
  ]

  pub Noted-Change : (d : ℕ) → Noted p d → Noted q d
  unfolding ServerChange Noted
  Noted-Change d (f, e, m) = elim c.1 [
    | inl (g, _) ↦ (f, g ∙ e, m)
    | inr (ok, g) ↦ (
      must_add f cpid,
      g ∙ ap (λ o. some (filter_add p.filter_size o cpid)) e,
      must_add-keeps f d cpid small m (sym (ap (λ o. filter_is_ok o cpid) e) ∙ ok),
    )
  ]

  pub Noted-refused : Noted p cpid → is_unpacked r ≡ false
  unfolding ServerChange Noted
  Noted-refused (f, e, m) = elim c.1 [
    | inl (_, g) ↦ g
    | inr (ok, g) ↦ absurd (cc (ok, ap (λ o. filter_is_ok o cpid) e, is_ok-Remembers f cpid m))
  ]
