-- ===== src/ShadowPacket/Knowledge.antt =====
-- The sessions of a client's unpacker over time, and the packets that they remember.
use native.Mathlib.Nat.{le_refl}
use shadowsocks.Base.{
  ℕ, ◌+◌, ◌^◌, ◌≤◌, ◌<◌, ◌≡◌, refl, sym, subst, Bool, true, false, Option, some, arith,
}
use shadowsocks.SlidingWindow.{new_filter, is_ok, must_add}
use shadowsocks.SlidingWindow.Memory.{
  IsSound, Remembers, new_filter-IsSound, is_ok-Remembers, must_add-Remembers, must_add-keeps,
  Remembers-IsSound, is_ok-new_filter,
}
use shadowsocks.ShadowPacket.Unpack.{Session, ClientUnpacker, minute, has_id, note_packet}
use shadowsocks.ShadowPacket.Change.{Change, same, noted, noted_old, renewed}

-- What a client's unpacker holds: filters of positive size that stand for windows, and an old session
-- that differs from the current one.
pub record IsValid (p : ClientUnpacker) : Type 0 where
  pub size_pos : 1 ≤ p.filter_size
  pub size_small : p.filter_size < 2 ^ 62
  pub current_sound : (s : Session) → p.current ≡ some s → IsSound s.filter
  pub old_sound : (s : Session) → p.old ≡ some s → IsSound s.filter
  pub apart : (s : Session) → p.old ≡ some s → has_id p.current s.id ≡ false

-- A packet of the session was unpacked, and the session is there: the current one, or the old one seen
-- since the time.
pub data Knows (p : ClientUnpacker) (ssid spid since : ℕ) : Type 0 where
  in_current_one :
      (s : Session)
      → p.current ≡ some s
      → s.id ≡ ssid
      → Remembers s.filter spid
      → Knows p ssid spid since
  in_old_one :
      (s : Session)
      → p.old ≡ some s
      → s.id ≡ ssid
      → Remembers s.filter spid
      → since ≤ p.old_last_seen
      → Knows p ssid spid since

has_id_self :
    (o : Option Session) (s : Session) (ssid : ℕ) → o ≡ some s → s.id ≡ ssid → has_id o ssid ≡ true
has_id_self o s ssid e i = rw e (ground (arith, i))

remembered :
    (s t : Session) (spid : ℕ) → Remembers s.filter spid → s ≡ t → is_ok t.filter spid ≡ true → ⊥
remembered s t spid m h ok =
    cc (ok, is_ok-Remembers t.filter spid (subst (λ x. Remembers x.filter spid) h m))

module _ {p : ClientUnpacker} {now ssid spid : ℕ} (v : IsValid p) (small : spid < 2 ^ 64) where
  pub Change-IsValid :
      {done : Bool} {q : ClientUnpacker} → Change p now ssid spid done q → IsValid q
  Change-IsValid (same e _) = subst IsValid (sym e) v
  Change-IsValid (noted s e i ok f) =
      let kept : IsSound (must_add s.filter spid) =
        Remembers-IsSound _ spid
          (must_add-Remembers s.filter spid small (v.current_sound s e) ok) in
      subst IsValid (sym f) (record {
        size_pos = v.size_pos;
        size_small = v.size_small;
        current_sound =
            λ t g. let h : note_packet s spid ≡ t = cc in subst (λ x. IsSound x.filter) h kept;
        old_sound = v.old_sound;
        apart = λ t g. subst (λ o. has_id o t.id ≡ false) e (v.apart t g);
      })
  Change-IsValid (noted_old s e i ok f) =
      let kept : IsSound (must_add s.filter spid) =
        Remembers-IsSound _ spid (must_add-Remembers s.filter spid small (v.old_sound s e) ok) in
      subst IsValid (sym f) (record {
        size_pos = v.size_pos;
        size_small = v.size_small;
        current_sound = v.current_sound;
        old_sound =
            λ t g. let h : note_packet s spid ≡ t = cc in subst (λ x. IsSound x.filter) h kept;
        apart = λ t g.
            let h : note_packet s spid ≡ t = cc in
            subst (λ x. has_id p.current x.id ≡ false) h (v.apart s e);
      })
  Change-IsValid (renewed a late other older f) =
      let first : Remembers (must_add (new_filter p.filter_size) spid) spid =
        must_add-Remembers (new_filter p.filter_size) spid small
          (new_filter-IsSound p.filter_size v.size_small)
          (is_ok-new_filter p.filter_size spid v.size_pos v.size_small) in
      subst IsValid (sym f) (record {
        size_pos = v.size_pos;
        size_small = v.size_small;
        current_sound = λ t g.
            let h : ◌≡◌ {A = Session}
                (record { id = ssid; aead = a; filter = must_add (new_filter p.filter_size) spid })
                t =
              cc in
            subst (λ x. IsSound x.filter) h (Remembers-IsSound _ spid first);
        old_sound = v.current_sound;
        apart = λ t g.
            let h : has_id (some t) ssid ≡ false = subst (λ o. has_id o ssid ≡ false) g other in
            ground (arith, h);
      })

  -- A packet that is unpacked is known from then on.
  pub Change-Knows :
      {done : Bool} {q : ClientUnpacker}
      → Change p now ssid spid done q
      → done ≡ true
      → Knows q ssid spid now
  Change-Knows (same e d) h = cc
  Change-Knows {done} {q} (noted s e i ok f) h =
      subst (λ x. Knows x ssid spid now) (sym f)
        (in_current_one (note_packet s spid) refl i
          (must_add-Remembers s.filter spid small (v.current_sound s e) ok))
  Change-Knows (noted_old s e i ok f) h =
      subst (λ x. Knows x ssid spid now) (sym f)
        (in_old_one (note_packet s spid) refl i
          (must_add-Remembers s.filter spid small (v.old_sound s e) ok) (le_refl now))
  Change-Knows (renewed a late other older f) h =
      subst (λ x. Knows x ssid spid now) (sym f)
        (in_current_one
          (record { id = ssid; aead = a; filter = must_add (new_filter p.filter_size) spid }) refl
          refl
          (must_add-Remembers (new_filter p.filter_size) spid small
            (new_filter-IsSound p.filter_size v.size_small)
            (is_ok-new_filter p.filter_size spid v.size_pos v.size_small)))

  -- What is known stays known for a minute, whatever packet comes.
  pub Knows-Change :
      {done : Bool} {q : ClientUnpacker} {id pid since : ℕ}
      → Change p now ssid spid done q
      → since ≤ now
      → now < since + minute
      → Knows p id pid since
      → Knows q id pid since
  Knows-Change {done} {q} {id} {pid} {since} (same e _) l u k =
      subst (λ x. Knows x id pid since) (sym e) k
  Knows-Change {done} {q} {id} {pid} {since} (noted s e i ok f) l u (in_current_one t g j m) =
      let h : t ≡ s = cc in
      subst (λ x. Knows x id pid since) (sym f)
        (in_current_one (note_packet s spid) refl (subst (λ x. x.id ≡ id) h j)
          (must_add-keeps s.filter pid spid small (subst (λ x. Remembers x.filter pid) h m) ok))
  Knows-Change {done} {q} {id} {pid} {since} (noted s e i ok f) l u (in_old_one t g j m b) =
      subst (λ x. Knows x id pid since) (sym f) (in_old_one t g j m b)
  Knows-Change {done} {q} {id} {pid} {since} (noted_old s e i ok f) l u (in_current_one t g j m) =
      subst (λ x. Knows x id pid since) (sym f) (in_current_one t g j m)
  Knows-Change {done} {q} {id} {pid} {since} (noted_old s e i ok f) l u (in_old_one t g j m b) =
      let h : t ≡ s = cc in
      subst (λ x. Knows x id pid since) (sym f)
        (in_old_one (note_packet s spid) refl (subst (λ x. x.id ≡ id) h j)
          (must_add-keeps s.filter pid spid small (subst (λ x. Remembers x.filter pid) h m) ok) l)
  Knows-Change {done} {q} {id} {pid} {since} (renewed a late other older f) l u
        (in_current_one t g j m) =
      subst (λ x. Knows x id pid since) (sym f) (in_old_one t g j m l)
  Knows-Change (renewed a late other older f) l u (in_old_one t g j m b) =
      absurd (omega (arith, late, b, u))

  -- A packet that is known is not unpacked.
  pub Knows-refused :
      {done : Bool} {q : ClientUnpacker} {since : ℕ}
      → Change p now ssid spid done q
      → Knows p ssid spid since
      → done ≡ false
  Knows-refused (same e d) k = d
  Knows-refused (noted s e i ok f) (in_current_one t g j m) = absurd (remembered t s spid m (cc) ok)
  Knows-refused (noted s e i ok f) (in_old_one t g j m b) =
      let h : has_id p.current ssid ≡ false =
        subst (λ x. has_id p.current x ≡ false) j (v.apart t g) in
      cc (h, has_id_self p.current s ssid e i)
  Knows-refused (noted_old s e i ok f) (in_current_one t g j m) =
      let h : has_id p.current ssid ≡ false =
        subst (λ x. has_id p.current x ≡ false) i (v.apart s e) in
      cc (h, has_id_self p.current t ssid g j)
  Knows-refused (noted_old s e i ok f) (in_old_one t g j m b) =
      absurd (remembered t s spid m (cc) ok)
  Knows-refused (renewed a late other older f) (in_current_one t g j m) =
      cc (other, has_id_self p.current t ssid g j)
  Knows-refused (renewed a late other older f) (in_old_one t g j m b) =
      cc (older, has_id_self p.old t ssid g j)
