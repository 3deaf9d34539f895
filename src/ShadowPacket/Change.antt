-- ===== src/ShadowPacket/Change.antt =====
-- How a packet changes the sessions of a client's unpacker.
use shadowsocks.Base.{
  ℕ, ◌-◌, ◌≤◌, ◌≡◌, refl, subst, ◌⊎◌, inl, inr, Bool, true, false, Option, some, arith, Bool-cases,
  Option-cases,
}
use shadowsocks.Addr.{AddrPort}
use shadowsocks.SlidingWindow.{new_filter, is_ok, must_add}
use shadowsocks.ShadowPacket.Cipher.{Aead}
use shadowsocks.ShadowPacket.Unpack.{
  Unpacked, unpacked, replay, Session, ClientUnpacker, Status, in_current, in_old, in_new,
  changed_too_fast, no_cipher, too_many_server_sessions, minute, has_id, session_status, behind,
  note_packet, client_unpack_as,
}

-- Was a packet unpacked?
abbrev pub is_unpacked : {A : Type 0} → Unpacked A → Bool
is_unpacked (unpacked _ _ _ _) = true
is_unpacked _ = false

-- How a packet of an ID in a session changes an unpacker, and whether it is unpacked.
pub data Change (p : ClientUnpacker) (now ssid spid : ℕ) (done : Bool) (q : ClientUnpacker)
    : Type 0 where
  same : q ≡ p → done ≡ false → Change p now ssid spid done q
  noted :
      (s : Session)
      → p.current ≡ some s
      → s.id ≡ ssid
      → is_ok s.filter spid ≡ true
      → q ≡ record p { current = some (note_packet s spid) }
      → Change p now ssid spid done q
  noted_old :
      (s : Session)
      → p.old ≡ some s
      → s.id ≡ ssid
      → is_ok s.filter spid ≡ true
      → q ≡ record p { old = some (note_packet s spid); old_last_seen = now }
      → Change p now ssid spid done q
  renewed :
      (a : Aead)
      → minute ≤ now - p.old_last_seen
      → has_id p.current ssid ≡ false
      → has_id p.old ssid ≡ false
      → q ≡ record p {
        old = p.current;
        old_last_seen = now;
        current =
            some
              (record { id = ssid; aead = a; filter = must_add (new_filter p.filter_size) spid });
      }
      → Change p now ssid spid done q

module _ (now : ℕ) (p : ClientUnpacker) (ssid : ℕ) where
  status-current :
      (s : Session)
      → session_status now p ssid ≡ in_current s
      → (p.current ≡ some s) × (s.id ≡ ssid)
  unfolding session_status
  status-current s e = ground arith

  status-old :
      (s : Session) → session_status now p ssid ≡ in_old s → (p.old ≡ some s) × (s.id ≡ ssid)
  unfolding session_status
  status-old s e = ground arith

  status-new :
      session_status now p ssid ≡ in_new
      → (minute ≤ now - p.old_last_seen)
        × (has_id p.current ssid ≡ false)
        × (has_id p.old ssid ≡ false)
  unfolding session_status
  status-new e = ground arith

-- `behind` keeps the unpacker but for a packet that is unpacked.
behind_lem :
    (p q q' : ClientUnpacker) (o : Option (Unpacked AddrPort)) (r : Unpacked AddrPort)
    → behind p q o ≡ some (r, q')
    → ((q' ≡ p) × (is_unpacked r ≡ false)) ⊎ (q' ≡ q)
behind_lem p q q' o r e = ground (arith, e)

module _ (open_by : Aead → Option (Unpacked AddrPort)) (now : ℕ) (p q : ClientUnpacker)
    (ssid spid : ℕ) (new_aead : Option Aead) where
  refused :
      (r r0 : Unpacked AddrPort)
      → is_unpacked r0 ≡ false
      → ◌≡◌ {A = Option (Unpacked AddrPort × ClientUnpacker)} (some (r0, p)) (some (r, q))
      → Change p now ssid spid (is_unpacked r) q
  refused r r0 h e = same (cc) (cc)

  pub as-Change :
      (r : Unpacked AddrPort) (st : Status)
      → session_status now p ssid ≡ st
      → client_unpack_as open_by now p ssid spid new_aead st ≡ some (r, q)
      → Change p now ssid spid (is_unpacked r) q
  unfolding client_unpack_as
  as-Change r (in_current s) e f = elim (Bool-cases (is_ok s.filter spid)) [
    | inl ok ↦ elim (behind_lem p _ q (open_by s.aead) r (rw ok at f)) [
      | inl (g, h) ↦ same g h
      | inr g ↦ noted s (status-current now p ssid s e).0 (status-current now p ssid s e).1 ok g
    ]
    | inr bad ↦ refused r (replay ssid spid) refl (rw bad at f)
  ]
  as-Change r (in_old s) e f = elim (Bool-cases (is_ok s.filter spid)) [
    | inl ok ↦ elim (behind_lem p _ q (open_by s.aead) r (rw ok at f)) [
      | inl (g, h) ↦ same g h
      | inr g ↦ noted_old s (status-old now p ssid s e).0 (status-old now p ssid s e).1 ok g
    ]
    | inr bad ↦ refused r (replay ssid spid) refl (rw bad at f)
  ]
  as-Change r changed_too_fast e f = refused r too_many_server_sessions refl f
  as-Change r in_new e f = elim (Option-cases new_aead) [
    | inl n ↦
        refused r no_cipher refl
          (subst (λ o. client_unpack_as open_by now p ssid spid o in_new ≡ some (r, q)) n f)
    | inr (a, n) ↦
        elim (behind_lem p _ q (open_by a) r
          (subst (λ o. client_unpack_as open_by now p ssid spid o in_new ≡ some (r, q)) n f)) [
            | inl (g, h) ↦ same g h
            | inr g ↦
                let (late, other, older) = status-new now p ssid e in renewed a late other older g
          ]
  ]
