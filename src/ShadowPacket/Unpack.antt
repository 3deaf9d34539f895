-- ===== src/ShadowPacket/Unpack.antt =====
-- `ShadowPacketClientUnpacker` and `ShadowPacketServerUnpacker`. The buffer after an error is not modelled:
-- nothing reads it. A slice ends within its buffer, whose capacity is its length. A session with no cipher, `nil` in the source, is `none`.
use shadowsocks.Base.{
  ℕ, ◌+◌, ◌-◌, ◌*◌, Bool, true, false, List, ◌++◌, Option, none, some, ltb, ◌==◌, if◌then◌else◌,
  length, take, drop,
}
use shadowsocks.Base.Bytes.{from_be, ◌>>=◌}
use shadowsocks.Addr.{Addr, AddrPort}
use shadowsocks.SlidingWindow.{Filter, new_filter, is_ok, must_add}
use shadowsocks.Header.{
  Fault, Parsed, parsed, fault, Message, parse_udp_client_message_header,
  parse_udp_server_message_header,
}
use shadowsocks.ShadowPacket.Cipher.{Aead, Block, part, update_part}
use shadowsocks.ShadowPacket.Pack.{separate_header_length}

-- What `UnpackInPlace` returns: an error, or the address, the payload's start and length, and the buffer.
pub data Unpacked (A : Type 0) : Type 0 where
  packet_too_small : Unpacked A
  too_many_server_sessions : Unpacked A
  no_cipher : Unpacked A
  replay : ℕ → ℕ → Unpacked A
  not_authentic : Unpacked A
  bad_header : Fault → Unpacked A
  unpacked : A → ℕ → ℕ → List ℕ → Unpacked A

-- A server session that a client knows: the ID, the cipher and the filter.
pub record Session : Type 0 where
  pub id : ℕ
  pub aead : Aead
  pub filter : Filter

-- `ShadowPacketClientUnpacker`
pub record ClientUnpacker : Type 0 where
  pub csid : ℕ
  pub filter_size : ℕ
  pub current : Option Session
  pub old : Option Session
  pub old_last_seen : ℕ
  pub block : Block

-- The unpacker that `UDPClient.NewSession` makes.
abbrev pub new_client_unpacker : ℕ → ℕ → Block → ClientUnpacker
new_client_unpacker csid filter_size block = record {
  csid = csid;
  filter_size = filter_size;
  current = none;
  old = none;
  old_last_seen = 0;
  block = block;
}

-- `sessionStatus`
pub data Status : Type 0 where
  in_current : Session → Status
  in_old : Session → Status
  changed_too_fast : Status
  in_new : Status

-- `time.Minute`
abbrev pub minute : ℕ
minute = 60 * 1000000000

abbrev pub has_id : Option Session → ℕ → Bool
has_id none ssid = false
has_id (some s) ssid = ssid == s.id

abbrev pub status_of_old : ℕ → ℕ → Option Session → ℕ → Status
status_of_old now last_seen none ssid =
    if ltb (now - last_seen) minute then changed_too_fast else in_new
status_of_old now last_seen (some s) ssid =
    if ssid == s.id
    then in_old s
    else if ltb (now - last_seen) minute
    then changed_too_fast
    else in_new

-- The first `switch`: which session a packet belongs to.
unfoldable pub session_status : ℕ → ClientUnpacker → ℕ → Status
session_status now p ssid = elim p.current [
  | none ↦ status_of_old now p.old_last_seen p.old ssid
  | some s ↦ if ssid == s.id then in_current s else status_of_old now p.old_last_seen p.old ssid
]

-- The rest for a known cipher: open the body and parse the message header.
unfoldable pub open_message :
    {A : Type 0}
    → Aead
    → (List ℕ → Parsed (Message A))
    → List ℕ
    → List ℕ
    → ℕ
    → ℕ
    → Option (Unpacked A)
open_message aead parse nonce b message_start packet_end = do
  ciphertext ← part b message_start packet_end
  some (elim (aead.open_sealed nonce ciphertext) [
    | none ↦ not_authentic
    | some plaintext ↦ elim (parse plaintext) [
      | fault e ↦ bad_header e
      | parsed m ↦
          unpacked m.address (m.payload_start + message_start) m.payload_len
            (take message_start b ++ (plaintext ++ drop (message_start + length plaintext) b))
    ]
  ])

-- A change of the unpacker behind an unpacked packet.
abbrev pub behind : {A P : Type 0} → P → P → Option (Unpacked A) → Option (Unpacked A × P)
behind p p' none = none
behind p p' (some (unpacked a s l b)) = some (unpacked a s l b, p')
behind p p' (some packet_too_small) = some (packet_too_small, p)
behind p p' (some too_many_server_sessions) = some (too_many_server_sessions, p)
behind p p' (some no_cipher) = some (no_cipher, p)
behind p p' (some (replay s i)) = some (replay s i, p)
behind p p' (some not_authentic) = some (not_authentic, p)
behind p p' (some (bad_header e)) = some (bad_header e, p)

-- `MustAdd` of a packet ID to the filter of a session.
abbrev pub note_packet : Session → ℕ → Session
note_packet s pid = record s { filter = must_add s.filter pid }

-- `UnpackInPlace` behind the determination of the status: the check of the packet ID, the opening and
-- parsing by `open_by`, and the update of the filter and of the sessions. The last argument but one is
-- the cipher of a new session.
unfoldable pub client_unpack_as :
    (Aead → Option (Unpacked AddrPort))
    → ℕ
    → ClientUnpacker
    → ℕ
    → ℕ
    → Option Aead
    → Status
    → Option (Unpacked AddrPort × ClientUnpacker)
client_unpack_as open_by now p ssid spid new_aead (in_current s) =
    if is_ok s.filter spid
    then behind p (record p { current = some (note_packet s spid) }) (open_by s.aead)
    else some (replay ssid spid, p)
client_unpack_as open_by now p ssid spid new_aead (in_old s) =
    if is_ok s.filter spid
    then behind p (record p { old = some (note_packet s spid); old_last_seen = now })
        (open_by s.aead)
    else some (replay ssid spid, p)
client_unpack_as open_by now p ssid spid new_aead changed_too_fast =
    some (too_many_server_sessions, p)
client_unpack_as open_by now p ssid spid none in_new = some (no_cipher, p)
client_unpack_as open_by now p ssid spid (some aead) in_new =
    behind p
      (record p {
        old = p.current;
        old_last_seen = now;
        current =
            some (record {
              id = ssid;
              aead = aead;
              filter = must_add (new_filter p.filter_size) spid;
            });
      })
      (open_by aead)

module _ (aead_of : List ℕ → Option Aead) where
  -- `UnpackInPlace` behind the separate header, which is decrypted. `now_s` is the time in seconds. The
  -- ciphertext is sliced, which may panic, before the session is looked for.
  unfoldable pub client_unpack_body :
      ℕ → ℕ → ClientUnpacker → List ℕ → List ℕ → ℕ → ℕ → Option (Unpacked AddrPort × ClientUnpacker)
  client_unpack_body now now_s p header b message_start packet_end = do
    _ ← part b message_start packet_end
    let ssid = from_be 8 header
    client_unpack_as
        (λ a.
          open_message a (λ t. parse_udp_server_message_header now_s t p.csid) (drop 4 header) b
            message_start packet_end)
        now p ssid (from_be 8 (drop 8 header)) (aead_of (take 8 header)) (session_status now p ssid)

  -- `ShadowPacketClientUnpacker.UnpackInPlace`
  unfoldable pub client_unpack :
      ℕ → ℕ → ClientUnpacker → List ℕ → ℕ → ℕ → Option (Unpacked AddrPort × ClientUnpacker)
  client_unpack now now_s p b packet_start packet_len =
      if ltb packet_len (separate_header_length + 16) then some (packet_too_small, p) else (do
        let message_start = packet_start + separate_header_length
        b' ← update_part b packet_start message_start (λ s. some (p.block.decrypt s))
        header ← part b' packet_start message_start
        client_unpack_body now now_s p header b' message_start (packet_start + packet_len))

-- `ShadowPacketServerUnpacker`
pub record ServerUnpacker : Type 0 where
  pub csid : ℕ
  pub aead : Aead
  pub filter_size : ℕ
  pub filter : Option Filter
  pub cached_domain : List ℕ
  pub non_aead_header_len : ℕ

abbrev pub filter_is_ok : Option Filter → ℕ → Bool
filter_is_ok none cpid = true
filter_is_ok (some f) cpid = is_ok f cpid

abbrev pub filter_add : ℕ → Option Filter → ℕ → Filter
filter_add size none cpid = must_add (new_filter size) cpid
filter_add size (some f) cpid = must_add f cpid

-- The packet is opened and parsed with the cached domain, which a parser updates in any case.
unfoldable pub server_open :
    ℕ → ServerUnpacker → ℕ → List ℕ → List ℕ → ℕ → ℕ → Option (Unpacked Addr × ServerUnpacker)
server_open now_s p cpid nonce b message_start packet_end = do
  ciphertext ← part b message_start packet_end
  some (elim (p.aead.open_sealed nonce ciphertext) [
    | none ↦ (not_authentic, p)
    | some plaintext ↦
        let (r, cached) = parse_udp_client_message_header now_s plaintext p.cached_domain in
        elim r [
          | fault e ↦ (bad_header e, record p { cached_domain = cached })
          | parsed m ↦ (
            unpacked m.address (m.payload_start + message_start) m.payload_len
                (take message_start b ++ (plaintext ++ drop (message_start + length plaintext) b)),
            record p {
              cached_domain = cached;
              filter = some (filter_add p.filter_size p.filter cpid);
            },
          )
        ]
  ])

-- `ShadowPacketServerUnpacker.UnpackInPlace`; the separate header is decrypted before. Both slices are taken
-- before the packet ID is checked.
unfoldable pub server_unpack :
    ℕ → ServerUnpacker → List ℕ → ℕ → ℕ → Option (Unpacked Addr × ServerUnpacker)
server_unpack now_s p b packet_start packet_len =
    if ltb packet_len (p.non_aead_header_len + p.aead.overhead)
    then some (packet_too_small, p)
    else (do
      header ← part b packet_start (packet_start + separate_header_length)
      _ ← part b (packet_start + p.non_aead_header_len) (packet_start + packet_len)
      let cpid = from_be 8 (drop 8 header)
      if filter_is_ok p.filter cpid
          then server_open now_s p cpid (drop 4 header) b (packet_start + p.non_aead_header_len)
              (packet_start + packet_len)
          else some (replay p.csid cpid, p))
