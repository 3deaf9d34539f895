-- ===== src/ShadowPacket/Examples.antt =====
-- A client's and a server's unpacker that get a packet twice, with ciphers that hide nothing.
use shadowsocks.Base.{
  ℕ, ltb, ◌&&◌, Bool, none, ◌+◌, ◌-◌, ◌%◌, ◌≡◌, refl, ap₂, ◌∷◌, [], ◌++◌, List, Option, some, true,
  false, arith, length, take,
}
use shadowsocks.Base.Bytes.{IsBytes, be, from_be}
use shadowsocks.Socks5.{
  addr_port_from_slice, conn_addr_from_slice, conn_addr_from_slice_with_domain_cache,
}
use shadowsocks.Header.{
  parse_udp_server_message_header, parse_udp_client_message_header, validate_timestamp,
}
use shadowsocks.ShadowPacket.Cipher.{Aead, Block, IsBlock, part, update_part}
use shadowsocks.ShadowPacket.Unpack.{
  new_client_unpacker, minute, client_unpack, client_unpack_body, client_unpack_as, session_status,
  open_message, ServerUnpacker, server_unpack, server_open,
}
use shadowsocks.ShadowPacket.ServerReplay.{
  ServerArrival, server_step, after_step, is_accepted, serve_all, is_accepted_once,
}
use shadowsocks.ShadowPacket.Replay.{
  Arrival, Between, accepts, unpack, after_unpack, receive_all, accepts-once,
}

abbrev sixteen : List ℕ
sixteen = 0 ∷ 0 ∷ 0 ∷ 0 ∷ 0 ∷ 0 ∷ 0 ∷ 0 ∷ 0 ∷ 0 ∷ 0 ∷ 0 ∷ 0 ∷ 0 ∷ 0 ∷ 0 ∷ []

abbrev to_bytes : List ℕ → List ℕ
to_bytes [] = []
to_bytes (b ∷ rest) = b % 256 ∷ to_bytes rest

abbrev plain_block : Block
plain_block = record { encrypt = λ b. b; decrypt = to_bytes }

length-to_bytes : (b : List ℕ) → length (to_bytes b) ≡ length b
length-to_bytes [] = refl
length-to_bytes (b ∷ rest) = omega (arith, length-to_bytes rest)

to_bytes-IsBytes : (b : List ℕ) → IsBytes (to_bytes b)
to_bytes-IsBytes [] = tt
to_bytes-IsBytes (b ∷ rest) = (omega arith, to_bytes-IsBytes rest)

to_bytes_fixed : (b : List ℕ) → IsBytes b → to_bytes b ≡ b
to_bytes_fixed [] h = refl
to_bytes_fixed (b ∷ rest) (l, h) = ap₂ (λ x xs. x ∷ xs) (omega (arith, l)) (to_bytes_fixed rest h)

plain_block-IsBlock : IsBlock plain_block
plain_block-IsBlock = record {
  decrypts = λ b l h. to_bytes_fixed b h;
  encrypt_length = λ b l. l;
  decrypt_length = λ b l. omega (arith, length-to_bytes b, l);
  decrypt_bytes = λ b l. to_bytes-IsBytes b;
}

abbrev plain_aead : Aead
plain_aead = record {
  overhead = 16;
  seal = λ nonce p. p ++ sixteen;
  open_sealed = λ nonce c. some (take (length c - 16) c);
}

abbrev aead_of : List ℕ → Option Aead
aead_of salt = some plain_aead

abbrev reply : List ℕ
reply =
    sixteen
    ++ (1 ∷ (be 8 1000 ++ (be 8 5 ++ (0 ∷ 0 ∷ 1 ∷ 10 ∷ 0 ∷ 0 ∷ 1 ∷ 0 ∷ 53 ∷ 9 ∷ []))))
    ++ sixteen

abbrev first : Arrival aead_of
first = record {
  time = 6000000000007;
  seconds = 1001;
  buffer = reply;
  start = 0;
  len = length reply;
}

abbrev again : Arrival aead_of
again = record {
  time = 6000000000008;
  seconds = 1001;
  buffer = reply;
  start = 0;
  len = length reply;
}

first_accepted : accepts aead_of (unpack aead_of first (new_client_unpacker 5 4 plain_block)) ≡ true
unfolding client_unpack client_unpack_body client_unpack_as session_status open_message part
    update_part be from_be parse_udp_server_message_header validate_timestamp addr_port_from_slice
first_accepted = refl

first_accepted_ever :
    accepts aead_of
      (unpack aead_of first (receive_all aead_of [] (new_client_unpacker 5 4 plain_block)))
    ≡ true
unfolding receive_all
first_accepted_ever = first_accepted

none-Between : Between aead_of 6000000000007 (6000000000007 + minute) []
unfolding Between
none-Between = tt

accepts-once_example :
    accepts aead_of (
      unpack aead_of again (
        receive_all aead_of [] (
          after_unpack aead_of
            (receive_all aead_of [] (new_client_unpacker 5 4 plain_block))
            (unpack aead_of first (receive_all aead_of [] (new_client_unpacker 5 4 plain_block))))))
    ≡ false
accepts-once_example =
    accepts-once aead_of 5 4 plain_block [] [] first again plain_block-IsBlock (omega arith)
      (omega arith) none-Between (omega arith) (omega arith) refl first_accepted_ever

abbrev question : List ℕ
question = sixteen ++ (0 ∷ (be 8 1000 ++ (0 ∷ 0 ∷ 1 ∷ 10 ∷ 0 ∷ 0 ∷ 1 ∷ 0 ∷ 53 ∷ 9 ∷ []))) ++ sixteen

abbrev server : ServerUnpacker
server = record {
  csid = 0;
  aead = plain_aead;
  filter_size = 4;
  filter = none;
  cached_domain = [];
  non_aead_header_len = 16;
}

abbrev asked : ServerArrival
asked = record { seconds = 1001; buffer = question; start = 0; len = length question }

asked_accepted : is_accepted (server_step asked (serve_all [] server)) ≡ true
unfolding server_unpack server_open part be from_be serve_all parse_udp_client_message_header
    validate_timestamp conn_addr_from_slice_with_domain_cache conn_addr_from_slice
asked_accepted = refl

are_bytes : List ℕ → Bool
are_bytes [] = true
are_bytes (x ∷ xs) = ltb x 256 && are_bytes xs

are_bytes-IsBytes : (xs : List ℕ) → are_bytes xs ≡ true → IsBytes xs
unfolding are_bytes
are_bytes-IsBytes [] e = tt
are_bytes-IsBytes (x ∷ xs) e = (ground (arith, e), are_bytes-IsBytes xs (ground (arith, e)))

question-IsBytes : IsBytes question
unfolding be are_bytes
question-IsBytes = are_bytes-IsBytes question refl

is_accepted_once_example :
    is_accepted (
      server_step asked
        (serve_all [] (after_step (serve_all [] server) (server_step asked (serve_all [] server)))))
    ≡ false
is_accepted_once_example =
    is_accepted_once server [] [] asked asked refl (omega arith) (omega arith) tt question-IsBytes
      tt question-IsBytes refl asked_accepted
