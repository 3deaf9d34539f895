-- ===== src/ShadowPacket/Cipher.antt =====
-- The ciphers that packets are made with, `cipher.AEAD` and `cipher.Block`, and the parts of a buffer.
use shadowsocks.Base.{
  ℕ, ◌+◌, ◌-◌, ◌≡◌, List, ◌++◌, Option, none, some, ltb, if◌then◌else◌, length, take, drop, copy_at,
}
use shadowsocks.Base.Bytes.{IsBytes, ◌>>=◌}

-- `cipher.AEAD`, with no additional data: `Seal` and `Open` of a nonce and a text.
pub record Aead : Type 0 where
  pub overhead : ℕ
  pub seal : List ℕ → List ℕ → List ℕ
  pub open_sealed : List ℕ → List ℕ → Option (List ℕ)

-- What the documentation of `cipher.AEAD` promises.
pub record IsAead (a : Aead) : Type 0 where
  pub opens : (nonce p : List ℕ) → a.open_sealed nonce (a.seal nonce p) ≡ some p
  pub longer : (nonce p : List ℕ) → length (a.seal nonce p) ≡ length p + a.overhead

-- `cipher.Block` of AES: blocks of 16 bytes.
pub record Block : Type 0 where
  pub encrypt : List ℕ → List ℕ
  pub decrypt : List ℕ → List ℕ

-- What the documentation of `cipher.Block` promises, on blocks of 16 bytes.
pub record IsBlock (c : Block) : Type 0 where
  pub decrypts : (b : List ℕ) → length b ≡ 16 → IsBytes b → c.decrypt (c.encrypt b) ≡ b
  pub encrypt_length : (b : List ℕ) → length b ≡ 16 → length (c.encrypt b) ≡ 16
  pub decrypt_length : (b : List ℕ) → length b ≡ 16 → length (c.decrypt b) ≡ 16
  pub decrypt_bytes : (b : List ℕ) → length b ≡ 16 → IsBytes (c.decrypt b)

-- `b[from:to]`, where from is at most to.
unfoldable pub part : List ℕ → ℕ → ℕ → Option (List ℕ)
part b from to = if ltb (length b) to then none else some (take (to - from) (drop from b))

-- A write of a function of `b[from:to]` to its place.
unfoldable pub update_part : List ℕ → ℕ → ℕ → (List ℕ → Option (List ℕ)) → Option (List ℕ)
update_part b from to f = do p ← part b from to; q ← f p; some (take from b ++ (q ++ drop to b))

-- `aead.Seal(p[:0], nonce, p, nil)` for `p = b[from:to]`: a buffer with no room for the tag is left as it
-- is, since the result goes to a new one.
unfoldable pub seal_part : Aead → List ℕ → List ℕ → ℕ → ℕ → Option (List ℕ)
seal_part a nonce b from to = do
  p ← part b from to
  let sealed = a.seal nonce p
  some (if ltb (length b) (from + length sealed) then b else copy_at b from sealed)
