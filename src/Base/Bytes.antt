-- ===== src/Base/Bytes.antt =====
-- Bytes of buffers: `binary.BigEndian`, and writes into a slice that panic when it is too short.
use shadowsocks.Base.Lists.{length, get_or, drop, copy_at, All, copy_at-append, length-append}
use shadowsocks.Base.Tests.{ltb, if◌then◌else◌, le→ltb}
use Prim.Native.Nat.{ℕ, zero, suc, ◌+◌, ◌*◌, ◌/◌, ◌%◌, ◌^◌, ◌≤◌, ◌<◌}
use mathlib.Core.Path.{◌≡◌, refl, sym, ap, ◌∙◌}
use mathlib.Core.Option.{Option, none, some}
use mathlib.Core.List.{List, [], ◌∷◌, ◌++◌}
use native.Mathlib.Nat.{
  pow-suc, one-le-pow, div-add-mod, mod-lt, mod-eq_of_lt, mul-add-mod_self_left, mul-le-mul_right,
}
use native.Mathlib.Omega.{arith}

abbrev pub IsBytes : List ℕ → Type 0
IsBytes = All (λ b. b < 256)

-- `BigEndian.PutUint16` and `BigEndian.Uint16`.
abbrev pub be16 : ℕ → List ℕ
be16 x = (x / 256 % 256) ∷ (x % 256) ∷ []

abbrev pub from_be16 : List ℕ → ℕ
from_be16 b = get_or b 0 0 * 256 + get_or b 1 0

pub from_be16-be16 : (x : ℕ) (rest : List ℕ) → x < 2 ^ 16 → from_be16 (be16 x ++ rest) ≡ x
from_be16-be16 x rest h = omega arith

-- The n bytes of a number, the highest first: `BigEndian.PutUint64` for n = 8.
unfoldable pub be : ℕ → ℕ → List ℕ
be zero x = []
be (suc n) x = (x / 256 ^ n % 256) ∷ be n x

-- The number that the first n bytes write: `BigEndian.Uint64` for n = 8.
unfoldable pub from_be : ℕ → List ℕ → ℕ
from_be zero b = 0
from_be (suc n) [] = 0
from_be (suc n) (x ∷ b) = x * 256 ^ n + from_be n b

pub length-be : (n x : ℕ) → length (be n x) ≡ n
unfolding be
length-be zero x = refl
length-be (suc n) x = ap suc (length-be n x)

from_be-be_low : (n x : ℕ) (rest : List ℕ) → from_be n (be n x ++ rest) ≡ x % 256 ^ n
unfolding be from_be
from_be-be_low zero x rest = omega arith
from_be-be_low (suc n) x rest =
    ap (λ t. x / 256 ^ n % 256 * 256 ^ n + t) (from_be-be_low n x rest)
    ∙ digit x (256 ^ n) (power n)
    ∙ ap (λ t. x % t) (sym (pow-suc 256 n))
  where
    power : (n : ℕ) → 1 ≤ 256 ^ n
    power n = one-le-pow n 256 (omega arith)

    digit : (x m : ℕ) → 1 ≤ m → x / m % 256 * m + x % m ≡ x % (m * 256)
    digit x m h =
        let q : ℕ = x / m / 256 in
        let low : ℕ = x / m % 256 * m + x % m in
        let whole : x ≡ m * 256 * q + low =
          omega (arith, div-add-mod x m, ap (λ t. m * t) (div-add-mod (x / m) 256)) in
        let top : x / m % 256 * m ≤ 255 * m = mul-le-mul_right m (omega arith) in
        let small : low < m * 256 = omega (arith, top, mod-lt x {m = m} h) in
        sym (
          ap (λ t. t % (m * 256)) whole
          ∙ mul-add-mod_self_left (m * 256) q low
          ∙ mod-eq_of_lt small)

-- What `PutUint64` wrote, `Uint64` reads.
pub from_be-be : (n x : ℕ) (rest : List ℕ) → x < 256 ^ n → from_be n (be n x ++ rest) ≡ x
from_be-be n x rest h = from_be-be_low n x rest ∙ mod-eq_of_lt h

-- A write of all of xs at an offset; `none` is the panic on a slice that is too short.
abbrev pub put_at : List ℕ → ℕ → List ℕ → Option (List ℕ)
put_at b i xs = if ltb (length b) (i + length xs) then none else some (copy_at b i xs)

-- A chain of such writes.
infixl 5 ◌>>=◌
abbrev pub ◌>>=◌ {ℓ κ} : {A : Type ℓ} {B : Type κ} → Option A → (A → Option B) → Option B
none >>= f = none
some a >>= f = f a

pub put_at-append :
    (front ys xs : List ℕ) (i : ℕ)
    → length front ≡ i
    → length xs ≤ length ys
    → put_at (front ++ ys) i xs ≡ some (front ++ (xs ++ drop (length xs) ys))
put_at-append front ys xs i e h =
    rw
      (
        ← e,
        le→ltb (length (front ++ ys)) (length front + length xs)
            (omega (arith, length-append front ys)),
      )
      (ap some (copy_at-append front ys xs h))

-- The number that n bytes write is below `256 ^ n`.
pub from_be_bound : (n : ℕ) (b : List ℕ) → IsBytes b → from_be n b < 256 ^ n
unfolding from_be
from_be_bound zero b h = omega arith
from_be_bound (suc n) [] h = one-le-pow (suc n) 256 (omega arith)
from_be_bound (suc n) (x ∷ b) h =
    let m : ℕ = 256 ^ n in
    let top : x * m ≤ 255 * m = mul-le-mul_right m (omega (arith, h.0)) in
    omega (arith, from_be_bound n b h.1, top, pow-suc 256 n)
