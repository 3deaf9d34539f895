-- ===== src/Base/Text.antt =====
-- Go strings as lists of bytes: what the program takes from `strings` and `strconv`.
use shadowsocks.Base.Lists.{length}
use shadowsocks.Base.Tests.{ltb, leb, ◌==◌, if◌then◌else◌, lt→ltb, le→ltb, Bool-cases}
use Prim.Native.Nat.{ℕ, zero, suc, ◌+◌, ◌-◌, ◌*◌, ◌/◌, ◌%◌, ◌^◌, ◌≤◌, ◌<◌}
use mathlib.Core.Path.{◌≡◌, refl, ap, ◌∙◌}
use mathlib.Core.Logic.{◌≢◌, inl, inr}
use mathlib.Core.Bool.{Bool, ◌&&◌}
use mathlib.Core.Option.{Option, none, some}
use mathlib.Core.List.{List, [], ◌∷◌, ◌++◌}
use native.Mathlib.Nat.{pow-suc}
use native.Mathlib.Decide.{dec_lt}
use native.Mathlib.Omega.{arith}

cons_first : ℕ → Option (List ℕ × List ℕ) → Option (List ℕ × List ℕ)
cons_first x none = none
cons_first x (some (a, b)) = some (x ∷ a, b)

-- `strings.IndexByte` and the two slices round the index: what stands before the first byte c, and
-- what stands after it; `none` for the index -1.
unfoldable pub cut : ℕ → List ℕ → Option (List ℕ × List ℕ)
unfolding cons_first
cut c [] = none
cut c (x ∷ xs) = if x == c then some ([], xs) else cons_first x (cut c xs)

-- No byte of the text is c.
abbrev pub Lacks : ℕ → List ℕ → Type 0
Lacks c [] = Unit
Lacks c (x ∷ xs) = (x ≢ c) × Lacks c xs

pub cut-none : (c : ℕ) (xs : List ℕ) → Lacks c xs → cut c xs ≡ none
unfolding cut
cut-none c [] h = refl
cut-none c (x ∷ xs) h = ground (arith, cut-none c xs h.1)

pub cut-some : (c : ℕ) (xs ys : List ℕ) → Lacks c xs → cut c (xs ++ (c ∷ ys)) ≡ some (xs, ys)
unfolding cut
cut-some c [] ys h = ground arith
cut-some c (x ∷ xs) ys h = ground (arith, cut-some c xs ys h.1)

-- The part behind the cut is shorter than the text.
pub cut_shorter : (c : ℕ) (xs a b : List ℕ) → cut c xs ≡ some (a, b) → length b < length xs
unfolding cut
cut_shorter c [] a b h = cc
cut_shorter c (x ∷ xs) a b h = go (cut c xs) refl h (cut_shorter c xs)
  where
    go :
        (o : Option (List ℕ × List ℕ))
        → cut c xs ≡ o
        → (if x == c then some ([], xs) else cons_first x o) ≡ some (a, b)
        → ((a b : List ℕ) → cut c xs ≡ some (a, b) → length b < length xs)
        → length b < suc (length xs)
    go none e q ih = ground arith
    go (some (a', b')) e q ih = ground (arith, ih a' b' e)

is_digit : ℕ → Bool
is_digit c = leb b'0' c && leb c b'9'

digits_value : ℕ → List ℕ → Option ℕ
unfolding is_digit
digits_value acc [] = some acc
digits_value acc (c ∷ cs) =
    let rest = digits_value (acc * 10 + (c - b'0')) cs in if is_digit c then rest else none

within : ℕ → Option ℕ → Option ℕ
within bound none = none
within bound (some n) = if ltb n bound then some n else none

-- `strconv.ParseUint(s, 10, bits)` for `bound = 2 ^ bits`; `none` for an error: an empty text, a byte
-- that is no digit, or a value out of range.
unfoldable pub parse_uint : ℕ → List ℕ → Option ℕ
unfolding digits_value within
parse_uint bound [] = none
parse_uint bound (c ∷ cs) = within bound (digits_value 0 (c ∷ cs))

-- A number in decimal, as text of at most n digits.
unfoldable pub decimal : ℕ → ℕ → List ℕ
decimal zero x = []
decimal (suc n) x =
    let front = decimal n (x / 10) in
    if ltb x 10 then (b'0' + x) ∷ [] else front ++ ((b'0' + x % 10) ∷ [])

-- A value of at most n digits.
digits_value-append :
    (cs : List ℕ) (acc d m : ℕ)
    → d < 10
    → digits_value acc cs ≡ some m
    → digits_value acc (cs ++ ((b'0' + d) ∷ [])) ≡ some (m * 10 + d)
unfolding digits_value
digits_value-append [] acc d m h e = ground arith
digits_value-append (c ∷ cs) acc d m h e =
    ground (arith, digits_value-append cs (acc * 10 + (c - b'0')) d m h)

digits_value-decimal : (n x : ℕ) → x < 10 ^ n → 1 ≤ n → digits_value 0 (decimal n x) ≡ some x
unfolding decimal
digits_value-decimal zero x h l = absurd (omega arith)
digits_value-decimal (suc n) x h l = elim (dec_lt x 10) [
  | yes small ↦ rw (lt→ltb x 10 small) (unfold digits_value in ground arith)
  | no big ↦
      let positive : 1 ≤ n = at_least n x h (omega arith) in
      rw (le→ltb x 10 (omega arith)) (
        digits_value-append (decimal n (x / 10)) 0 (x % 10) (x / 10) (omega arith)
          (digits_value-decimal n (x / 10) (omega (arith, pow-suc 10 n)) positive)
        ∙ ap some (omega arith))
]
  where
    at_least : (n x : ℕ) → x < 10 ^ suc n → 10 ≤ x → 1 ≤ n
    at_least zero x h b = absurd (omega arith)
    at_least (suc n) x h b = omega arith

append-ne-nil : (xs : List ℕ) (y : ℕ) → xs ++ (y ∷ []) ≢ []
append-ne-nil [] y e = cc
append-ne-nil (x ∷ xs) y e = cc

decimal-ne-nil : (n x : ℕ) → 1 ≤ n → decimal n x ≢ []
unfolding decimal
decimal-ne-nil zero x h e = absurd (omega arith)
decimal-ne-nil (suc n) x h e = elim (Bool-cases (ltb x 10)) [
  | inl small ↦ cc (rw small at e)
  | inr big ↦ append-ne-nil (decimal n (x / 10)) (b'0' + x % 10) (rw big at e)
]

-- `ParseUint` reads back a number written in decimal, if it is in range.
pub parse_uint-decimal :
    (bound n x : ℕ) → x < 10 ^ n → 1 ≤ n → x < bound → parse_uint bound (decimal n x) ≡ some x
unfolding parse_uint
parse_uint-decimal bound n x h l b = go (decimal n x) refl
  where
    go : (t : List ℕ) → decimal n x ≡ t → parse_uint bound t ≡ some x
    go [] e = absurd (decimal-ne-nil n x l e)
    go (c ∷ cs) e =
        let value : digits_value 0 (c ∷ cs) ≡ some x = rw e at (digits_value-decimal n x h l) in
        ap (within bound) value ∙ rw (lt→ltb x bound b) refl

pub Lacks-append : (c : ℕ) (xs ys : List ℕ) → Lacks c xs → Lacks c ys → Lacks c (xs ++ ys)
Lacks-append c [] ys h k = k
Lacks-append c (x ∷ xs) ys h k = (h.0, Lacks-append c xs ys h.1 k)

-- No byte below the digits stands in a number.
pub decimal-Lacks : (c n x : ℕ) → c < b'0' → Lacks c (decimal n x)
unfolding decimal
decimal-Lacks c zero x h = tt
decimal-Lacks c (suc n) x h = elim (Bool-cases (ltb x 10)) [
  | inl small ↦ rw small (omega arith, tt)
  | inr big ↦ rw big (
      Lacks-append c (decimal n (x / 10)) ((b'0' + x % 10) ∷ []) (decimal-Lacks c n (x / 10) h)
        (omega arith, tt))
]

-- A number is written with one digit at least.
pub decimal-cons : (n x : ℕ) → 1 ≤ n → (c : ℕ) × (cs : List ℕ) × (decimal n x ≡ c ∷ cs)
decimal-cons n x h = go (decimal n x) refl
  where
    go : (t : List ℕ) → decimal n x ≡ t → (c : ℕ) × (cs : List ℕ) × (decimal n x ≡ c ∷ cs)
    go [] e = absurd (decimal-ne-nil n x h e)
    go (c ∷ cs) e = (c, cs, e)
