-- ===== src/PortSet/Text.antt =====
-- `Parse`: its rounds, and the text form of lists of ports and ranges.
use shadowsocks.Base.{
  ℕ, zero, suc, ◌+◌, ◌≤◌, ◌<◌, ◌^◌, ◌≡◌, refl, sym, ap, ◌∙◌, ◌≢◌, Bool, false, ◌||◌, ◌&&◌, List, [],
  ◌∷◌, ◌++◌, Option, none, some, arith, leb, ◌==◌, length, All, length-append, subst,
}
use native.Mathlib.Nat.{le_refl}
use shadowsocks.Base.Text.{
  cut, cut-none, cut-some, cut_shorter, Lacks, decimal, parse_uint-decimal, decimal-Lacks,
  decimal-cons, Lacks-append,
}
use shadowsocks.PortSet.{
  PortSet, stuck, parse_element, next_element, parse_loop, parse, add_port, add_range,
}
use shadowsocks.PortSet.Members.{
  member, IsPorts, member-add_port, member-add_range, length-add_port, length-add_range,
}

next_shorter : (c : ℕ) (cs : List ℕ) → length (next_element (c ∷ cs)).1 ≤ length cs
unfolding next_element
next_shorter c cs = go (cut b',' (c ∷ cs)) refl
  where
    go :
        (o : Option (List ℕ × List ℕ))
        → cut b',' (c ∷ cs) ≡ o
        → length (next_element (c ∷ cs)).1 ≤ length cs
    go none e = ground (arith, e)
    go (some (a, b)) e = ground (arith, e, cut_shorter b',' (c ∷ cs) a b)

parse_element-ne-stuck : (s : PortSet) (t : List ℕ) → (parse_element s t).0 ≢ some stuck
unfolding parse_element
parse_element-ne-stuck s t e = ground arith

parse_loop-ne-stuck :
    (fuel : ℕ) (s : PortSet) (t : List ℕ) → length t ≤ fuel → (parse_loop fuel s t).0 ≢ some stuck
unfolding parse_loop
parse_loop-ne-stuck fuel s [] h e = cc
parse_loop-ne-stuck zero s (c ∷ cs) h e = absurd (omega arith)
parse_loop-ne-stuck (suc fuel) s (c ∷ cs) h e = ground (
  arith,
  next_shorter c cs,
  parse_element-ne-stuck s (next_element (c ∷ cs)).0,
  parse_loop-ne-stuck fuel (parse_element s (next_element (c ∷ cs)).0).1 (next_element (c ∷ cs)).1,
)

-- `Parse` ends on every text: the rounds allowed are enough.
pub parse-ne-stuck : (s : PortSet) (t : List ℕ) → (parse s t).0 ≢ some stuck
unfolding parse
parse-ne-stuck s t = parse_loop-ne-stuck (length t) s t (omega arith)

-- The elements of the text form: one port, or a range with its last port.
pub data Element : Type 0 where
  one : ℕ → Element
  span : ℕ → ℕ → Element

abbrev pub IsElement : Element → Type 0
IsElement (one p) = (1 ≤ p) × (p < 2 ^ 16)
IsElement (span a b) = (1 ≤ a) × (a < b) × (b < 2 ^ 16)

abbrev pub in_element : Element → ℕ → Bool
in_element (one p) q = p == q
in_element (span a b) q = leb a q && leb q b

abbrev pub in_elements : List Element → ℕ → Bool
in_elements [] q = false
in_elements (e ∷ es) q = in_element e q || in_elements es q

abbrev add_element : PortSet → Element → PortSet
add_element s (one p) = add_port s p
add_element s (span a b) = add_range s a (b + 1)

abbrev add_elements : PortSet → List Element → PortSet
add_elements s [] = s
add_elements s (e ∷ es) = add_elements (add_element s e) es

abbrev pub write_element : Element → List ℕ
write_element (one p) = decimal 5 p
write_element (span a b) = decimal 5 a ++ (b'-' ∷ decimal 5 b)

-- The elements, separated by commas.
abbrev pub write : List Element → List ℕ
write [] = []
write (e ∷ []) = write_element e
write (e ∷ f ∷ es) = write_element e ++ (b',' ∷ write (f ∷ es))

parse_element-write :
    (s : PortSet) (e : Element)
    → IsElement e
    → parse_element s (write_element e) ≡ (none, add_element s e)
unfolding parse_element
parse_element-write s (one p) h = ground (
  arith,
  cut-none b'-' (decimal 5 p) (decimal-Lacks b'-' 5 p (omega arith)),
  parse_uint-decimal (2 ^ 16) 5 p (omega arith) (omega arith) h.1,
)
parse_element-write s (span a b) h = ground (
  arith,
  cut-some b'-' (decimal 5 a) (decimal 5 b) (decimal-Lacks b'-' 5 a (omega arith)),
  parse_uint-decimal (2 ^ 16) 5 a (omega arith) (omega arith) (omega arith),
  parse_uint-decimal (2 ^ 16) 5 b (omega arith) (omega arith) (omega arith),
)

write_element-Lacks : (e : Element) → Lacks b',' (write_element e)
write_element-Lacks (one p) = decimal-Lacks b',' 5 p (omega arith)
write_element-Lacks (span a b) =
    Lacks-append b',' (decimal 5 a) (b'-' ∷ decimal 5 b) (decimal-Lacks b',' 5 a (omega arith))
      (omega arith, decimal-Lacks b',' 5 b (omega arith))

write_element-cons : (e : Element) → (c : ℕ) × (cs : List ℕ) × (write_element e ≡ c ∷ cs)
write_element-cons (one p) = decimal-cons 5 p (omega arith)
write_element-cons (span a b) =
    let (c, cs, e) = decimal-cons 5 a (omega arith) in
    (c, cs ++ (b'-' ∷ decimal 5 b), ap (λ t. t ++ (b'-' ∷ decimal 5 b)) e)

-- One round on a text whose next element is known.
parse_loop_step :
    (fuel : ℕ) (s : PortSet) (rest : List ℕ) (e : Element) (c : ℕ) (cs : List ℕ)
    → IsElement e
    → next_element (c ∷ cs) ≡ (write_element e, rest)
    → parse_loop (suc fuel) s (c ∷ cs) ≡ parse_loop fuel (add_element s e) rest
unfolding parse_loop
parse_loop_step fuel s rest e c cs h n = ground (arith, n, parse_element-write s e h)

next_last : (e : Element) → next_element (write_element e) ≡ (write_element e, [])
unfolding next_element
next_last e = ground (arith, cut-none b',' (write_element e) (write_element-Lacks e))

next_more :
    (e : Element) (t : List ℕ) → next_element (write_element e ++ (b',' ∷ t)) ≡ (write_element e, t)
unfolding next_element
next_more e t = ground (arith, cut-some b',' (write_element e) t (write_element-Lacks e))

parse_loop-write :
    (fuel : ℕ) (s : PortSet) (es : List Element)
    → All IsElement es
    → length (write es) ≤ fuel
    → parse_loop fuel s (write es) ≡ (none, add_elements s es)
parse_loop-write fuel s [] h l = unfold parse_loop in refl
parse_loop-write zero s (e ∷ []) h l =
    let (c, cs, q) = write_element-cons e in absurd (omega (arith, ap length q))
parse_loop-write zero s (e ∷ f ∷ es) h l =
    absurd (omega (arith, length-append (write_element e) (b',' ∷ write (f ∷ es))))
parse_loop-write (suc fuel) s (e ∷ []) h l =
    let (c, cs, q) = write_element-cons e in
    rw q (
      parse_loop_step fuel s [] e c cs h.0
        (subst (λ x. next_element x ≡ (write_element e, [])) q (next_last e)))
    ∙ parse_loop-write fuel (add_element s e) [] tt (omega arith)
parse_loop-write (suc fuel) s (e ∷ f ∷ es) h l =
    let (c, cs, q) = write_element-cons e in
    let t : List ℕ = write (f ∷ es) in
    let whole : write_element e ++ (b',' ∷ t) ≡ c ∷ (cs ++ (b',' ∷ t)) =
      ap (λ x. x ++ (b',' ∷ t)) q in
    subst (λ x. parse_loop (suc fuel) s x ≡ parse_loop fuel (add_element s e) t) (sym whole)
      (parse_loop_step fuel s t e c (cs ++ (b',' ∷ t)) h.0
        (subst (λ x. next_element x ≡ (write_element e, t)) whole (next_more e t)))
    ∙ parse_loop-write fuel (add_element s e) (f ∷ es) h.1
        (omega (arith, length-append (write_element e) (b',' ∷ t)))

IsPorts-add_element : (s : PortSet) (e : Element) → IsPorts s → IsPorts (add_element s e)
IsPorts-add_element s (one p) v = length-add_port s p ∙ v
IsPorts-add_element s (span a b) v = length-add_range s a (b + 1) ∙ v

member-add_element :
    (s : PortSet) (e : Element) (q : ℕ)
    → IsPorts s
    → IsElement e
    → q < 2 ^ 16
    → member (add_element s e) q ≡ (in_element e q || member s q)
member-add_element s (one p) q v h l = member-add_port s p q (omega (arith, v))
member-add_element s (span a b) q v h l =
    member-add_range s a (b + 1) q v (omega arith) (omega arith) l ∙ ground arith

member-add_elements :
    (s : PortSet) (es : List Element) (q : ℕ)
    → IsPorts s
    → All IsElement es
    → q < 2 ^ 16
    → member (add_elements s es) q ≡ (in_elements es q || member s q)
member-add_elements s [] q v h l = refl
member-add_elements s (e ∷ es) q v h l =
    member-add_elements (add_element s e) es q (IsPorts-add_element s e v) h.1 l
    ∙ rw (member-add_element s e q v h.0 l)
        (or_swap (in_elements es q) (in_element e q) (member s q))
  where
    or_swap : (a b c : Bool) → (a || (b || c)) ≡ ((b || a) || c)
    or_swap a b c = ground arith

-- `Parse` accepts the text of any list of ports from 1 to 65535 and ranges with ascending ends, and
-- adds the ports that the elements name, and no others.
pub parse-write :
    (s : PortSet) (es : List Element) (q : ℕ)
    → IsPorts s
    → All IsElement es
    → q < 2 ^ 16
    → ((parse s (write es)).0 ≡ none)
      × (member (parse s (write es)).1 q ≡ (in_elements es q || member s q))
unfolding parse
parse-write s es q v h l =
    rw (parse_loop-write (length (write es)) s es h (le_refl _))
      (refl, member-add_elements s es q v h l)
