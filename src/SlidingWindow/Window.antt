-- ===== src/SlidingWindow/Window.antt =====
-- What a replay filter promises, with no ring: the highest counter and every counter accepted so far.
use shadowsocks.Base.{
  ℕ, ◌-◌, Bool, true, false, not, ◌||◌, List, [], ◌∷◌, ltb, leb, ◌==◌, if◌then◌else◌,
}

pub record Window : Type 0 where
  pub last : ℕ
  pub seen : List ℕ

abbrev pub fresh : Window
fresh = record { last = 0; seen = [] }

abbrev pub contains : ℕ → List ℕ → Bool
contains c [] = false
contains c (x ∷ xs) = x == c || contains c xs

-- A counter is acceptable if it is ahead, or within the last `size` counters and not seen.
unfoldable pub accepts : ℕ → Window → ℕ → Bool
accepts size w c =
    if ltb w.last c then true else if leb size (w.last - c) then false else not (contains c w.seen)

unfoldable pub note : Window → ℕ → Window
note w c = record { last = if ltb w.last c then c else w.last; seen = c ∷ w.seen }

unfoldable pub admit : ℕ → Window → ℕ → Bool × Window
admit size w c = if accepts size w c then (true, note w c) else (false, w)

unfoldable pub admit_all : ℕ → Window → List ℕ → List Bool × Window
admit_all size w [] = ([], w)
admit_all size w (c ∷ cs) =
    let (accepted, w') = admit size w c in
    let (rest, w'') = admit_all size w' cs in (accepted ∷ rest, w'')
