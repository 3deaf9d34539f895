-- ===== src/SlidingWindow/Memory.antt =====
-- What the users of a filter rely on: the counters that it remembers.
use shadowsocks.Base.{ℕ, ◌≤◌, ◌<◌, ◌^◌, ◌≡◌, refl, sym, subst, ◌∙◌, true, false, arith, ==_self}
use shadowsocks.SlidingWindow.{Filter, new_filter, is_ok, must_add, add}
use shadowsocks.SlidingWindow.Window
use shadowsocks.SlidingWindow.Window.{Window, contains, accepts, note, admit}
use shadowsocks.SlidingWindow.Refine.{Tracks, is_ok_refines, add_refines, must_add-eq-add}
use shadowsocks.SlidingWindow.Run.{new_filter-Tracks}

-- A filter that stands for some window.
abbrev pub IsSound : Filter → Type 0
IsSound f = (k : ℕ) × (w : Window) × Tracks k f w

-- A filter that stands for a window which has seen the counter.
abbrev pub Remembers : Filter → ℕ → Type 0
Remembers f c = (k : ℕ) × (w : Window) × Tracks k f w × (contains c w.seen ≡ true)

pub new_filter-IsSound : (size : ℕ) → size < 2 ^ 62 → IsSound (new_filter size)
new_filter-IsSound size h = let (k, t) = new_filter-Tracks size h in (k, Window.fresh, t)

pub Remembers-IsSound : (f : Filter) (c : ℕ) → Remembers f c → IsSound f
Remembers-IsSound f c (k, w, t, _) = (k, w, t)

-- A counter that is remembered is refused.
pub is_ok-Remembers : (f : Filter) (c : ℕ) → Remembers f c → is_ok f c ≡ false
is_ok-Remembers f c (k, w, t, e) =
    is_ok_refines t c ∙ unfold accepts in ground (arith, e, t.bounded c e)

module _ {k : ℕ} {f : Filter} {w : Window} (t : Tracks k f w) (d : ℕ) where
  -- Behind `MustAdd` of an acceptable counter the window has noted the counter.
  must_add-Tracks : d < 2 ^ 64 → is_ok f d ≡ true → Tracks k (must_add f d) (note w d)
  must_add-Tracks h ok =
      let added : add f d ≡ (true, must_add f d) = must_add-eq-add t d ok in
      let admitted : admit f.size w d ≡ (true, note w d) =
        unfold admit in rw (sym (is_ok_refines t d) ∙ ok) refl in
      subst (λ v. Tracks k (must_add f d) v.1) admitted
        (subst (λ g. Tracks k g.1 (admit f.size w d).1) added (add_refines t d h).1)

pub must_add-Remembers :
    (f : Filter) (d : ℕ) → d < 2 ^ 64 → IsSound f → is_ok f d ≡ true → Remembers (must_add f d) d
unfolding note
must_add-Remembers f d h (k, w, t) ok =
    (k, note w d, must_add-Tracks t d h ok, ground (arith, ==_self d))

pub must_add-keeps :
    (f : Filter) (c d : ℕ)
    → d < 2 ^ 64
    → Remembers f c
    → is_ok f d ≡ true
    → Remembers (must_add f d) c
unfolding note
must_add-keeps f c d h (k, w, t, e) ok = (k, note w d, must_add-Tracks t d h ok, ground (arith, e))

-- A filter of positive size accepts any first counter.
pub is_ok-new_filter : (size c : ℕ) → 1 ≤ size → size < 2 ^ 62 → is_ok (new_filter size) c ≡ true
is_ok-new_filter size c h l =
    let (k, t) = new_filter-Tracks size l in
    is_ok_refines t c ∙ unfold accepts new_filter in ground (arith, h)
