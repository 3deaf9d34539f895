-- ===== src/SlidingWindow/Examples.antt =====
-- Runs of the replay filter at concrete counters.
use shadowsocks.Base.{ℕ, ◌≡◌, refl, true, false, List, [], ◌∷◌, arith}
use shadowsocks.SlidingWindow.{
  bit_length, ring_blocks, new_filter, is_unseen, is_ok, clear_blocks, advance, mark, add, add_all,
  reset,
}
use shadowsocks.SlidingWindow.Window
use shadowsocks.SlidingWindow.Window.{accepts, admit, admit_all}
use shadowsocks.SlidingWindow.Refine.{Tracks, is_ok_refines, add_refines, reset-Tracks}
use shadowsocks.SlidingWindow.Run.{
  new_filter-Tracks, add_all-eq-admit_all, accepted, Fresh, accepted-Fresh,
}

abbrev script : List ℕ
script = 0 ∷ 5 ∷ 5 ∷ 300 ∷ 3 ∷ 60 ∷ 60 ∷ 1000 ∷ 700 ∷ 999 ∷ []

new_blocks : ring_blocks 256 ≡ 8
unfolding ring_blocks bit_length
new_blocks = refl

add_all-script :
    (add_all (new_filter 256) script).0
    ≡ true ∷ true ∷ false ∷ true ∷ false ∷ true ∷ false ∷ true ∷ false ∷ true ∷ []
unfolding add_all new_filter ring_blocks bit_length add advance mark clear_blocks is_unseen
add_all-script = refl

abbrev tracked : Tracks (new_filter-Tracks 256 (omega arith)).0 (new_filter 256) Window.fresh
tracked = (new_filter-Tracks 256 (omega arith)).1

is_ok_refines_example : is_ok (new_filter 256) 7 ≡ accepts (new_filter 256).size Window.fresh 7
is_ok_refines_example = is_ok_refines tracked 7

add_refines_example :
    ((add (new_filter 256) 70).0 ≡ (admit (new_filter 256).size Window.fresh 70).0)
    × Tracks
        (new_filter-Tracks 256 (omega arith)).0
        (add (new_filter 256) 70).1
        (admit (new_filter 256).size Window.fresh 70).1
add_refines_example = add_refines tracked 70 (omega arith)

reset-Tracks_example :
    Tracks (new_filter-Tracks 256 (omega arith)).0 (reset (add (new_filter 256) 70).1) Window.fresh
reset-Tracks_example = reset-Tracks (add_refines tracked 70 (omega arith)).1

add_all-eq-admit_all_example :
    (add_all (new_filter 256) script).0 ≡ (admit_all 256 Window.fresh script).0
add_all-eq-admit_all_example = add_all-eq-admit_all 256 script (omega arith) (omega arith)

accepted-Fresh_example : Fresh [] (accepted script (add_all (new_filter 256) script).0)
accepted-Fresh_example = accepted-Fresh 256 script (omega arith) (omega arith)
