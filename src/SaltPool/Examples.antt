-- ===== src/SaltPool/Examples.antt =====
-- The pool at concrete times.
use shadowsocks.Base.{ℕ, ◌*◌, ◌≡◌, refl, true, false, List, [], ◌∷◌, arith, bytes_eq}
use shadowsocks.SaltPool.{new_salt_pool, check, add, clean, lookup, put, delete_expired}
use shadowsocks.SaltPool.Replay.{
  Call, checked, added, run, Within, Ordered, Young, check-add, check-Young,
}

abbrev salt : List ℕ
salt = 1 ∷ 2 ∷ []

abbrev other : List ℕ
other = 3 ∷ []

abbrev calls : List Call
calls = checked 110 other ∷ added 111 other ∷ checked 150 salt ∷ []

check-later : (check 161 salt (run calls (add 100 salt (new_salt_pool 100 60)))).0 ≡ true
unfolding check run add clean lookup put delete_expired bytes_eq
check-later = refl

check-add_example : (check 160 salt (run calls (add 100 salt (new_salt_pool 100 60)))).0 ≡ false
check-add_example =
    check-add (new_salt_pool 100 60) salt 100 calls 160 (unfold Within in omega arith) (omega arith)
      (omega arith)

check-Young_example : Young (2 * 60) 170 (check 170 salt (run calls (new_salt_pool 100 60))).1.pool
check-Young_example = check-Young calls 60 100 170 salt (unfold Ordered in omega arith)
