-- ===== src/SaltPool/Replay.antt =====
-- Runs of calls of the pool, and the age of its entries.
use shadowsocks.Base.{
  ℕ, ◌+◌, ◌-◌, ◌*◌, ◌≤◌, ◌≡◌, refl, sym, ap, ◌∙◌, false, List, [], ◌∷◌, some, arith, ltb,
  Bool-cases, inl, inr, bytes_eq, bytes_eq_self, bytes_eq_sound, subst,
}
use shadowsocks.SaltPool.{
  Entry, SaltPool, delete_expired, clean, lookup, put, check, add, is_none, new_salt_pool,
}

-- A call of the pool, at a time.
pub data Call : Type 0 where
  checked : ℕ → List ℕ → Call
  added : ℕ → List ℕ → Call

abbrev pub time_of : Call → ℕ
time_of (checked now _) = now
time_of (added now _) = now

abbrev pub call : Call → SaltPool → SaltPool
call (checked now salt) p = (check now salt p).1
call (added now salt) p = add now salt p

unfoldable pub run : List Call → SaltPool → SaltPool
run [] p = p
run (c ∷ cs) p = run cs (call c p)

-- All calls happen within these times.
unfoldable pub Within : ℕ → ℕ → List Call → Type 0
Within t u [] = Unit
Within t u (c ∷ cs) = (t ≤ time_of c) × (time_of c ≤ u) × Within t u cs

-- The calls happen one after the other, from a time on.
unfoldable pub Ordered : ℕ → List Call → Type 0
Ordered t [] = Unit
Ordered t (c ∷ cs) = (t ≤ time_of c) × Ordered (time_of c) cs

-- The salt is in the pool, added no earlier than t.
abbrev Holds : List ℕ → ℕ → SaltPool → Type 0
Holds salt t p = (a : ℕ) × (lookup salt p.pool ≡ some a) × (t ≤ a)

lookup-delete_expired :
    (now r : ℕ) (salt : List ℕ) (es : List Entry) (a : ℕ)
    → lookup salt es ≡ some a
    → now ≤ a + r
    → lookup salt (delete_expired now r es) ≡ some a
unfolding lookup delete_expired
lookup-delete_expired now r salt [] a e h = cc
lookup-delete_expired now r salt ((s, t) ∷ es) a e h =
    ground (arith, lookup-delete_expired now r salt es a)

lookup-put_same :
    (salt : List ℕ) (now : ℕ) (es : List Entry) → lookup salt (put salt now es) ≡ some now
unfolding lookup put
lookup-put_same salt now [] = rw (bytes_eq_self salt) refl
lookup-put_same salt now ((s, t) ∷ es) = ground (arith, lookup-put_same salt now es)

lookup-put_other :
    (salt s : List ℕ) (now : ℕ) (es : List Entry)
    → bytes_eq s salt ≡ false
    → lookup salt (put s now es) ≡ lookup salt es
unfolding lookup put
lookup-put_other salt s now [] h = rw h refl
lookup-put_other salt s now ((s', t) ∷ es) h = elim (Bool-cases (bytes_eq s' s)) [
  | inl same ↦
      let e : s' ≡ s = bytes_eq_sound s' s same in
      rw (same, subst (λ x. bytes_eq x salt ≡ false) (sym e) h) refl
  | inr other ↦ ground (arith, lookup-put_other salt s now es h)
]

clean-Holds :
    (now t : ℕ) (salt : List ℕ) (p : SaltPool)
    → now ≤ t + p.retention
    → Holds salt t p
    → Holds salt t (clean now p)
unfolding clean
clean-Holds now t salt p h (a, e, le) = elim (Bool-cases (ltb p.retention (now - p.last_clean))) [
  | inl due ↦ rw due (a, lookup-delete_expired now p.retention salt p.pool a e (omega arith), le)
  | inr early ↦ rw early (a, e, le)
]

add-Holds :
    (now t : ℕ) (s salt : List ℕ) (p : SaltPool)
    → t ≤ now
    → Holds salt t p
    → Holds salt t (add now s p)
unfolding add
add-Holds now t s salt p h (a, e, le) = elim (Bool-cases (bytes_eq s salt)) [
  | inl same ↦ (
    now,
    subst (λ x. lookup salt (put x now p.pool) ≡ some now) (sym (bytes_eq_sound s salt same))
        (lookup-put_same salt now p.pool),
    h,
  )
  | inr other ↦ (a, lookup-put_other salt s now p.pool other ∙ e, le)
]

clean-retention : (now : ℕ) (p : SaltPool) → (clean now p).retention ≡ p.retention
unfolding clean
clean-retention now p = ground arith

run-Holds :
    (cs : List Call) (t r : ℕ) (salt : List ℕ) (p : SaltPool)
    → p.retention ≡ r
    → Within t (t + r) cs
    → Holds salt t p
    → Holds salt t (run cs p) × ((run cs p).retention ≡ r)
unfolding run Within check add
run-Holds [] t r salt p e w h = (h, e)
run-Holds (checked now s ∷ cs) t r salt p e w h =
    run-Holds cs t r salt (clean now p) (clean-retention now p ∙ e) w.2
      (clean-Holds now t salt p (omega arith) h)
run-Holds (added now s ∷ cs) t r salt p e w h =
    run-Holds cs t r salt (add now s p) e w.2 (add-Holds now t s salt p w.0 h)

-- A salt added at time t is refused up to the retention later, whatever other calls come between.
pub check-add :
    (p : SaltPool) (salt : List ℕ) (t : ℕ) (cs : List Call) (now : ℕ)
    → Within t (t + p.retention) cs
    → t ≤ now
    → now ≤ t + p.retention
    → (check now salt (run cs (add t salt p))).0 ≡ false
unfolding check add
check-add p salt t cs now w l h =
    let start : Holds salt t (add t salt p) = (t, lookup-put_same salt t p.pool, omega arith) in
    let (held, same) = run-Holds cs t p.retention salt (add t salt p) refl w start in
    let (a, e, _) = clean-Holds now t salt (run cs (add t salt p)) (omega arith) held in
    ap is_none e

-- Every entry was added at most this long before a time.
unfoldable pub Young : ℕ → ℕ → List Entry → Type 0
Young age now [] = Unit
Young age now ((_, a) ∷ es) = (now ≤ a + age) × Young age now es

-- Behind a clean, no entry was older than the retention.
abbrev pub IsValid : SaltPool → Type 0
IsValid p = Young p.retention p.last_clean p.pool

delete_expired-Young : (now r : ℕ) (es : List Entry) → Young r now (delete_expired now r es)
unfolding delete_expired Young
delete_expired-Young now r [] = tt
delete_expired-Young now r ((s, a) ∷ es) = elim (Bool-cases (ltb r (now - a))) [
  | inl old ↦ rw old (delete_expired-Young now r es)
  | inr fresh ↦ rw fresh (ground (arith, fresh), delete_expired-Young now r es)
]

put-Young :
    (age clean_at now : ℕ) (salt : List ℕ) (es : List Entry)
    → clean_at ≤ now
    → Young age clean_at es
    → Young age clean_at (put salt now es)
unfolding put Young
put-Young age clean_at now salt [] h y = (omega arith, tt)
put-Young age clean_at now salt ((s, a) ∷ es) h y = elim (Bool-cases (bytes_eq s salt)) [
  | inl same ↦ rw same (omega arith, y.1)
  | inr other ↦ rw other (y.0, put-Young age clean_at now salt es h y.1)
]

Young-later : (r t now : ℕ) (es : List Entry) → now ≤ t + r → Young r t es → Young (2 * r) now es
unfolding Young
Young-later r t now [] h y = tt
Young-later r t now ((s, a) ∷ es) h y = (omega (arith, y.0), Young-later r t now es h y.1)

clean-IsValid : (now : ℕ) (p : SaltPool) → IsValid p → IsValid (clean now p)
unfolding clean
clean-IsValid now p v = elim (Bool-cases (ltb p.retention (now - p.last_clean))) [
  | inl due ↦ rw due (delete_expired-Young now p.retention p.pool)
  | inr early ↦ rw early v
]

clean-last_clean : (now : ℕ) (p : SaltPool) → p.last_clean ≤ now → (clean now p).last_clean ≤ now
unfolding clean
clean-last_clean now p h = ground arith

run-IsValid :
    (cs : List Call) (r t : ℕ) (p : SaltPool)
    → p.retention ≡ r
    → p.last_clean ≤ t
    → Ordered t cs
    → IsValid p
    → IsValid (run cs p) × ((run cs p).retention ≡ r)
unfolding run Ordered check add
run-IsValid [] r t p e l o v = (v, e)
run-IsValid (checked now s ∷ cs) r t p e l o v =
    run-IsValid cs r now (clean now p) (clean-retention now p ∙ e)
      (clean-last_clean now p (omega (arith, o.0))) o.1 (clean-IsValid now p v)
run-IsValid (added now s ∷ cs) r t p e l o v =
    run-IsValid cs r now (add now s p) e (omega (arith, o.0)) o.1
      (put-Young p.retention p.last_clean now s p.pool (omega (arith, o.0)) v)

clean-Young : (now : ℕ) (p : SaltPool) → IsValid p → Young (2 * p.retention) now (clean now p).pool
unfolding clean
clean-Young now p v = elim (Bool-cases (ltb p.retention (now - p.last_clean))) [
  | inl due ↦ rw due (
      Young-later p.retention now now (delete_expired now p.retention p.pool) (omega arith)
        (delete_expired-Young now p.retention p.pool))
  | inr early ↦ rw early (Young-later p.retention p.last_clean now p.pool (ground (arith, early)) v)
]

-- However a pool is used, with calls one after the other, a check leaves no entry that was added more
-- than twice the retention ago.
pub check-Young :
    (cs : List Call) (r start now : ℕ) (salt : List ℕ)
    → Ordered start cs
    → Young (2 * r) now (check now salt (run cs (new_salt_pool start r))).1.pool
unfolding check
check-Young cs r start now salt o =
    let p : SaltPool = run cs (new_salt_pool start r) in
    let (v, e) =
      run-IsValid cs r start (new_salt_pool start r) refl (omega arith) o (unfold Young in tt) in
    subst (λ k. Young (2 * k) now (clean now p).pool) e (clean-Young now p v)
