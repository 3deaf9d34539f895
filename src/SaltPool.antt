-- ===== src/SaltPool.antt =====
-- ss2022/saltpool.go: the salts of recent requests, against replay. Salts are lists of bytes, the map
-- is an association list, and a time is in nanoseconds; a difference below zero, which is not over
-- the retention, is 0.
pub mod Replay
mod Examples
use shadowsocks.Base.{
  ℕ, ◌-◌, Bool, true, false, not, List, [], ◌∷◌, Option, none, some, ltb, if◌then◌else◌, bytes_eq,
}

-- An entry of the map: a salt and when it was added.
abbrev pub Entry : Type 0
Entry = List ℕ × ℕ

pub record SaltPool : Type 0 where
  pub pool : List Entry
  pub retention : ℕ
  pub last_clean : ℕ

-- `NewSaltPool`
abbrev pub new_salt_pool : ℕ → ℕ → SaltPool
new_salt_pool now retention = record { pool = []; retention = retention; last_clean = now }

-- The loop of `clean`.
unfoldable pub delete_expired : ℕ → ℕ → List Entry → List Entry
delete_expired now retention [] = []
delete_expired now retention ((salt, added) ∷ es) =
    let rest = delete_expired now retention es in
    if ltb retention (now - added) then rest else (salt, added) ∷ rest

-- `SaltPool.clean`
unfoldable pub clean : ℕ → SaltPool → SaltPool
clean now p =
    if ltb p.retention (now - p.last_clean)
    then record p { pool = delete_expired now p.retention p.pool; last_clean = now }
    else p

-- `p.pool[salt]`
unfoldable pub lookup : List ℕ → List Entry → Option ℕ
lookup salt [] = none
lookup salt ((s, added) ∷ es) =
    let rest = lookup salt es in if bytes_eq s salt then some added else rest

-- `p.pool[salt] = now`
unfoldable pub put : List ℕ → ℕ → List Entry → List Entry
put salt now [] = (salt, now) ∷ []
put salt now ((s, added) ∷ es) =
    let rest = put salt now es in if bytes_eq s salt then (s, now) ∷ es else (s, added) ∷ rest

abbrev pub is_none : Option ℕ → Bool
is_none none = true
is_none (some _) = false

-- `SaltPool.Check`: the result and the pool after it.
unfoldable pub check : ℕ → List ℕ → SaltPool → Bool × SaltPool
check now salt p = (is_none (lookup salt (clean now p).pool), clean now p)

-- `SaltPool.Add`
unfoldable pub add : ℕ → List ℕ → SaltPool → SaltPool
add now salt p = record p { pool = put salt now p.pool }
