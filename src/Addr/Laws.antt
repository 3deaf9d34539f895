-- ===== src/Addr/Laws.antt =====
-- What the methods of an address promise.
use shadowsocks.Base.{◌≡◌, refl, ap, ◌↔◌, true, arith, bytes_eq_sound, bytes_eq_self}
use shadowsocks.Addr.{Ip, zero_ip, v4, v6, ip_eq, Addr, none_addr, ip_addr, domain_addr, equals}

ip_eq_sound : (a b : Ip) → ip_eq a b ≡ true → a ≡ b
unfolding ip_eq
ip_eq_sound zero_ip zero_ip h = refl
ip_eq_sound zero_ip (v4 b) h = cc
ip_eq_sound zero_ip (v6 b z) h = cc
ip_eq_sound (v4 a) zero_ip h = cc
ip_eq_sound (v4 a) (v4 b) h = ap v4 (bytes_eq_sound a b h)
ip_eq_sound (v4 a) (v6 b z) h = cc
ip_eq_sound (v6 a y) zero_ip h = cc
ip_eq_sound (v6 a y) (v4 b) h = cc
ip_eq_sound (v6 a y) (v6 b z) h = ground (arith, bytes_eq_sound a b, bytes_eq_sound y z)

ip_eq_self : (a : Ip) → ip_eq a a ≡ true
unfolding ip_eq
ip_eq_self zero_ip = refl
ip_eq_self (v4 a) = bytes_eq_self a
ip_eq_self (v6 a z) = ground (arith, bytes_eq_self a, bytes_eq_self z)

equals_sound : (a b : Addr) → equals a b ≡ true → a ≡ b
unfolding equals
equals_sound none_addr none_addr h = refl
equals_sound none_addr (ip_addr b) h = cc
equals_sound none_addr (domain_addr e q) h = cc
equals_sound (ip_addr a) none_addr h = cc
equals_sound (ip_addr a) (ip_addr b) h = ground (arith, ip_eq_sound a.ip b.ip)
equals_sound (ip_addr a) (domain_addr e q) h = cc
equals_sound (domain_addr d p) none_addr h = cc
equals_sound (domain_addr d p) (ip_addr b) h = cc
equals_sound (domain_addr d p) (domain_addr e q) h = ground (arith, bytes_eq_sound d e)

equals_self : (a : Addr) → equals a a ≡ true
unfolding equals
equals_self none_addr = refl
equals_self (ip_addr a) = ground (arith, ip_eq_self a.ip)
equals_self (domain_addr d p) = ground (arith, bytes_eq_self d)

-- `Equals` holds of exactly the equal addresses.
pub equals_iff : (a b : Addr) → (equals a b ≡ true) ↔ (a ≡ b)
equals_iff a b = (equals_sound a b, λ e. rw e (equals_self b))
