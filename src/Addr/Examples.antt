-- ===== src/Addr/Examples.antt =====
-- Addresses at concrete values.
use shadowsocks.Base.{ℕ, ◌≡◌, refl, ◌↔◌, true, List, [], ◌∷◌, some, none, bytes_eq}
use shadowsocks.Addr.{
  v4, v6, domain_addr, equals, addr_from_host_port, addr_from_domain_port, addr_port_mapped_equal,
  as_16,
}
use shadowsocks.Addr.Laws.{equals_iff}

abbrev host : List ℕ
host = b'a' ∷ b'.' ∷ b'b' ∷ []

equals_iff_example :
    (equals (domain_addr host 53) (domain_addr host 80) ≡ true)
    ↔ (domain_addr host 53 ≡ domain_addr host 80)
equals_iff_example = equals_iff (domain_addr host 53) (domain_addr host 80)

host_port : addr_from_host_port (λ h. none) host 53 ≡ some (domain_addr host 53)
unfolding addr_from_host_port addr_from_domain_port
host_port = refl

mapped :
    addr_port_mapped_equal
      (record { ip = v4 (1 ∷ 1 ∷ 1 ∷ 1 ∷ []); port = 53 })
      (record {
        ip = v6 (0 ∷ 0 ∷ 0 ∷ 0 ∷ 0 ∷ 0 ∷ 0 ∷ 0 ∷ 0 ∷ 0 ∷ 255 ∷ 255 ∷ 1 ∷ 1 ∷ 1 ∷ 1 ∷ []) [];
        port = 53;
      })
    ≡ true
unfolding addr_port_mapped_equal as_16 bytes_eq
mapped = refl
