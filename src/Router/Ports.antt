-- ===== src/Router/Ports.antt =====
-- The criterion for a set of ports means the same in each of its forms.
use shadowsocks.Base.{
  ℕ, ◌≤◌, ◌<◌, ◌^◌, ◌≡◌, refl, sym, ap, ◌∙◌, some, All, arith, ◌==◌, leb, ne→==, ==_iff, List,
  subst,
}
use shadowsocks.Addr.{get_port}
use shadowsocks.PortSet
use shadowsocks.PortSet.{PortRange, set_contains}
use shadowsocks.PortSet.Members.{member, IsPorts, contains_lem}
use shadowsocks.PortSet.RangeSet.{range_set, range_count}
use shadowsocks.PortSet.Scans.{range_set-contains}
use shadowsocks.PortSet.Single.{first-single}
use shadowsocks.Router.Request.{Protocol, RequestInfo, value, or_panic}
use shadowsocks.Router.Criteria.{
  Criterion, source_port, source_port_range_set, source_port_set, dest_port, dest_port_range_set,
  dest_port_set, meet,
}
use shadowsocks.Router.Config.{built, port_criterion}
use shadowsocks.Router.Makes.{Makes, Makes-if}

module _ (s : PortSet.PortSet) (port : ℕ) (v : IsPorts s) (words : All (λ w. w < 2 ^ 64) s)
    (pos : 1 ≤ port) (small : port < 2 ^ 16) where
  one_form :
      PortSet.count s ≡ 1 → value (PortSet.first s == port) ≡ or_panic (PortSet.contains s port)
  one_form one =
      let there : PortSet.contains s port ≡ some (member s port) =
        contains_lem s port ∙ rw (ne→== port 0 (λ z. omega (arith, z, pos))) refl in
      ap value (first-single s port v words small one) ∙ ap or_panic (sym there)

  ranges_form : value (set_contains (range_set s) port) ≡ or_panic (PortSet.contains s port)
  ranges_form = ap or_panic (sym (range_set-contains s port v words pos small).2)

  -- What is made by the choice of a form has a meaning that each form has.
  port_criterion-Makes :
      (one : ℕ → Criterion) (ranges : List PortRange → Criterion)
      (whole : PortSet.PortSet → Criterion) (Means : Criterion → Type 0)
      → (PortSet.count s ≡ 1 → Means (one (PortSet.first s)))
      → Means (ranges (range_set s))
      → Means (whole s)
      → Makes Means (port_criterion one ranges whole s)
  unfolding port_criterion
  port_criterion-Makes one ranges whole Means h k l =
      let n : ℕ = PortSet.count s in
      Makes-if Means (n == 0) _ _ (λ _. tt)
        (λ _.
          Makes-if Means (n == 1) _ _ (λ e. h ((==_iff n 1).0 e))
            (λ _.
              Makes-if Means (n == 65535) _ _ (λ _. tt)
                (λ _. Makes-if Means (leb (range_count s) 16) _ _ (λ _. k) (λ _. l))))

-- Whichever form `RouteConfig.Route` gives the criteria for a port set of 1024 words of 64 bits, one port, ranges
-- or the set, they are met by the same requests as the set itself: those from, or to, its ports. The ports of
-- the request are from 1 to 65535.
pub port_criterion-meet :
    (s : PortSet.PortSet) (network : Protocol) (r : RequestInfo) (from to : Criterion)
    → IsPorts s
    → All (λ w. w < 2 ^ 64) s
    → 1 ≤ r.source.port
    → r.source.port < 2 ^ 16
    → 1 ≤ get_port r.target
    → get_port r.target < 2 ^ 16
    → port_criterion source_port source_port_range_set source_port_set s ≡ built from
    → port_criterion dest_port dest_port_range_set dest_port_set s ≡ built to
    → (meet from network r ≡ meet (source_port_set s) network r)
      × (meet to network r ≡ meet (dest_port_set s) network r)
unfolding meet
port_criterion-meet s network r from to v words p h q k e f =
    let From : Criterion → Type 0 = λ c. meet c network r ≡ meet (source_port_set s) network r in
    let To : Criterion → Type 0 = λ c. meet c network r ≡ meet (dest_port_set s) network r in
    (
      subst (Makes From) e (
          port_criterion-Makes s r.source.port v words p h source_port source_port_range_set
            source_port_set From (one_form s r.source.port v words p h)
            (ranges_form s r.source.port v words p h) refl),
      subst (Makes To) f (
          port_criterion-Makes s (get_port r.target) v words q k dest_port dest_port_range_set
            dest_port_set To (one_form s (get_port r.target) v words q k)
            (ranges_form s (get_port r.target) v words q k) refl),
    )
