-- ===== src/Padding/Names.antt =====
-- The policies at their names.
use shadowsocks.Base.{◌≡◌, refl, true, [], some, bytes_eq}
use shadowsocks.Addr.{domain_addr, get_port}
use shadowsocks.Padding.{
  pad_plain_dns, should_pad, pad_all, no_padding, parse_padding_policy, pad_all_name,
  no_padding_name, pad_plain_dns_name,
}

parse-default : parse_padding_policy [] ≡ some pad_plain_dns
unfolding parse_padding_policy bytes_eq
parse-default = refl

parse-all : parse_padding_policy pad_all_name ≡ some pad_all
unfolding parse_padding_policy bytes_eq
parse-all = refl

parse-no : parse_padding_policy no_padding_name ≡ some no_padding
unfolding parse_padding_policy bytes_eq
parse-no = refl

parse-dns : parse_padding_policy pad_plain_dns_name ≡ some pad_plain_dns
unfolding parse_padding_policy bytes_eq
parse-dns = refl

pad-dns : should_pad pad_plain_dns (domain_addr [] 53) ≡ true
unfolding should_pad get_port
pad-dns = refl
