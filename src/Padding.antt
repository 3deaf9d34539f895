-- ===== src/Padding.antt =====
-- ss2022/padding.go: whether a message is padded, by its target. Names of policies are lists of bytes,
-- and `none` is the error for another name.
mod Names
use shadowsocks.Base.{
  ℕ, Bool, true, false, List, [], ◌∷◌, Option, none, some, ◌==◌, ◌||◌, if◌then◌else◌, bytes_eq,
}
use shadowsocks.Addr.{Addr, get_port}

-- The policies that `ParsePaddingPolicy` can return.
pub data PaddingPolicy : Type 0 where
  no_padding pad_all pad_plain_dns : PaddingPolicy

-- The call of a `PaddingPolicy`.
unfoldable pub should_pad : PaddingPolicy → Addr → Bool
should_pad no_padding _ = false
should_pad pad_all _ = true
should_pad pad_plain_dns target = get_port target == 53

-- `NoPadding`, `PadAll` and `PadPlainDNS` in ASCII.
abbrev pub no_padding_name : List ℕ
no_padding_name = 78 ∷ 111 ∷ 80 ∷ 97 ∷ 100 ∷ 100 ∷ 105 ∷ 110 ∷ 103 ∷ []

abbrev pub pad_all_name : List ℕ
pad_all_name = 80 ∷ 97 ∷ 100 ∷ 65 ∷ 108 ∷ 108 ∷ []

abbrev pub pad_plain_dns_name : List ℕ
pad_plain_dns_name = 80 ∷ 97 ∷ 100 ∷ 80 ∷ 108 ∷ 97 ∷ 105 ∷ 110 ∷ 68 ∷ 78 ∷ 83 ∷ []

-- `ParsePaddingPolicy`
unfoldable pub parse_padding_policy : List ℕ → Option PaddingPolicy
parse_padding_policy s =
    if bytes_eq s no_padding_name
    then some no_padding
    else if bytes_eq s pad_all_name
    then some pad_all
    else if bytes_eq s pad_plain_dns_name || bytes_eq s []
    then some pad_plain_dns
    else none
