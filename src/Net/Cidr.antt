-- ===== src/Net/Cidr.antt =====
-- Address::fromCidr and Address::toCidr. Poco::Net::IPAddress is a parameter: `parse` gives the four
-- bytes at addr(), or nothing where it throws, and `print` is its toString.
use candy.Base.{ℕ, ◌+◌, List, ◌∷◌, ◌++◌, Option, none, some, take, drop}
use candy.Base.Int.{ℤ, pos, negsuc}
use candy.Base.Chars.{find_char, stoi, to_string, slash}
use candy.Net.Ip4.{Ip4, from_prefix, to_prefix}
use candy.Net.Address.{Address}

-- What the source uses of Poco::Net::IPAddress.
pub record IpText : Type 0 where
  pub parse : List ℕ → Option Ip4
  pub print : Ip4 → List ℕ

-- cidr.substr(0, pos)
unfoldable pub host_text : List ℕ → List ℕ
host_text s = elim (find_char slash s) [ none ↦ s | some i ↦ take i s ]

-- cidr.substr(pos + 1): npos + 1 is 0.
unfoldable pub mask_text : List ℕ → List ℕ
mask_text s = elim (find_char slash s) [ none ↦ s | some i ↦ drop (i + 1) s ]

-- How a call of fromCidr ends: it returns a status, or it writes past the mask.
pub data Parsed : Type 0 where
  returns : Address → ℤ → Parsed
  overrun : Parsed

unfoldable pub set_mask : Address → Option Ip4 → Parsed
set_mask a none = overrun
set_mask a (some m) = returns (record a { mask = m }) (pos 0)

-- The host is set before the mask is read, and stays if that fails.
unfoldable pub set_host : Address → Option ℤ → Parsed
unfolding set_mask
set_host a none = returns a (negsuc 0)
set_host a (some prefix) = set_mask a (from_prefix prefix)

unfoldable pub from_cidr : IpText → Address → List ℕ → Parsed
from_cidr t a s = elim (t.parse (host_text s)) [
  | none ↦ returns a (negsuc 0)
  | some ip ↦ set_host (record a { host = ip }) (stoi (mask_text s))
]

unfoldable pub to_cidr : IpText → Address → List ℕ
unfolding to_string to_prefix
to_cidr t a = t.print a.host ++ slash ∷ to_string (to_prefix a.mask)
