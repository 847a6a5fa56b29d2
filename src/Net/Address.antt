-- ===== src/Net/Address.antt =====
-- class Address of candy/src/core/net.h, less its text form, which is in Net/Cidr.
use candy.Base.{Bool, true, false, ◌&&◌, ◌==◌, if◌then◌else◌}
use candy.Net.Order.{Endian}
use candy.Net.Ip4.{Ip4, any, ip_and, ip_or, ip_not, ip_empty, to_uint32}
use candy.Net.Ip4

pub record Address : Type 0 where
  pub host : Ip4
  pub mask : Ip4

-- Address(): both parts are 0.0.0.0.
abbrev pub unset : Address
unset = record { host = any; mask = any }

unfoldable pub net : Address → Ip4
unfolding ip_and
net a = ip_and a.host a.mask

unfoldable pub next : Endian → Address → Address
unfolding net ip_or ip_and ip_not Ip4.next
next e a = record {
  host = ip_or (net a) (ip_and (ip_not a.mask) (Ip4.next e a.host));
  mask = a.mask;
}

-- The comparisons with 0 go through operator uint32_t.
unfoldable pub is_valid : Endian → Address → Bool
unfolding ip_or ip_and ip_not to_uint32
is_valid e a =
    if to_uint32 e (ip_and (ip_not a.mask) a.host) == 0
    then false
    else if to_uint32 e (ip_not (ip_or a.mask a.host)) == 0
    then false
    else true

unfoldable pub empty : Address → Bool
unfolding ip_empty
empty a = ip_empty a.host && ip_empty a.mask
