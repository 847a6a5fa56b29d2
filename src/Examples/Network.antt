-- ===== src/Examples/Network.antt =====
-- core/net.h and core/net.cc at concrete inputs.
use candy.Base.{◌+◌, ◌%◌, ◌≡◌, ◌<◌, ◌↔◌, refl, [], ◌∷◌, true, arith}
use candy.Base.Int.{pos}
use candy.Base.Chars.{slash, find_char, stoi}
use candy.Net.Order.{Endian}
use candy.Net.Address.{net, is_valid}
use candy.Net.Host.{IsCidr, host_part, free_bits}
use candy.Net.Walk.{is_valid_iff, steps, steps_walk}
use candy.Net.Cidr.{host_text, mask_text, from_cidr, to_cidr, returns, overrun}
use candy.Net.CidrLaws.{from_cidr-to_cidr, from_cidr_overrun}
use candy.Examples.Data.{network, mask24-IsMask, network-IsCidr, text, text-IpTextLaws}

is_valid_iff_example :
    (is_valid Endian.little network ≡ true)
    ↔ ((0 < host_part 24 network.host) × (host_part 24 network.host + 1 < free_bits 24))
is_valid_iff_example = is_valid_iff Endian.little 24 network network-IsCidr

steps_walk_example :
    IsCidr 24 (steps Endian.little 3 network)
    × (net (steps Endian.little 3 network) ≡ net network)
    × (host_part 24 (steps Endian.little 3 network).host
        ≡ (host_part 24 network.host + 3) % free_bits 24)
steps_walk_example = steps_walk Endian.little 24 3 network network-IsCidr

from_cidr-to_cidr_example : from_cidr text network (to_cidr text network) ≡ returns network (pos 0)
from_cidr-to_cidr_example = from_cidr-to_cidr text network text-IpTextLaws network 24 mask24-IsMask

-- "ABCD/99", where "ABCD" is the text of an address.
from_cidr_overrun_example :
    from_cidr text network (65 ∷ 66 ∷ 67 ∷ 68 ∷ slash ∷ 57 ∷ 57 ∷ []) ≡ overrun
unfolding host_text mask_text find_char stoi
from_cidr_overrun_example =
    from_cidr_overrun text network (65 ∷ 66 ∷ 67 ∷ 68 ∷ slash ∷ 57 ∷ 57 ∷ [])
      (record { raw0 = 17; raw1 = 18; raw2 = 19; raw3 = 20 }) 99 refl refl (omega arith)
