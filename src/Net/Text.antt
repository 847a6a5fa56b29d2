-- ===== src/Net/Text.antt =====
-- IP4 from and to text in candy/src/core/net.cc, by Poco::Net::IPAddress.
use candy.Base.{ℕ, List, Option}
use candy.Net.Ip4.{Ip4}
use candy.Net.Cidr.{IpText}

-- The call throws where there is no result.
unfoldable pub from_string : IpText → List ℕ → Option Ip4
from_string t s = t.parse s

unfoldable pub ip_to_string : IpText → Ip4 → List ℕ
ip_to_string t ip = t.print ip
