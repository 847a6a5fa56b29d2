-- ===== src/Message/Layout.antt =====
-- The packed structs of candy/src/websocket/message.h: the size of each and where its fields lie.
use candy.Base.{ℕ, List}
use candy.Base.Buffer.{slice}
use candy.Net.Ip4.{Ip4, of_raw}

-- sizeof(IP4Header), and where its fields lie.
abbrev pub header_size : ℕ
header_size = 20

abbrev pub version_ihl_at : ℕ
version_ihl_at = 0

abbrev pub frag_off_at : ℕ
frag_off_at = 6

abbrev pub protocol_at : ℕ
protocol_at = 9

abbrev pub saddr_at : ℕ
saddr_at = 12

abbrev pub daddr_at : ℕ
daddr_at = 16

-- SHA256_DIGEST_LENGTH
abbrev pub digest_length : ℕ
digest_length = 32

-- struct Auth: type, ip, timestamp, hash
abbrev pub auth_size : ℕ
auth_size = 45

-- struct Forward: type, iph
abbrev pub forward_size : ℕ
forward_size = 21

-- struct ExptTun: type, timestamp, cidr, hash
abbrev pub expt_tun_size : ℕ
expt_tun_size = 73

-- struct Conn: type, src, dst, ip, port
abbrev pub conn_size : ℕ
conn_size = 15

-- struct VMac: type, vmac, timestamp, hash
abbrev pub vmac_size : ℕ
vmac_size = 57

-- struct Discovery: type, src, dst
abbrev pub discovery_size : ℕ
discovery_size = 9

-- struct SysRoute: type, size, reserved, and struct SysRouteEntry: dst, mask, nexthop
abbrev pub sys_route_size : ℕ
sys_route_size = 4

abbrev pub sys_route_entry_size : ℕ
sys_route_entry_size = 12

-- struct General: type, subtype, extra, src, dst
abbrev pub general_size : ℕ
general_size = 12

-- struct ConnLocal: ge, ip, port
abbrev pub conn_local_size : ℕ
conn_local_size = 18

-- The address at an offset.
abbrev pub ip_at : ℕ → List ℕ → Ip4
ip_at i b = of_raw (slice i 4 b)
