-- ===== src/Tun/Packets.antt =====
-- handleTunDevice and handlePacket of candy/src/tun/tun.cc, with user space transport compiled in.
use candy.Base.{
  ℕ, ◌/◌, Bool, not, ◌&&◌, List, [], ◌∷◌, ◌++◌, Option, none, some, if◌then◌else◌, ltb, ◌==◌,
  length, drop, get_or, replicate,
}
use candy.Net.Order.{Endian}
use candy.Net.Ip4.{Ip4, raw, any, ip_eq, ip_empty}
use candy.Message.Layout.{ip_at, header_size, version_ihl_at, protocol_at, daddr_at}
use candy.Tun.Flows.{Tun, SysRouteEntry, match_route, record_initiated_flow, is_return_by_flow}

-- What a call does with a packet: to the system's device, or to a queue.
pub data Output : Type 0 where
  to_device : List ℕ → Output
  to_peers : List ℕ → Output
  to_netstack : List ℕ → Output

unfoldable pub is_ipv4 : List ℕ → Bool
is_ipv4 b = get_or b version_ihl_at 0 / 16 == 4

unfoldable pub is_ipip : List ℕ → Bool
is_ipip b = get_or b protocol_at 0 == 4

-- IP4() is 0.0.0.0.
unfoldable pub hop_of : Option SysRouteEntry → Ip4
hop_of none = any
hop_of (some rt) = rt.nexthop

unfoldable pub next_hop : List ℕ → Tun → Ip4
next_hop b s = hop_of (match_route (ip_at daddr_at b) s.sys_rt_table)

-- The outer header: zeros but for the protocol and the two addresses.
unfoldable pub outer_header : Ip4 → Ip4 → List ℕ
outer_header src dst = replicate 9 0 ++ (4 ∷ 0 ∷ 0 ∷ (raw src ++ raw dst))

-- The end of handleTunDevice.
unfoldable pub route_out : List ℕ → Tun → Tun × List Output
route_out b s =
    if ip_eq (ip_at daddr_at b) s.address then (s, to_device b ∷ []) else (s, to_peers b ∷ [])

unfoldable pub handle_tun_device : Endian → Bool → ℕ → List ℕ → Tun → Tun × List Output
handle_tun_device e userspace now b s =
    if ltb (length b) header_size
    then (s, [])
    else if not (is_ipv4 b)
    then (s, [])
    else if ip_empty (next_hop b s)
    then route_out b s
    else route_out (outer_header s.address (next_hop b s) ++ b)
        (if userspace then record_initiated_flow e now b s else s)

unfoldable pub write_inner : List ℕ → Tun → Tun × List Output
write_inner b s =
    if is_ipip b then (s, to_device (drop header_size b) ∷ []) else (s, to_device b ∷ [])

unfoldable pub decide : Bool → List ℕ → Tun × Bool → Tun × List Output
decide userspace b (s, returns) =
    if not returns && userspace then (s, to_netstack b ∷ []) else write_inner b s

unfoldable pub handle_packet : Endian → Bool → ℕ → List ℕ → Tun → Tun × List Output
handle_packet e userspace now b s =
    if ltb (length b) header_size
    then (s, [])
    else if is_ipip b
    then decide userspace b (is_return_by_flow e now b s)
    else write_inner b s
