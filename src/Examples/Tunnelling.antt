-- ===== src/Examples/Tunnelling.antt =====
-- Packets at concrete inputs.
use candy.Base.{ℕ, ◌≤◌, ◌≡◌, refl, true, false, List, [], ◌∷◌, ◌++◌, arith, length, replicate}
use candy.Net.Order.{Endian, ntoh}
use candy.Net.Ip4.{Ip4, ip_and, ip_empty}
use candy.Tun.Flows.{
  Tun, match_route, parse_inner_l4, record_initiated_flow, is_return_by_flow, key_at,
}
use candy.Tun.Packets.{
  to_device, to_peers, is_ipv4, next_hop, hop_of, outer_header, handle_tun_device, handle_packet,
}
use candy.Tun.Bounded.{flow_table_stays_within_limit}
use candy.Tun.Returns.{answer_is_recognised}
use candy.Tun.Tunnel.{tunnel_keeps_packets}
use candy.Examples.Data.{gateway, laptop, mask24}

abbrev lan : Ip4
lan = record { raw0 = 10; raw1 = 0; raw2 = 0; raw3 = 0 }

abbrev idle_gateway : Tun
idle_gateway = record {
  address = gateway;
  sys_rt_table = record { dst = lan; mask = mask24; nexthop = laptop } ∷ [];
  initiated_flows = [];
  last_flow_reap = 0;
}

-- TCP from 10.0.1.5, port 258, to 10.0.0.9, port 80, and the answer with an outer header.
abbrev segment : List ℕ
segment = 69 ∷ replicate 8 0 ++ 6 ∷ 0 ∷ 0 ∷ 10 ∷ 0 ∷ 1 ∷ 5 ∷ 10 ∷ 0 ∷ 0 ∷ 9 ∷ 1 ∷ 2 ∷ 0 ∷ 80 ∷ []

abbrev answer : List ℕ
answer =
    replicate 20 0
    ++ 69 ∷ replicate 8 0
    ++ 6 ∷ 0 ∷ 0 ∷ 10 ∷ 0 ∷ 0 ∷ 9 ∷ 10 ∷ 0 ∷ 1 ∷ 5 ∷ 0 ∷ 80 ∷ 1 ∷ 2 ∷ []

flow_table_stays_within_limit_example :
    (length (handle_tun_device Endian.little true 7 segment idle_gateway).0.initiated_flows ≤ 4096)
    × (length (handle_packet Endian.little true 7 segment idle_gateway).0.initiated_flows ≤ 4096)
flow_table_stays_within_limit_example =
    flow_table_stays_within_limit Endian.little true 7 segment idle_gateway (omega arith)

answer_is_recognised_example :
    (is_return_by_flow Endian.little 9 answer
      (record_initiated_flow Endian.little 7 segment idle_gateway)).1
    ≡ true
unfolding parse_inner_l4 ntoh
answer_is_recognised_example =
    answer_is_recognised Endian.little 7 9 segment answer (key_at Endian.little 20 segment)
      idle_gateway (omega arith) refl (omega arith) refl

tunnel_keeps_packets_example :
    ((handle_tun_device Endian.little true 7 segment idle_gateway).1
      ≡ to_peers (outer_header gateway laptop ++ segment) ∷ [])
    × ((handle_packet Endian.big false 9 (outer_header gateway laptop ++ segment) idle_gateway).1
        ≡ to_device segment ∷ [])
unfolding is_ipv4 ip_empty next_hop hop_of match_route ip_and
tunnel_keeps_packets_example =
    tunnel_keeps_packets Endian.little Endian.big true 7 9 segment idle_gateway idle_gateway
      (omega arith) refl refl (λ e. ground arith)
