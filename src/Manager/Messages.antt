-- ===== src/Manager/Messages.antt =====
-- handleDelayMessage and handleRouteMessage of candy/src/peer/manager.cc.
use candy.Base.{
  ℕ, ◌+◌, ◌-◌, ◌%◌, ◌^◌, List, [], ◌∷◌, Option, none, some, if◌then◌else◌, ltb, length,
}
use candy.Base.Int.{ℤ, pos, negsuc, eqb_ℤ}
use candy.Base.Buffer.{slice}
use candy.Base.Map.{lookup, assign}
use candy.Net.Order.{Endian, load, ntoh}
use candy.Net.Ip4.{Ip4, ip_eq, ip4_eq}
use candy.Message.Layout.{ip_at}
use candy.Peer.State.{Peer, PeerState}
use candy.Manager.Table.{PeerRouteEntry, update_rt_table}
use candy.Manager.State.{Manager, Sent, answer, announces, get_tun_ip}

-- sizeof(PeerMsg::Delay): type, src, dst, timestamp.
abbrev pub delay_size : ℕ
delay_size = 17

-- sizeof(PeerMsg::Route): type, dst, next, rtt.
abbrev pub route_size : ℕ
route_size = 13

-- The int32_t with these bits.
abbrev pub signed32 : ℕ → ℤ
signed32 v = if ltb v (2 ^ 31) then pos v else negsuc (2 ^ 32 - 1 - v)

-- Peer::isConnected
unfoldable pub is_connected : Peer → Option ℤ
is_connected p = elim p.state [ PeerState.connected ↦ some p.rtt | _ ↦ none ]

unfoldable pub learn_route : PeerRouteEntry → Manager → Manager × List Sent
learn_route entry s =
    let (rt, out) = update_rt_table s.route_cost entry s.rt_table in
    (record s { rt_table = rt }, announces out ∷ [])

unfoldable pub answer_delay : Ip4 → List ℕ → Option Peer → List Sent
answer_delay src b none = []
answer_delay src b (some p) = elim (is_connected p) [ none ↦ [] | some rtt ↦ answer src b ∷ [] ]

-- bootTime() - timestamp, kept in an int32_t.
unfoldable pub measured : Endian → ℕ → List ℕ → ℤ
measured e now b = signed32 ((now + (2 ^ 64 - ntoh e 8 (load e (slice 9 8 b)))) % 2 ^ 32)

unfoldable pub measure : Ip4 → ℤ → Option Peer → Manager → Manager × List Sent
measure dst rtt none s = (s, [])
measure dst rtt (some p) s =
    learn_route (record { dst = dst; next = dst; rtt = rtt })
      (record s { peers = assign dst (record p { rtt = rtt }) s.peers })

unfoldable pub handle_delay_message : Endian → ℕ → List ℕ → Manager → Manager × List Sent
handle_delay_message e now b s =
    if ltb (length b) delay_size
    then (s, [])
    else if ip_eq (ip_at 5 b) (get_tun_ip s)
    then (s, answer_delay (ip_at 1 b) b (lookup (ip_at 1 b) s.peers))
    else if ip_eq (ip_at 1 b) (get_tun_ip s)
    then measure (ip_at 5 b) (measured e now b) (lookup (ip_at 5 b) s.peers) s
    else (s, [])

unfoldable pub handle_route_message : Endian → List ℕ → Manager → Manager × List Sent
handle_route_message e b s =
    if eqb_ℤ s.route_cost (pos 0)
    then (s, [])
    else if ltb (length b) route_size
    then (s, [])
    else if ip_eq (ip_at 1 b) (get_tun_ip s)
    then (s, [])
    else learn_route
        (record {
          dst = ip_at 1 b;
          next = ip_at 5 b;
          rtt = signed32 (ntoh e 4 (load e (slice 9 4 b)));
        })
        s
