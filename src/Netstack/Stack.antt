-- ===== src/Netstack/Stack.antt =====
-- class NetStack of candy/src/netstack/netstack.h and netstack.cc, without the calls that set lwIP
-- up. Times are seconds.
pub mod Sessions
pub mod Known
pub mod Peers
pub mod Live
pub mod Flowing
pub mod Converged
use candy.Base.{
  ℕ, ◌+◌, ◌-◌, ◌*◌, Bool, true, false, not, ◌&&◌, ◌||◌, List, [], ◌∷◌, ◌++◌, Option, none, some,
  if◌then◌else◌, ltb, leb, ◌==◌, length, drop, get_or,
}
use candy.Base.Buffer.{bytes_eq}
use candy.Base.Map.{Map, lookup, assign, erase}
use candy.Core.Message.{Msg, timeout, netstack}
use candy.Net.Order.{Endian}
use candy.Net.Ip4.{Ip4, any, ip_empty, ip4_eq}
use candy.Message.Layout.{ip_at, header_size, protocol_at, saddr_at, daddr_at}
use candy.Tun.Packets.{is_ipip, outer_header}
use candy.Netstack.Mux.{UdpMux, MuxOut, sends, injects}
use candy.Netstack.Mux
use candy.Netstack.Tcp.State.{SessionTcp, new_session}
use candy.Netstack.Tcp.State
use candy.Netstack.Udp.{SessionUdp, UdpOut}
use candy.Netstack.Udp

pub record PeerEntry : Type 0 where
  pub peer : Ip4
  pub last_seen : ℕ

-- The keys of the map of the peers are the addresses as IP4.
pub record NetStack : Type 0 where
  pub running : Bool
  pub vnet_peer_map : Map Ip4 PeerEntry
  pub udp_sessions : Map (List ℕ) SessionUdp
  pub udp_mux : Option UdpMux
  pub sessions : Map ℕ SessionTcp
  pub last_reap : ℕ

-- A packet for lwIP, a packet for the peers, a datagram of the one socket, and what a session does.
pub data NetOut : Type 0 where
  posts_input : List ℕ → NetOut
  to_lwip : List ℕ → NetOut
  to_peers : List ℕ → NetOut
  mux_sends : ℕ → ℕ → List ℕ → NetOut
  udp : UdpOut → NetOut
  client_shutdown : NetOut

abbrev pub Result : Type 0
Result = NetStack × List NetOut

unfoldable pub input : List ℕ → NetStack → Result
input b s = if s.running then (s, posts_input b ∷ []) else (s, [])

unfoldable pub handle_queue : Msg → NetStack → Result
handle_queue timeout s = (s, [])
handle_queue (netstack b) s = input b s
handle_queue _ s = (s, [])

-- The entries that were seen in the last 180 seconds.
unfoldable pub fresh : ℕ → Map Ip4 PeerEntry → Map Ip4 PeerEntry
fresh now [] = []
fresh now ((ip, e) ∷ m) =
    let rest = fresh now m in if ltb (e.last_seen + 180) now then rest else (ip, e) ∷ rest

unfoldable pub note_peer : ℕ → Ip4 → Ip4 → Map Ip4 PeerEntry → Map Ip4 PeerEntry
note_peer now src peer m =
    let m' = assign src (record { peer = peer; last_seen = now }) m in
    if ltb 4096 (length m') then fresh now m' else m'

-- pbuf_alloc and pbuf_take have a u16_t for the length, which every packet fits: the buffers that
-- packets are received in have 1500 bytes.
unfoldable pub feed_to_lwip : ℕ → Bool → List ℕ → Ip4 → NetStack → Result
feed_to_lwip now has_memory inner peer s =
    let out = if has_memory then to_lwip inner ∷ [] else [] in
    if ip_empty peer then (s, out) else (
      record s { vnet_peer_map = note_peer now (ip_at saddr_at inner) peer s.vnet_peer_map },
      out,
    )

unfoldable pub is_tcp_or_udp : List ℕ → Bool
is_tcp_or_udp b = get_or b protocol_at 0 == 6 || get_or b protocol_at 0 == 17

-- The packet without its outer header, if it has one, and who sent it.
unfoldable pub handle_inner : ℕ → Bool → List ℕ → Ip4 → NetStack → Result
handle_inner now has_memory inner peer s =
    if ltb (length inner) header_size
    then (s, [])
    else if is_tcp_or_udp inner
    then feed_to_lwip now has_memory inner peer s
    else (s, [])

unfoldable pub handle_input : ℕ → Bool → List ℕ → NetStack → Result
handle_input now has_memory b s =
    if ltb (length b) header_size
    then (s, [])
    else if is_ipip b
    then handle_inner now has_memory (drop header_size b) (ip_at saddr_at b) s
    else handle_inner now has_memory b any s

-- A packet of lwIP goes to the peer from which its destination's packets came.
unfoldable pub output_to : ℕ → Ip4 → List ℕ → Option PeerEntry → NetStack → Result
output_to now address inner none s = (s, [])
output_to now address inner (some e) s =
    let seen = record s {
      vnet_peer_map = assign (ip_at daddr_at inner) (record e { last_seen = now }) s.vnet_peer_map;
    } in
    (seen, (if ip_empty e.peer then [] else to_peers (outer_header address e.peer ++ inner) ∷ []))

unfoldable pub output : ℕ → Ip4 → List ℕ → NetStack → Result
output now address inner s =
    if ltb (length inner) header_size
    then (s, [])
    else output_to now address inner (lookup (ip_at daddr_at inner) s.vnet_peer_map) s

-- onOutput copies the packet.
unfoldable pub on_output : ℕ → Ip4 → List ℕ → NetStack → Result
on_output now address b s = output now address b s

abbrev pub all_udp : List UdpOut → List NetOut
all_udp [] = []
all_udp (o ∷ out) = udp o ∷ all_udp out

-- What comes out of the UdpMux: datagrams, and answers for the sessions of their sources.
unfoldable pub inject_to :
    ℕ → Bool → List ℕ → ℕ → ℕ → List ℕ → Option SessionUdp → NetStack → Result
inject_to now has_memory key ip port b none s = (s, [])
inject_to now has_memory key ip port b (some u) s =
    let (u', out) = Udp.reply_to_lwip now has_memory ip port b u in
    (record s { udp_sessions = assign key u' s.udp_sessions }, all_udp out)

unfoldable pub inject_udp_reply : ℕ → Bool → List ℕ → ℕ → ℕ → List ℕ → NetStack → Result
inject_udp_reply now has_memory key ip port b s =
    inject_to now has_memory key ip port b (lookup key s.udp_sessions) s

unfoldable pub after_mux : ℕ → Bool → List MuxOut → NetStack → Result
after_mux now has_memory [] s = (s, [])
after_mux now has_memory (sends ip port b ∷ out) s =
    let (s', rest) = after_mux now has_memory out s in (s', mux_sends ip port b ∷ rest)
after_mux now has_memory (injects key ip port b ∷ out) s =
    let (s1, first) = inject_udp_reply now has_memory key ip port b s in
    let (s2, rest) = after_mux now has_memory out s1 in (s2, first ++ rest)

unfoldable pub mux_result : ℕ → Bool → Mux.Result → NetStack → Result
mux_result now has_memory (m, out) s = after_mux now has_memory out (record s { udp_mux = some m })

unfoldable pub send_to_mux : ℕ → Bool → List ℕ → ℕ → ℕ → List ℕ → Option UdpMux → NetStack → Result
send_to_mux now has_memory key ip port b none s = (s, [])
send_to_mux now has_memory key ip port b (some m) s =
    mux_result now has_memory (Mux.send_from_source now key ip port b m) s

unfoldable pub send_udp_converged : ℕ → Bool → List ℕ → ℕ → ℕ → List ℕ → NetStack → Result
send_udp_converged now has_memory key ip port b s =
    send_to_mux now has_memory key ip port b s.udp_mux s

-- A datagram that the one socket has received, on the NetStack thread.
unfoldable pub demux_to : ℕ → Bool → ℕ → ℕ → List ℕ → Option UdpMux → NetStack → Result
demux_to now has_memory ip port b none s = (s, [])
demux_to now has_memory ip port b (some m) s =
    mux_result now has_memory (Mux.demux now ip port b m) s

unfoldable pub forget_source : List ℕ → Option UdpMux → NetStack → NetStack
forget_source key none s = s
forget_source key (some m) s = record s { udp_mux = some (Mux.on_source_gone key m) }

unfoldable pub on_udp_source_gone : List ℕ → NetStack → NetStack
on_udp_source_gone key s = forget_source key s.udp_mux s

unfoldable pub remove_udp_session : List ℕ → NetStack → NetStack
remove_udp_session key s = record s { udp_sessions = erase key s.udp_sessions }
