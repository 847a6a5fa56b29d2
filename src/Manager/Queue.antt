-- ===== src/Manager/Queue.antt =====
-- handlePeerQueue, the handlers of its messages, and tick.
use candy.Base.{
  ℕ, ◌+◌, ◌-◌, ◌%◌, ◌^◌, Bool, true, false, not, ◌&&◌, ◌||◌, List, [], ◌∷◌, ◌++◌, Option, none,
  some, if◌then◌else◌, ◌==◌, ltb, length,
}
use candy.Base.Int.{ℤ, pos, negsuc, eqb_ℤ}
use candy.Base.Map.{Map, lookup, assign}
use candy.Base.Results.{◌>>=◌}
use candy.Net.Ip4.{Ip4, ip_eq, ip_empty, ip4_eq}
use candy.Net.Cidr.{Parsed, returns, overrun, from_cidr}
use candy.Net.Text.{from_string, ip_to_string}
use candy.Message.Layout.{header_size, daddr_at, ip_at}
use candy.Core.Message.{
  PubInfo, Msg, timeout, packet, tun_addr, sys_rt, try_p2p, pub_info, discovery, netstack,
}
use candy.Peer.State.{Peer, Effect}
use candy.Peer.Calls
use candy.Manager.State.{
  World, Manager, Sent, to_ws, Result, peer_world, key_for, new_peer, stun_enabled,
}
use candy.Manager.Send.{Attempt, send_packet, resolve_peer_target, perform_all, send_stun_request}

-- A call of a peer that the map holds, or that has just been made: its new state is stored, and
-- its effects follow.
unfoldable pub of_peer : World → Ip4 → Peer × List Effect → Manager → Result
of_peer w ip (p, effects) s = perform_all w effects (record s { peers = assign ip p s.peers })

unfoldable pub try_peer : World → Ip4 → Option Peer → Manager → Manager
try_peer w ip (some p) s = record s {
  peers = assign ip (Calls.try_connect (peer_world w s) w.p2p_only p) s.peers;
}
try_peer w ip none s = record s {
  peers = assign ip (Calls.try_connect (peer_world w s) false (new_peer w s ip)) s.peers;
}

-- handleTryP2P; a text that is no address throws, which the queue's loop only logs.
unfoldable pub handle_try_p2p : World → List ℕ → Manager → Manager
handle_try_p2p w text s = elim (from_string w.text text) [
  | none ↦ s
  | some ip ↦ try_peer w ip (lookup ip s.peers) s
]

abbrev is_foreign : World → PubInfo → Bool
is_foreign w info = ip_eq info.src w.client_ip || not (ip_eq info.dst w.client_ip)

-- find, and else emplace, so that just one of the two calls takes place.
unfoldable pub pub_info_of : World → PubInfo → Option Peer → Manager → Result
pub_info_of w info (some p) s =
    of_peer w info.src (Calls.handle_pub_info (peer_world w s) info.ip info.port info.is_local p) s
pub_info_of w info none s =
    of_peer w info.src
      (Calls.handle_pub_info (peer_world w s) info.ip info.port info.is_local
        (new_peer w s info.src))
      s

unfoldable pub handle_pub_info : World → PubInfo → Manager → Result
handle_pub_info w info s =
    if is_foreign w info then (s, []) else pub_info_of w info (lookup info.src s.peers) s

-- The rest of handlePacket, when the packet went neither over a peer nor to one.
unfoldable pub not_sent : World → Ip4 → List ℕ → Manager → Result
not_sent w dst b s =
    if w.p2p_only
    then (let peer = resolve_peer_target dst s in
        let s' = handle_try_p2p w (ip_to_string w.text peer) s in
        (record s' { drops = (s'.drops + 1) % 2 ^ 64 }, []))
    else (s, to_ws (packet b) ∷ [])

unfoldable pub packet_tried : World → Ip4 → List ℕ → Attempt → Manager → Result
packet_tried w dst b (out, true) s = (s, out)
packet_tried w dst b (out, false) s = let (s', more) = not_sent w dst b s in (s', out ++ more)

-- handlePacket; `none` is the read behind a message that is shorter than its header.
unfoldable pub handle_packet : World → List ℕ → Manager → Option Result
handle_packet w b s =
    if ltb (length b) header_size
    then none
    else some (packet_tried w (ip_at daddr_at b) b (send_packet w (ip_at daddr_at b) b s) s)

-- The end of handleTunAddr; the address may have been set in part when the text is refused.
unfoldable pub tun_parsed : World → Parsed → Manager → Option (Manager × ℤ)
tun_parsed w overrun s = none
tun_parsed w (returns a status) s =
    if eqb_ℤ status (pos 0)
    then some (record s { tun_addr = a; key = key_for w s.password a.host }, pos 0)
    else some (record s { tun_addr = a }, negsuc 0)

unfoldable pub handle_tun_addr : World → List ℕ → Manager → Option (Manager × ℤ)
handle_tun_addr w text s = tun_parsed w (from_cidr w.text s.tun_addr text) s

-- What startTickThread does before it starts the threads.
unfoldable pub detect_localhost : Option Ip4 → Manager → Manager
detect_localhost none s = s
detect_localhost (some ip) s = if ip_empty s.localhost then record s { localhost = ip } else s

abbrev pub Status : Type 0
Status = Option (Manager × List Sent × ℤ)

abbrev pub carries_on : Result → Status
carries_on (s, out) = some (s, out, pos 0)

unfoldable pub tun_addr_arrives : World → List ℕ → Manager → Status
tun_addr_arrives w text s =
    let s1 = detect_localhost w.interface_ip s in
    if w.binds
    then (handle_tun_addr w text s1 >>= λ (s2, status). some (s2, [], status))
    else some (s1, [], negsuc 0)

-- handlePeerQueue: the status ends the loop if it is not 0.
unfoldable pub handle_peer_queue : World → Msg → Manager → Status
handle_peer_queue w timeout s = carries_on (s, [])
handle_peer_queue w (packet b) s = handle_packet w b s >>= carries_on
handle_peer_queue w (tun_addr text) s = tun_addr_arrives w text s
handle_peer_queue w (sys_rt b) s = carries_on (record s { local_p2p_disabled = true }, [])
handle_peer_queue w (try_p2p text) s = carries_on (handle_try_p2p w text s, [])
handle_peer_queue w (pub_info info) s = carries_on (handle_pub_info w info s)
handle_peer_queue w discovery s = carries_on (s, [])
handle_peer_queue w (netstack b) s = carries_on (s, [])

-- The uint64_t that an int becomes.
abbrev pub unsigned64 : ℤ → ℕ
unsigned64 (pos n) = n
unsigned64 (negsuc n) = 2 ^ 64 - 1 - n

-- The first part of tick.
unfoldable pub discover : Manager → Result
discover s =
    if not (eqb_ℤ s.discovery_interval (pos 0)) && stun_enabled s.stun
    then (let t = (s.tick_tick + 1) % 2 ^ 64 in
        let s' = record s { tick_tick = t } in
        if t % unsigned64 s.discovery_interval == 0 then (s', to_ws discovery ∷ []) else (s', []))
    else (s, [])

-- The loop over the peers, each in the state that the map holds.
unfoldable pub tick_peers : World → Map Ip4 Peer → Manager → Result
tick_peers w [] s = (s, [])
tick_peers w ((ip, p) ∷ m) s =
    let (s', out) = of_peer w ip (Calls.tick (peer_world w s) p) s in
    let (s'', more) = tick_peers w m s' in (s'', out ++ more)

unfoldable pub request_if_needed : World → Manager → Result
request_if_needed w s =
    if s.stun.needed
    then (record s { stun = record (s.stun) { needed = false } }, send_stun_request w s)
    else (s, [])

unfoldable pub tick : World → Manager → Result
tick w s =
    let (s1, out1) = discover s in
    let (s2, out2) = tick_peers w s1.peers s1 in
    let (s3, out3) = request_if_needed w s2 in (s3, out1 ++ (out2 ++ out3))
