-- ===== src/Peer/Calls.antt =====
-- The calls of a Peer: tryConnecct, handlePubInfo, handleStunResponse, tick and
-- handleHeartbeatMessage.
use candy.Base.{
  ℕ, ◌+◌, ◌%◌, ◌^◌, Bool, true, false, not, ◌&&◌, ◌||◌, List, [], ◌∷◌, ◌++◌, Option, none, some,
  if◌then◌else◌, ◌==◌,
}
use candy.Base.Int.{ℤ}
use candy.Net.Ip4.{Ip4}
use candy.Peer.State.{
  PeerState, SocketAddress, Peer, World, Effect, send_pub_info, stun_needed, drop_route,
  update_state, active_within,
}
use candy.Peer.Send.{send_heartbeat, send_delay}

abbrev pub wants_connection : PeerState → Bool → Bool
wants_connection PeerState.init retry_failed = true
wants_connection PeerState.failed retry_failed = retry_failed
wants_connection _ retry_failed = false

unfoldable pub try_connect : World → Bool → Peer → Peer
try_connect w retry_failed p =
    if wants_connection p.state retry_failed then (update_state w PeerState.preparing p).0 else p

-- The end of handlePubInfo, for an address of the wide network that has been stored.
unfoldable pub wide_known : World → PeerState → Peer → Peer × List Effect
wide_known w PeerState.connected p = (p, [])
wide_known w PeerState.synchronizing p = ((update_state w PeerState.connecting p).0, [])
wide_known w PeerState.connecting p = (p, [])
wide_known w _ p = ((update_state w PeerState.preparing p).0, send_pub_info p.addr true ∷ [])

unfoldable pub handle_pub_info : World → Ip4 → ℕ → Bool → Peer → Peer × List Effect
handle_pub_info w ip port is_local p =
    let a : SocketAddress = record { host = ip; port = port } in
    if is_local
    then (record p { local = some a }, [])
    else wide_known w p.state (record p { wide = some a })

abbrev pub after_stun : Option SocketAddress → PeerState
after_stun none = PeerState.synchronizing
after_stun (some a) = PeerState.connecting

abbrev pub is_preparing : PeerState → Bool
is_preparing PeerState.preparing = true
is_preparing _ = false

unfoldable pub handle_stun_response : World → Peer → Peer × List Effect
handle_stun_response w p =
    if is_preparing p.state
    then ((update_state w (after_stun p.wide) p).0, send_pub_info p.addr false ∷ [])
    else (p, [])

-- The switch of tick.
unfoldable pub tick_state : World → PeerState → Peer → Peer × List Effect
tick_state w PeerState.init p = (p, [])
tick_state w PeerState.preparing p =
    if w.stun_enabled && active_within w 10 p
    then (p, stun_needed ∷ [])
    else ((update_state w PeerState.failed p).0, [])
tick_state w PeerState.synchronizing p =
    if active_within w 10 p
    then (p, send_heartbeat w p)
    else ((update_state w PeerState.failed p).0, [])
tick_state w PeerState.connecting p =
    if active_within w 10 p
    then (p, send_heartbeat w p)
    else ((update_state w PeerState.waiting p).0, [])
tick_state w PeerState.connected p =
    if active_within w 3 p
    then (
      p,
      send_heartbeat w p
          ++ (if w.relay_enabled && p.tick_count % 60 == 0 then send_delay w p else []),
    )
    else (
      (update_state w PeerState.init p).0,
      (if w.relay_enabled then drop_route p.addr ∷ [] else []),
    )
tick_state w PeerState.waiting p =
    if active_within w p.retry p then (p, []) else ((update_state w PeerState.init p).0, [])
tick_state w PeerState.failed p = (p, [])

unfoldable pub tick : World → Peer → Peer × List Effect
tick w p =
    let (p', out) = tick_state w p.state p in
    (record p' { tick_count = (p'.tick_count + 1) % 2 ^ 32 }, out)

-- !this->real || isLocalNetwork(address) || !isLocalNetwork(*this->real)
unfoldable pub prefers : World → SocketAddress → Option SocketAddress → Bool
prefers w a none = true
prefers w a (some r) = w.is_local a || not (w.is_local r)

-- The end of handleHeartbeatMessage, when the address has been stored.
unfoldable pub heartbeat_known : World → SocketAddress → ℕ → Peer → Peer × List Effect
heartbeat_known w a heartbeat_ack p =
    let p1 = (if prefers w a p.real then record p { real = some a } else p) in
    let p2 = (if p1.ack == 0 then record p1 { ack = 1 } else p1) in
    if heartbeat_ack == 0
    then (p2, [])
    else let (p3, changed) = update_state w PeerState.connected p2 in
      (p3, (if changed then send_delay w p3 else []))

abbrev pub ignores_heartbeat : PeerState → Bool
ignores_heartbeat PeerState.init = true
ignores_heartbeat PeerState.waiting = true
ignores_heartbeat PeerState.failed = true
ignores_heartbeat _ = false

unfoldable pub handle_heartbeat : World → SocketAddress → ℕ → Peer → Peer × List Effect
handle_heartbeat w a heartbeat_ack p =
    if ignores_heartbeat p.state
    then (p, [])
    else if not (w.is_local a)
    then heartbeat_known w a heartbeat_ack (record p { wide = some a })
    else if not w.local_p2p_disabled
    then heartbeat_known w a heartbeat_ack (record p { local = some a })
    else (p, [])

-- Every call, the assignment of the round trip time by the manager included.
pub data Call : Type 0 where
  tries : Bool → Call
  pub_info : Ip4 → ℕ → Bool → Call
  stun_response : Call
  ticks : Call
  heartbeats : SocketAddress → ℕ → Call
  measures : ℤ → Call

unfoldable pub step : World → Call → Peer → Peer
step w (tries retry_failed) p = try_connect w retry_failed p
step w (pub_info ip port is_local) p = (handle_pub_info w ip port is_local p).0
step w stun_response p = (handle_stun_response w p).0
step w ticks p = (tick w p).0
step w (heartbeats a heartbeat_ack) p = (handle_heartbeat w a heartbeat_ack p).0
step w (measures rtt) p = record p { rtt = rtt }
