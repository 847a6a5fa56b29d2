-- ===== src/Manager/Invariant.antt =====
-- Every call of a PeerManager keeps its peers sound.
use candy.Base.{
  ℕ, ◌≡◌, refl, true, false, ◌||◌, List, [], ◌∷◌, Option, none, some, arith, if◌then◌else◌, ltb,
  length, ◌==◌, get_or,
}
use candy.Base.Int.{ℤ, pos, eqb_ℤ}
use candy.Base.Map.{Map, lookup, assign, Every}
use candy.Base.Buffer.{slice}
use candy.Base.Results.{Leaves, Leaves-none, Leaves-some, Leaves-if}
use candy.Net.Ip4.{Ip4, ip_eq, ip4_eq}
use candy.Net.Order.{Endian, load, ntoh}
use candy.Message.Layout.{ip_at}
use candy.Peer.State.{Peer, SocketAddress}
use candy.Peer.Calls
use candy.Peer.Calls.{step}
use candy.Peer.Invariant.{IsSound}
use candy.Peer.Soundness.{step-IsSound}
use candy.Manager.State.{World, Manager, Result, peer_world, client_relay_enabled, get_tun_ip}
use candy.Manager.Table.{PeerRouteEntry}
use candy.Manager.Messages.{
  learn_route, handle_delay_message, handle_route_message, measure, measured, answer_delay,
  signed32, delay_size, route_size,
}
use candy.Manager.Send.{Attempt, forward_kind}
use candy.Manager.Queue.{
  handle_try_p2p, not_sent, packet_tried, tick_peers, discover, request_if_needed, tick,
}
use candy.Manager.Stun.{Search, mapped, absent, overread, no_fuel, tell_peers, found}
use candy.Manager.Receive.{
  heartbeat_of, handle_heartbeat_message, handle_forward_message, handle_message, route_kind,
}
use candy.Peer.Send.{heartbeat_kind, delay_kind}
use candy.Manager.Soundness.{
  HasSoundPeers, same_peers, assign_peer, held-IsSound, of_peer-HasSoundPeers, sound_result_if,
  handle_try_p2p-HasSoundPeers,
}

abbrev pub Sound : Result → Type 0
Sound r = HasSoundPeers r.0

module _ (w : World) where
  -- The loops over all peers.
  tick_peers-Sound :
      (m : Map Ip4 Peer) (s : Manager)
      → Every (λ ip p. IsSound p) m
      → HasSoundPeers s
      → Sound (tick_peers w m s)
  unfolding tick_peers
  tick_peers-Sound [] s e v = v
  tick_peers-Sound ((ip, p) ∷ m) s e v = tick_peers-Sound m _ e.1 (
      of_peer-HasSoundPeers w ip (Calls.tick (peer_world w s) p) s
        (unfold step in step-IsSound (peer_world w s) Calls.ticks p e.0) v)

  tell_peers-Sound :
      (m : Map Ip4 Peer) (s : Manager)
      → Every (λ ip p. IsSound p) m
      → HasSoundPeers s
      → Sound (tell_peers w m s)
  unfolding tell_peers
  tell_peers-Sound [] s e v = v
  tell_peers-Sound ((ip, p) ∷ m) s e v = tell_peers-Sound m _ e.1 (
      of_peer-HasSoundPeers w ip (Calls.handle_stun_response (peer_world w s) p) s
        (unfold step in step-IsSound (peer_world w s) Calls.stun_response p e.0) v)

module _ (w : World) (s : Manager) (v : HasSoundPeers s) where
  discover-peers : (discover s).0.peers ≡ s.peers
  unfolding discover
  discover-peers = ground arith

  request-peers : (t : Manager) → (request_if_needed w t).0.peers ≡ t.peers
  unfolding request_if_needed
  request-peers t = ground arith

  pub tick-Sound : Sound (tick w s)
  unfolding tick
  tick-Sound =
      let s1 = (discover s).0 in
      let v1 = same_peers s s1 discover-peers v in
      same_peers (tick_peers w s1.peers s1).0 _ (request-peers _)
        (tick_peers-Sound w s1.peers s1 v1.every v1)

  not_sent-Sound : (dst : Ip4) (b : List ℕ) → Sound (not_sent w dst b s)
  unfolding not_sent
  not_sent-Sound dst b =
      sound_result_if w.p2p_only _ _
        (same_peers (handle_try_p2p w _ s) _ refl (handle_try_p2p-HasSoundPeers w s v _)) v

  pub packet_tried-Sound : (dst : Ip4) (b : List ℕ) (r : Attempt) → Sound (packet_tried w dst b r s)
  unfolding packet_tried
  packet_tried-Sound dst b (out, true) = v
  packet_tried-Sound dst b (out, false) = not_sent-Sound dst b

  pub found-Sound : (r : Search) → Leaves Sound (found w r s)
  unfolding found
  found-Sound (mapped port ip) =
      Leaves-if Sound (ip == 0 || port == 0) _ _ (Leaves-some Sound (s, []) v)
        (Leaves-some Sound _ (tell_peers-Sound w s.peers _ v.every (same_peers s _ refl v)))
  found-Sound absent = Leaves-some Sound (s, []) v
  found-Sound overread = Leaves-none Sound
  found-Sound no_fuel = Leaves-none Sound

  heartbeat_of-Sound :
      (a : SocketAddress) (ip : Ip4) (ack : ℕ) (o : Option Peer)
      → lookup ip s.peers ≡ o
      → Sound (heartbeat_of w a ip ack o s)
  unfolding heartbeat_of
  heartbeat_of-Sound a ip ack none h = v
  heartbeat_of-Sound a ip ack (some p) h =
      of_peer-HasSoundPeers w ip _ s
        (unfold step in
          step-IsSound (peer_world w s) (Calls.heartbeats a ack) p (held-IsSound s ip p v h))
        v

  handle_heartbeat_message-Sound :
      (b : List ℕ) (a : SocketAddress) → Sound (handle_heartbeat_message w b a s)
  unfolding handle_heartbeat_message
  handle_heartbeat_message-Sound b a =
      sound_result_if _ _ _ v (heartbeat_of-Sound a _ _ (lookup _ s.peers) refl)

  handle_forward_message-Sound : (b : List ℕ) → Sound (handle_forward_message b s)
  unfolding handle_forward_message
  handle_forward_message-Sound b = sound_result_if _ _ _ v v

  measure-Sound :
      (dst : Ip4) (rtt : ℤ) (o : Option Peer) → lookup dst s.peers ≡ o → Sound (measure dst rtt o s)
  unfolding measure learn_route
  measure-Sound dst rtt none h = v
  measure-Sound dst rtt (some p) h =
      same_peers (record s { peers = assign dst (record p { rtt = rtt }) s.peers }) _ refl
        (assign_peer dst _ s
          (unfold step in
            step-IsSound (peer_world w s) (Calls.measures rtt) p (held-IsSound s dst p v h))
          v)

  handle_delay_message-Sound :
      (e : Endian) (now : ℕ) (b : List ℕ) → Sound (handle_delay_message e now b s)
  unfolding handle_delay_message
  handle_delay_message-Sound e now b =
      sound_result_if (ltb (length b) delay_size) (s, []) _ v
        (sound_result_if (ip_eq (ip_at 5 b) (get_tun_ip s))
          (s, answer_delay (ip_at 1 b) b (lookup (ip_at 1 b) s.peers)) _ v
          (sound_result_if (ip_eq (ip_at 1 b) (get_tun_ip s)) _ (s, [])
            (measure-Sound (ip_at 5 b) (measured e now b) (lookup (ip_at 5 b) s.peers) refl) v))

  abbrev heard_route : Endian → List ℕ → PeerRouteEntry
  heard_route e b = record {
    dst = ip_at 1 b;
    next = ip_at 5 b;
    rtt = signed32 (ntoh e 4 (load e (slice 9 4 b)));
  }

  handle_route_message-Sound : (e : Endian) (b : List ℕ) → Sound (handle_route_message e b s)
  unfolding handle_route_message learn_route
  handle_route_message-Sound e b =
      sound_result_if (eqb_ℤ s.route_cost (pos 0)) (s, []) _ v
        (sound_result_if (ltb (length b) route_size) (s, []) _ v
          (sound_result_if (ip_eq (ip_at 1 b) (get_tun_ip s)) (s, []) _ v
            (same_peers s (learn_route (heard_route e b) s).0 refl v)))

  pub handle_message-Sound : (b : List ℕ) (a : SocketAddress) → Sound (handle_message w b a s)
  unfolding handle_message
  handle_message-Sound b a =
      let kind = get_or b 0 0 in
      let delay = handle_delay_message w.endian w.boot_time b s in
      let route = handle_route_message w.endian b s in
      let relays = client_relay_enabled s in
      sound_result_if (kind == heartbeat_kind) (handle_heartbeat_message w b a s) _
        (handle_heartbeat_message-Sound b a)
        (sound_result_if (kind == forward_kind) (handle_forward_message b s) _
          (handle_forward_message-Sound b)
          (sound_result_if (kind == delay_kind) (if relays then delay else (s, [])) _
            (sound_result_if relays delay (s, [])
              (handle_delay_message-Sound w.endian w.boot_time b) v)
            (sound_result_if (kind == route_kind) (if relays then route else (s, [])) (s, [])
              (sound_result_if relays route (s, []) (handle_route_message-Sound w.endian b) v) v)))
