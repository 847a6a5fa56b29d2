-- ===== src/Manager/Steps.antt =====
-- Every call of a PeerManager keeps its peers sound.
use candy.Base.{ℕ, ◌≡◌, refl, List, [], Option, none, some, inl, inr, arith, Option-cases}
use candy.Base.Int.{ℤ, pos, negsuc, eqb_ℤ}
use candy.Base.Results.{Leaves, Leaves-bind, Leaves-if, Leaves-some, Leaves-none}
use candy.Net.Ip4.{Ip4}
use candy.Net.Cidr.{Parsed, returns, overrun}
use candy.Net.Text.{from_string}
use candy.Core.Message.{
  Msg, timeout, packet, tun_addr, sys_rt, try_p2p, pub_info, discovery, netstack,
}
use candy.Peer.State.{SocketAddress}
use candy.Manager.State.{World, Manager, Sent, Result}
use candy.Manager.Settings.{
  set_route_cost, set_port, set_localhost, set_password, set_discovery_interval,
}
use candy.Manager.Queue.{
  handle_packet, handle_tun_addr, tun_parsed, tun_addr_arrives, detect_localhost, handle_peer_queue,
  carries_on,
}
use candy.Manager.Stun.{handle_stun_response}
use candy.Manager.Receive.{receive, decrypted}
use candy.Manager.Calls.{
  ManagerCall, takes, ticks, receives, sets_password, sets_interval, sets_route_cost, sets_port,
  sets_localhost, run_call,
}
use candy.Manager.Soundness.{
  HasSoundPeers, same_peers, handle_try_p2p-HasSoundPeers, handle_pub_info-HasSoundPeers,
}
use candy.Manager.Invariant.{
  Sound, tick-Sound, packet_tried-Sound, found-Sound, handle_message-Sound,
}

detect_localhost-peers : (o : Option Ip4) (s : Manager) → (detect_localhost o s).peers ≡ s.peers
unfolding detect_localhost
detect_localhost-peers none s = refl
detect_localhost-peers (some ip) s = ground arith

abbrev StatusIsSound : Manager × List Sent × ℤ → Type 0
StatusIsSound r = HasSoundPeers r.0

module _ (w : World) (s : Manager) (v : HasSoundPeers s) where
  unchanged : Leaves Sound (some (s, []))
  unchanged = Leaves-some Sound (s, []) v

  tun_parsed-Sound : (p : Parsed) → Leaves (λ r. HasSoundPeers r.0) (tun_parsed w p s)
  unfolding tun_parsed
  tun_parsed-Sound overrun = Leaves-none _
  tun_parsed-Sound (returns a status) =
      Leaves-if (λ r. HasSoundPeers r.0) (eqb_ℤ status (pos 0)) _ _
        (Leaves-some _ _ (same_peers s _ refl v)) (Leaves-some _ _ (same_peers s _ refl v))

  handle_stun_response-Sound : (b : List ℕ) → Leaves Sound (handle_stun_response w b s)
  unfolding handle_stun_response
  handle_stun_response-Sound b =
      Leaves-if Sound _ _ _ unchanged (Leaves-if Sound _ _ _ unchanged (found-Sound w s v _))

  decrypted-Sound : (o : Option (List ℕ)) (a : SocketAddress) → Leaves Sound (decrypted w o a s)
  decrypted-Sound none a = unchanged
  decrypted-Sound (some t) a = Leaves-some Sound _ (handle_message-Sound w s v t a)

  receive-Sound : (b : List ℕ) (a : SocketAddress) → Leaves Sound (receive w b a s)
  unfolding receive
  receive-Sound b a =
      Leaves-if Sound _ _ _ (handle_stun_response-Sound b) (decrypted-Sound (w.decrypt s.key b) a)

  handle_packet-Sound : (b : List ℕ) → Leaves Sound (handle_packet w b s)
  unfolding handle_packet
  handle_packet-Sound b =
      Leaves-if Sound _ _ _ (Leaves-none Sound)
        (Leaves-some Sound _ (packet_tried-Sound w s v _ b _))

  carried : (r : Result) → Sound r → Leaves StatusIsSound (carries_on r)
  carried r h = Leaves-some StatusIsSound _ h

module _ (w : World) (s : Manager) (v : HasSoundPeers s) where
  tun_addr_arrives-Sound : (text : List ℕ) → Leaves StatusIsSound (tun_addr_arrives w text s)
  unfolding tun_addr_arrives handle_tun_addr
  tun_addr_arrives-Sound text =
      let s1 = detect_localhost w.interface_ip s in
      let v1 = same_peers s s1 (detect_localhost-peers w.interface_ip s) v in
      Leaves-if StatusIsSound w.binds _ _
        (Leaves-bind (λ r. HasSoundPeers r.0) StatusIsSound _ _ (tun_parsed-Sound w s1 v1 _)
          (λ r h. Leaves-some StatusIsSound _ h))
        (Leaves-some StatusIsSound _ v1)

  handle_peer_queue-Sound : (m : Msg) → Leaves StatusIsSound (handle_peer_queue w m s)
  unfolding handle_peer_queue
  handle_peer_queue-Sound timeout = carried w s v (s, []) v
  handle_peer_queue-Sound (packet b) =
      Leaves-bind Sound StatusIsSound _ _ (handle_packet-Sound w s v b) (carried w s v)
  handle_peer_queue-Sound (tun_addr text) = tun_addr_arrives-Sound text
  handle_peer_queue-Sound (sys_rt b) = carried w s v _ (same_peers s _ refl v)
  handle_peer_queue-Sound (try_p2p text) = carried w s v _ (handle_try_p2p-HasSoundPeers w s v text)
  handle_peer_queue-Sound (pub_info info) =
      carried w s v _ (handle_pub_info-HasSoundPeers w s v info)
  handle_peer_queue-Sound discovery = carried w s v (s, []) v
  handle_peer_queue-Sound (netstack b) = carried w s v (s, []) v

  set_route_cost-peers : (cost : ℤ) → (set_route_cost cost s).peers ≡ s.peers
  unfolding set_route_cost
  set_route_cost-peers cost = ground arith

  set_port-peers : (port : ℤ) → (set_port port s).peers ≡ s.peers
  unfolding set_port
  set_port-peers (pos port) = ground arith
  set_port-peers (negsuc n) = refl

  set_localhost-Sound : (ip : List ℕ) → Leaves HasSoundPeers (set_localhost w ip s)
  unfolding set_localhost
  set_localhost-Sound ip = elim (Option-cases (from_string w.text ip)) [
    | inl e ↦ rw (e, set_localhost) (Leaves-none HasSoundPeers)
    | inr (a, e) ↦ rw (e, set_localhost) (Leaves-some HasSoundPeers _ (same_peers s _ refl v))
  ]

  run_call-Sound : (c : ManagerCall) → Leaves HasSoundPeers (run_call w c s)
  unfolding run_call
  run_call-Sound (takes m) =
      Leaves-bind StatusIsSound HasSoundPeers _ _ (handle_peer_queue-Sound m)
        (λ r h. Leaves-some HasSoundPeers _ h)
  run_call-Sound ticks = Leaves-some HasSoundPeers _ (tick-Sound w s v)
  run_call-Sound (receives b a) =
      Leaves-bind Sound HasSoundPeers _ _ (receive-Sound w s v b a)
        (λ r h. Leaves-some HasSoundPeers _ h)
  run_call-Sound (sets_password password) =
      Leaves-some HasSoundPeers _ (unfold set_password in same_peers s _ refl v)
  run_call-Sound (sets_interval interval) =
      Leaves-some HasSoundPeers _ (unfold set_discovery_interval in same_peers s _ refl v)
  run_call-Sound (sets_route_cost cost) =
      Leaves-some HasSoundPeers _ (same_peers s _ (set_route_cost-peers cost) v)
  run_call-Sound (sets_port port) =
      Leaves-some HasSoundPeers _ (same_peers s _ (set_port-peers port) v)
  run_call-Sound (sets_localhost ip) = set_localhost-Sound ip

-- The states after some calls, each at a time and in a world of its own.
pub data Runs (s : Manager) : Manager → Type 0 where
  here : Runs s s
  next :
      {t u : Manager} (w : World) (c : ManagerCall) → Runs s t → run_call w c t ≡ some u → Runs s u

-- From a manager whose peers are all sound, such as one without peers, every sequence of messages
-- from the other parts, ticks, datagrams and settings leads to one whose peers are all sound: each
-- has a waiting time of 30 to 3600 seconds, forgets its addresses when it is idle, and has the
-- address that its state needs.
pub runs-HasSoundPeers : {s t : Manager} → Runs s t → HasSoundPeers s → HasSoundPeers t
runs-HasSoundPeers here v = v
runs-HasSoundPeers (next {t} {u} w c r e) v =
    (run_call-Sound w t (runs-HasSoundPeers r v) c).holds u e
