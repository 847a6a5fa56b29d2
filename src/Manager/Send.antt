-- ===== src/Manager/Send.antt =====
-- What PeerManager sends: packets to other clients, its own address, requests to the STUN server;
-- and the effects of a peer's calls.
use candy.Base.{ℕ, Bool, true, false, List, [], ◌∷◌, ◌++◌, Option, none, some, if◌then◌else◌}
use candy.Base.Map.{lookup}
use candy.Net.Ip4.{Ip4, ip4_eq}
use candy.Core.Message.{PubInfo, pub_info}
use candy.Peer.State.{
  Peer, SocketAddress, Effect, send_to, send_pub_info, stun_needed, drop_route, rtt_limit,
}
use candy.Manager.Table.{PeerRouteEntry}
use candy.Manager.State.{World, Manager, Sent, udp, to_ws, Result}
use candy.Manager.Messages.{is_connected, learn_route}

-- PeerMsgKind::FORWARD
abbrev pub forward_kind : ℕ
forward_kind = 1

-- PeerMsg::Forward::create
unfoldable pub forward_create : List ℕ → List ℕ
forward_create packet = forward_kind ∷ packet

-- What was sent, and whether the call reports success.
abbrev pub Attempt : Type 0
Attempt = List Sent × Bool

abbrev pub failure : Attempt
failure = ([], false)

-- Peer::send. The part of a message that the socket took is not told apart from all of it.
unfoldable pub peer_send : World → List ℕ → Option SocketAddress → Attempt
peer_send w b none = failure
peer_send w b (some a) = (udp a b ∷ [], w.takes a b)

unfoldable pub encrypted : World → Option (List ℕ) → Peer → Attempt
encrypted w none p = failure
encrypted w (some b) p = peer_send w b p.real

-- Peer::sendEncrypted with its result, to a connected peer.
unfoldable pub send_to_peer : World → List ℕ → Option Peer → Attempt
send_to_peer w b none = failure
send_to_peer w b (some p) = elim (is_connected p) [
  | none ↦ failure
  | some rtt ↦ encrypted w (w.encrypt p.key b) p
]

unfoldable pub send_packet_direct : World → Ip4 → List ℕ → Manager → Attempt
send_packet_direct w dst b s = send_to_peer w (forward_create b) (lookup dst s.peers)

unfoldable pub relay_by : World → Option PeerRouteEntry → List ℕ → Manager → Attempt
relay_by w none b s = failure
relay_by w (some r) b s = send_packet_direct w r.next b s

unfoldable pub send_packet_relay : World → Ip4 → List ℕ → Manager → Attempt
send_packet_relay w dst b s = relay_by w (lookup dst s.rt_table) b s

-- A second call, when the first one failed.
unfoldable pub or_else : Attempt → Attempt → Attempt
or_else (out, true) second = (out, true)
or_else (out, false) (more, done) = (out ++ more, done)

unfoldable pub send_packet : World → Ip4 → List ℕ → Manager → Attempt
send_packet w dst b s = or_else (send_packet_relay w dst b s) (send_packet_direct w dst b s)

unfoldable pub target_of : Ip4 → Option PeerRouteEntry → Ip4
target_of dst none = dst
target_of dst (some r) = r.next

unfoldable pub resolve_peer_target : Ip4 → Manager → Ip4
resolve_peer_target dst s = target_of dst (lookup dst s.rt_table)

-- PeerManager::sendPubInfo for what a peer asks to be sent.
unfoldable pub own_info : World → Ip4 → Bool → Manager → PubInfo
own_info w dst is_local s = record {
  src = w.client_ip;
  dst = dst;
  ip = if is_local then s.localhost else s.stun.ip;
  port = if is_local then w.socket_port else s.stun.port;
  is_local = is_local;
}

-- One effect of a peer's call.
unfoldable pub perform : World → Effect → Manager → Result
perform w (send_to a b) s = (s, udp a b ∷ [])
perform w (send_pub_info dst is_local) s = (s, to_ws (pub_info (own_info w dst is_local s)) ∷ [])
perform w stun_needed s = (record s { stun = record (s.stun) { needed = true } }, [])
perform w (drop_route ip) s = learn_route (record { dst = ip; next = ip; rtt = rtt_limit }) s

unfoldable pub perform_all : World → List Effect → Manager → Result
perform_all w [] s = (s, [])
perform_all w (e ∷ es) s =
    let (s', out) = perform w e s in let (s'', more) = perform_all w es s' in (s'', out ++ more)

-- struct StunRequest: type, length and cookie; the id; one attribute.
abbrev stun_head : List ℕ
stun_head = 0 ∷ 1 ∷ 0 ∷ 8 ∷ 0x21 ∷ 0x12 ∷ 0xa4 ∷ 0x42 ∷ []

abbrev stun_attribute : List ℕ
stun_attribute = 0 ∷ 3 ∷ 0 ∷ 4 ∷ 0 ∷ 0 ∷ 0 ∷ 0 ∷ []

unfoldable pub stun_request : World → List ℕ
stun_request w = stun_head ++ (w.stun_id ++ stun_attribute)

unfoldable pub send_stun_request : World → Manager → List Sent
send_stun_request w s = udp s.stun.address (stun_request w) ∷ []
