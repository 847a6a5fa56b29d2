-- ===== src/Manager/Receive.antt =====
-- What PeerManager does with a datagram: poll and handleMessage.
use candy.Base.{
  ℕ, Bool, List, [], ◌∷◌, Option, none, some, if◌then◌else◌, ◌&&◌, ◌==◌, ltb, length, get_or, drop,
}
use candy.Base.Map.{lookup}
use candy.Net.Ip4.{Ip4, ip_eq, ip4_eq}
use candy.Message.Layout.{forward_size, daddr_at, ip_at}
use candy.Core.Message.{packet}
use candy.Peer.State.{Peer, SocketAddress}
use candy.Peer.Send.{heartbeat_kind, delay_kind}
use candy.Peer.Calls
use candy.Manager.State.{
  World, Manager, to_tun, to_peers, Result, peer_world, get_tun_ip, client_relay_enabled,
}
use candy.Manager.Messages.{handle_delay_message, handle_route_message}
use candy.Manager.Send.{forward_kind}
use candy.Manager.Queue.{of_peer}
use candy.Manager.Stun.{handle_stun_response}

-- PeerMsgKind::ROUTE
abbrev pub route_kind : ℕ
route_kind = 4

-- sizeof(PeerMsg::Heartbeat): kind, tunip, ip, port, ack.
abbrev pub heartbeat_size : ℕ
heartbeat_size = 12

unfoldable pub heartbeat_of : World → SocketAddress → Ip4 → ℕ → Option Peer → Manager → Result
heartbeat_of w a ip ack none s = (s, [])
heartbeat_of w a ip ack (some p) s =
    of_peer w ip (Calls.handle_heartbeat (peer_world w s) a ack p) s

unfoldable pub handle_heartbeat_message : World → List ℕ → SocketAddress → Manager → Result
handle_heartbeat_message w b a s =
    if ltb (length b) heartbeat_size
    then (s, [])
    else heartbeat_of w a (ip_at 1 b) (get_or b 11 0) (lookup (ip_at 1 b) s.peers) s

unfoldable pub handle_forward_message : List ℕ → Manager → Result
handle_forward_message b s =
    if ltb (length b) forward_size
    then (s, [])
    else let inner = drop 1 b in
      (
        s,
        (if ip_eq (ip_at daddr_at inner) (get_tun_ip s)
              then to_tun (packet inner)
              else to_peers (packet inner))
            ∷ [],
      )

-- buffer.front() of the text, which may be empty: then it is the zero behind it.
unfoldable pub handle_message : World → List ℕ → SocketAddress → Manager → Result
handle_message w b a s =
    let kind = get_or b 0 0 in
    if kind == heartbeat_kind
    then handle_heartbeat_message w b a s
    else if kind == forward_kind
    then handle_forward_message b s
    else if kind == delay_kind
    then (if client_relay_enabled s then handle_delay_message w.endian w.boot_time b s else (s, []))
    else if kind == route_kind
    then (if client_relay_enabled s then handle_route_message w.endian b s else (s, []))
    else (s, [])

abbrev pub same_address : SocketAddress → SocketAddress → Bool
same_address a b = ip_eq a.host b.host && a.port == b.port

abbrev pub decrypted : World → Option (List ℕ) → SocketAddress → Manager → Option Result
decrypted w none a s = some (s, [])
decrypted w (some b) a s = some (handle_message w b a s)

-- The rest of poll for a datagram that is not empty.
unfoldable pub receive : World → List ℕ → SocketAddress → Manager → Option Result
receive w b a s =
    if same_address s.stun.address a
    then handle_stun_response w b s
    else decrypted w (w.decrypt s.key b) a s
