-- ===== src/Manager/Packets.antt =====
-- The ways of a packet: over a peer, directly to it, or over the server.
use candy.Base.{
  ◌≢◌, if◌then◌else◌, ℕ, ◌≡◌, ◌≤◌, ap, true, false, List, [], ◌∷◌, Option, none, some, arith, ltb,
  length,
}
use candy.Base.Map.{lookup}
use candy.Net.Ip4.{Ip4, ip_eq, ip4_eq}
use candy.Message.Layout.{header_size, daddr_at, ip_at}
use candy.Core.Message.{packet}
use candy.Peer.State.{Peer, PeerState, SocketAddress}
use candy.Manager.Table.{PeerRouteEntry}
use candy.Manager.State.{World, Manager, Sent, udp, to_tun, to_peers, get_tun_ip, key_for}
use candy.Manager.Messages.{is_connected}
use candy.Manager.Send.{
  failure, forward_create, peer_send, encrypted, send_to_peer, send_packet_direct, relay_by,
  send_packet_relay, or_else, send_packet, target_of, resolve_peer_target,
}
use candy.Manager.Queue.{handle_packet, packet_tried}
use candy.Manager.Receive.{receive, same_address}

-- A peer that takes a packet: it is connected, has an address, and both the cipher and the socket
-- do their work.
pub record Link (w : World) (s : Manager) (k : Ip4) (b : List ℕ) : Type 0 where
  pub peer : Peer
  pub address : SocketAddress
  pub ciphertext : List ℕ
  pub held : lookup k s.peers ≡ some peer
  pub connected : peer.state ≡ PeerState.connected
  pub real_is : peer.real ≡ some address
  pub encrypts : w.encrypt peer.key (forward_create b) ≡ some ciphertext
  pub takes : w.takes address ciphertext ≡ true

module _ (w : World) (s : Manager) (b : List ℕ) where
  direct_by :
      (k : Ip4) (l : Link w s k b)
      → send_packet_direct w k b s ≡ (udp l.address l.ciphertext ∷ [], true)
  unfolding send_packet_direct send_to_peer is_connected
  direct_by k l =
      rw (l.held, l.connected, l.encrypts) (unfold encrypted peer_send in rw (l.real_is, l.takes))

  sent_by :
      (dst : Ip4) (o : Option PeerRouteEntry)
      → (l : Link w s (target_of dst o) b)
      → or_else (relay_by w o b s) (send_packet_direct w dst b s)
        ≡ (udp l.address l.ciphertext ∷ [], true)
  unfolding target_of relay_by or_else
  sent_by dst none l = ap (or_else failure) (direct_by dst l)
  sent_by dst (some r) l = ap (λ t. or_else t (send_packet_direct w dst b s)) (direct_by r.next l)

  pub packet_over_peer :
      header_size ≤ length b
      → (l : Link w s (resolve_peer_target (ip_at daddr_at b) s) b)
      → handle_packet w b s ≡ some (s, udp l.address l.ciphertext ∷ [])
  unfolding handle_packet resolve_peer_target send_packet send_packet_relay packet_tried
  packet_over_peer long l =
      let fits : ltb (length b) header_size ≡ false = ground (arith, long) in
      rw (fits, sent_by (ip_at daddr_at b) (lookup (ip_at daddr_at b) s.rt_table) l)

-- What a client does with a packet that another client forwards to it.
abbrev pub handed : List ℕ → Manager → Sent
handed b t =
    if ip_eq (ip_at daddr_at b) (get_tun_ip t) then to_tun (packet b) else to_peers (packet b)

-- A client with its world and the address that its datagrams come from.
pub record Client : Type 0 where
  pub world : World
  pub manager : Manager
  pub source : SocketAddress

-- The next client for a packet: the one sends to the other's address, made its peer with the same
-- password as the other's key, and is not the other's STUN server.
pub record IsHop (b : List ℕ) (n m : Client) : Type 0 where
  pub link : Link n.world n.manager (resolve_peer_target (ip_at daddr_at b) n.manager) b
  pub addressed : resolve_peer_target (ip_at daddr_at b) n.manager ≡ get_tun_ip m.manager
  pub made :
      link.peer.key
      ≡ key_for n.world n.manager.password (resolve_peer_target (ip_at daddr_at b) n.manager)
  pub set : m.manager.key ≡ key_for m.world m.manager.password (get_tun_ip m.manager)
  pub same_password : n.manager.password ≡ m.manager.password
  pub same_hash : n.world.sha256 ≡ m.world.sha256
  pub same_order : n.world.endian ≡ m.world.endian
  pub other : same_address m.manager.stun.address n.source ≡ false

-- Both clients have the same cipher, which deciphers with a key what it has enciphered with it.
pub record HasCipher (n m : Client) : Type 0 where
  pub opens :
      (key plain cipher : List ℕ)
      → n.world.encrypt key plain ≡ some cipher
      → m.world.decrypt key cipher ≡ some plain

-- The packet leaves the one client in one datagram and nothing else, and the other hands it on.
pub record Crosses (b : List ℕ) (n m : Client) (out : Sent) : Type 0 where
  pub address : SocketAddress
  pub ciphertext : List ℕ
  pub leaves : handle_packet n.world b n.manager ≡ some (n.manager, udp address ciphertext ∷ [])
  pub arrives : receive m.world ciphertext n.source m.manager ≡ some (m.manager, out ∷ [])

-- The way of a packet over relays to the client of its destination's address.
unfoldable pub IsWay : List ℕ → Client → List Client → Client → Type 0
IsWay b n [] m = HasCipher n m × IsHop b n m × (ip_at daddr_at b ≡ get_tun_ip m.manager)
IsWay b n (r ∷ rs) m =
    HasCipher n r × IsHop b n r × (ip_at daddr_at b ≢ get_tun_ip r.manager) × IsWay b r rs m

-- Each relay hands the packet to its own handlePacket, and the last client to its TUN.
unfoldable pub Delivers : List ℕ → Client → List Client → Client → Type 0
Delivers b n [] m = Crosses b n m (to_tun (packet b))
Delivers b n (r ∷ rs) m = Crosses b n r (to_peers (packet b)) × Delivers b r rs m
