-- ===== src/Manager/OnlyPeers.antt =====
-- A client that is set to send to peers only.
use candy.Base.{
  ℕ, refl, arith, ◌≡◌, true, false, List, [], ◌∷◌, ◌++◌, All, Option, none, some, inl, inr,
  Option-cases,
}
use candy.Base.Map.{lookup}
use candy.Base.Results.{Leaves-if, Leaves-none, Leaves-some}
use candy.Net.Ip4.{Ip4, ip4_eq}
use candy.Message.Layout.{daddr_at, ip_at}
use candy.Base.Int.{ℤ}
use candy.Peer.State.{Peer, PeerState, SocketAddress}
use candy.Manager.Table.{PeerRouteEntry}
use candy.Manager.State.{World, Manager, Sent, udp}
use candy.Manager.Messages.{is_connected}
use candy.Manager.Send.{
  Attempt, forward_create, peer_send, encrypted, send_to_peer, send_packet_direct, relay_by,
  send_packet_relay, or_else, send_packet,
}
use candy.Manager.Queue.{handle_packet, packet_tried, not_sent}

-- The packet, forwarded and enciphered with a connected peer's key, for the peer's address.
pub record IsForwarded (w : World) (s : Manager) (b : List ℕ) (a : SocketAddress) (c : List ℕ)
    : Type 0 where
  pub ip : Ip4
  pub peer : Peer
  pub held : lookup ip s.peers ≡ some peer
  pub connected : peer.state ≡ PeerState.connected
  pub real_is : peer.real ≡ some a
  pub enciphered : w.encrypt peer.key (forward_create b) ≡ some c

pub IsToPeer : World → Manager → List ℕ → Sent → Type 0
IsToPeer w s b (udp a c) = IsForwarded w s b a c
IsToPeer w s b _ = ⊥

abbrev pub AllToPeers : World → Manager → List ℕ → List Sent → Type 0
AllToPeers w s b = All (IsToPeer w s b)

both_to_peers :
    (w : World) (s : Manager) (b : List ℕ) (xs ys : List Sent)
    → AllToPeers w s b xs
    → AllToPeers w s b ys
    → AllToPeers w s b (xs ++ ys)
both_to_peers w s b [] ys h k = k
both_to_peers w s b (x ∷ xs) ys h k = (h.0, both_to_peers w s b xs ys h.1 k)

connected_state : (p : Peer) (rtt : ℤ) → is_connected p ≡ some rtt → p.state ≡ PeerState.connected
unfolding is_connected
connected_state p rtt h = ground arith

module _ (w : World) (s : Manager) (b : List ℕ) where
  peer_send_lem :
      (c : List ℕ) (o : Option SocketAddress)
      → ((a : SocketAddress) → o ≡ some a → IsForwarded w s b a c)
      → AllToPeers w s b (peer_send w c o).0
  unfolding peer_send IsToPeer
  peer_send_lem c none known = tt
  peer_send_lem c (some a) known = (known a refl, tt)

  encrypted_lem :
      (ip : Ip4) (p : Peer)
      → lookup ip s.peers ≡ some p
      → p.state ≡ PeerState.connected
      → (o : Option (List ℕ)) → w.encrypt p.key (forward_create b) ≡ o
      → AllToPeers w s b (encrypted w o p).0
  unfolding encrypted
  encrypted_lem ip p held up none enc = tt
  encrypted_lem ip p held up (some c) enc = peer_send_lem c p.real (λ a real. record {
    ip = ip;
    peer = p;
    held = held;
    connected = up;
    real_is = real;
    enciphered = enc;
  })

  send_to_peer_lem :
      (ip : Ip4) (o : Option Peer)
      → lookup ip s.peers ≡ o
      → AllToPeers w s b (send_to_peer w (forward_create b) o).0
  unfolding send_to_peer IsToPeer
  send_to_peer_lem ip none held = tt
  send_to_peer_lem ip (some p) held = elim (Option-cases (is_connected p)) [
    | inl e ↦ rw (e, send_to_peer) tt
    | inr (rtt, e) ↦
        rw (e, send_to_peer)
          (encrypted_lem ip p held (connected_state p rtt e) (w.encrypt p.key (forward_create b))
            refl)
  ]

  send_packet_direct_lem : (k : Ip4) → AllToPeers w s b (send_packet_direct w k b s).0
  unfolding send_packet_direct
  send_packet_direct_lem k = send_to_peer_lem k (lookup k s.peers) refl

  relay_by_lem : (o : Option PeerRouteEntry) → AllToPeers w s b (relay_by w o b s).0
  unfolding relay_by
  relay_by_lem none = tt
  relay_by_lem (some r) = send_packet_direct_lem r.next

  or_else_lem :
      (t u : Attempt)
      → AllToPeers w s b t.0
      → AllToPeers w s b u.0
      → AllToPeers w s b (or_else t u).0
  unfolding or_else
  or_else_lem (out, true) u h k = h
  or_else_lem (out, false) (more, done) h k = both_to_peers w s b out more h k

module _ (w : World) (s : Manager) (only : w.p2p_only ≡ true) where
  packet_tried_lem :
      (dst : Ip4) (b : List ℕ) (t : Attempt)
      → AllToPeers w s b t.0
      → AllToPeers w s b (packet_tried w dst b t s).1
  unfolding packet_tried
  packet_tried_lem dst b (out, true) h = h
  packet_tried_lem dst b (out, false) h =
      both_to_peers w s b out _ h (unfold not_sent in rw only tt)

  -- With the setting for peers only, whatever handlePacket sends for a packet is that packet,
  -- enciphered with the key of a connected peer and sent to that peer's address: nothing goes to
  -- the server, even when no peer takes the packet.
  pub packet_avoids_server :
      (b : List ℕ) (t : Manager) (out : List Sent)
      → handle_packet w b s ≡ some (t, out)
      → AllToPeers w s b out
  unfolding handle_packet send_packet send_packet_relay
  packet_avoids_server b t out e =
      let dst = ip_at daddr_at b in
      (Leaves-if (λ r. AllToPeers w s b r.1) _ _ _ (Leaves-none _)
          (Leaves-some _ _ (
            packet_tried_lem dst b _ (
              or_else_lem w s b (relay_by w (lookup dst s.rt_table) b s)
                (send_packet_direct w dst b s) (relay_by_lem w s b (lookup dst s.rt_table))
                (send_packet_direct_lem w s b dst))))).holds
        (t, out) e
