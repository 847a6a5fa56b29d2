-- ===== src/Netstack/Stack/Peers.antt =====
-- The packets of lwIP go back to the gateway from which the source's packets came.
use candy.Base.{
  ℕ, ◌+◌, ◌≤◌, ◌≡◌, refl, sym, ap, ◌∙◌, Bool, true, false, List, [], ◌∷◌, ◌++◌, subst, some, All,
  length-drop, inl, inr, Bool-cases, arith, ltb, length, drop, if◌then◌else◌,
}
use candy.Base.Map.{Map, lookup, assign, lookup-assign_self}
use candy.Net.Ip4.{Ip4, ip_empty, ip4_eq}
use candy.Message.Layout.{ip_at, header_size, saddr_at, daddr_at}
use candy.Tun.Packets.{is_ipip, outer_header}
use candy.Netstack.Stack.{
  PeerEntry, NetStack, to_lwip, to_peers, note_peer, feed_to_lwip, is_tcp_or_udp, handle_inner,
  handle_input, output_to, output,
}
use candy.Netstack.Stack.Known.{IsKnown, fresh-IsKnown, handle_input-IsKnown, output-IsKnown}

-- A packet for the stack, or one of lwIP, with its time.
pub data Crossing : Type 0 where
  enters : ℕ → Bool → List ℕ → Crossing
  leaves : ℕ → Ip4 → List ℕ → Crossing

pub cross : List Crossing → NetStack → NetStack
cross [] s = s
cross (enters now has_memory b ∷ cs) s = cross cs (handle_input now has_memory b s).0
cross (leaves now address b ∷ cs) s = cross cs (output now address b s).0

-- In the 180 seconds from a time on, where the source's packets come over no other peer.
unfoldable pub Agrees : Ip4 → Ip4 → ℕ → Crossing → Type 0
Agrees src peer since (enters now has_memory b) =
    (since ≤ now)
    × (now ≤ since + 180)
    × (is_ipip b ≡ true → ip_at saddr_at (drop header_size b) ≡ src → ip_at saddr_at b ≡ peer)
Agrees src peer since (leaves now address b) = (since ≤ now) × (now ≤ since + 180)

cross-IsKnown :
    (src peer : Ip4) (since : ℕ) (cs : List Crossing) (s : NetStack)
    → All (Agrees src peer since) cs
    → IsKnown src peer since s.vnet_peer_map
    → IsKnown src peer since (cross cs s).vnet_peer_map
unfolding cross Agrees
cross-IsKnown src peer since [] s a k = k
cross-IsKnown src peer since (enters now has_memory b ∷ cs) s a k =
    cross-IsKnown src peer since cs (handle_input now has_memory b s).0 a.1
      (handle_input-IsKnown src peer since now a.0.0 a.0.1 has_memory b s a.0.2 k)
cross-IsKnown src peer since (leaves now address b ∷ cs) s a k =
    cross-IsKnown src peer since cs (output now address b s).0 a.1
      (output-IsKnown src peer since now a.0.0 a.0.1 address b s k)

-- The stack takes the inner packet.
fed :
    (since : ℕ) (b : List ℕ) (s : NetStack)
    → 40 ≤ length b
    → is_ipip b ≡ true
    → is_tcp_or_udp (drop header_size b) ≡ true
    → handle_input since true b s
      ≡ feed_to_lwip since true (drop header_size b) (ip_at saddr_at b) s
unfolding handle_input handle_inner
fed since b s long wrapped carried =
    let whole : ltb (length b) header_size ≡ false = ground arith in
    let inner_whole : ltb (length (drop header_size b)) header_size ≡ false =
      ground (arith, length-drop header_size b) in
    rw (whole, wrapped, inner_whole, carried) refl

noted :
    (since : ℕ) (src peer : Ip4) (m : Map Ip4 PeerEntry)
    → IsKnown src peer since (note_peer since src peer m)
unfolding note_peer
noted since src peer m =
    let m' = assign src (record { peer = peer; last_seen = since }) m in
    let known : IsKnown src peer since m' = record {
      entry = record { peer = peer; last_seen = since };
      found = lookup-assign_self src _ m;
      peer_is = refl;
      seen = omega arith;
    } in
    elim (Bool-cases (ltb 4096 (length m'))) [
      | inl large ↦
          rw large (fresh-IsKnown src peer since since (omega arith) (omega arith) m' known)
      | inr small ↦ rw small known
    ]

fed-IsKnown :
    (since : ℕ) (inner : List ℕ) (peer : Ip4) (s : NetStack)
    → ip_empty peer ≡ false
    → ((feed_to_lwip since true inner peer s).1 ≡ to_lwip inner ∷ [])
      × IsKnown
          (ip_at saddr_at inner)
          peer
          since
          (feed_to_lwip since true inner peer s).0.vnet_peer_map
unfolding feed_to_lwip
fed-IsKnown since inner peer s somebody =
    rw somebody (refl, noted since (ip_at saddr_at inner) peer s.vnet_peer_map)

goes_to :
    (now : ℕ) (address peer : Ip4) (inner : List ℕ) (e : PeerEntry) (s : NetStack)
    → e.peer ≡ peer
    → ip_empty peer ≡ false
    → (output_to now address inner (some e) s).1
      ≡ to_peers (outer_header address peer ++ inner) ∷ []
unfolding output_to
goes_to now address peer inner e s same somebody =
    subst
      (λ p.
        (if ip_empty p then [] else to_peers (outer_header address p ++ inner) ∷ [])
        ≡ to_peers (outer_header address peer ++ inner) ∷ [])
      (sym same) (rw somebody refl)

goes_back :
    (src peer : Ip4) (since now : ℕ) (address : Ip4) (inner : List ℕ) (s : NetStack)
    → 20 ≤ length inner
    → ip_at daddr_at inner ≡ src
    → ip_empty peer ≡ false
    → IsKnown src peer since s.vnet_peer_map
    → (output now address inner s).1 ≡ to_peers (outer_header address peer ++ inner) ∷ []
unfolding output
goes_back src peer since now address inner s long to somebody k =
    let whole : ltb (length inner) header_size ≡ false = ground arith in
    let found = ap (λ i. lookup i s.vnet_peer_map) to ∙ k.found in
    rw whole (
      subst
        (λ o.
          (output_to now address inner o s).1 ≡ to_peers (outer_header address peer ++ inner) ∷ [])
        (sym found) (goes_to now address peer inner k.entry s k.peer_is somebody))

-- A TCP or UDP packet that comes in an outer header, with both headers whole, from a gateway other
-- than 0.0.0.0 is handed to lwIP as it was, where lwIP has memory; and after whatever packets come
-- in and go out in the 180 seconds from then on, none of them of the same source from another
-- gateway, a packet of lwIP for that source goes to that gateway, unchanged and in an outer header
-- with the client's own address.
pub replies_return_to_gateway :
    (since now : ℕ) (address : Ip4) (b reply : List ℕ) (cs : List Crossing) (s : NetStack)
    → 40 ≤ length b
    → is_ipip b ≡ true
    → is_tcp_or_udp (drop header_size b) ≡ true
    → ip_empty (ip_at saddr_at b) ≡ false
    → All (Agrees (ip_at saddr_at (drop header_size b)) (ip_at saddr_at b) since) cs
    → 20 ≤ length reply
    → ip_at daddr_at reply ≡ ip_at saddr_at (drop header_size b)
    → ((handle_input since true b s).1 ≡ to_lwip (drop header_size b) ∷ [])
      × ((output now address reply (cross cs (handle_input since true b s).0)).1
          ≡ to_peers (outer_header address (ip_at saddr_at b) ++ reply) ∷ [])
replies_return_to_gateway since now address b reply cs s long wrapped carried somebody agrees whole
      to =
    let peer = ip_at saddr_at b in
    let src = ip_at saddr_at (drop header_size b) in
    let taken = fed since b s long wrapped carried in
    let first = fed-IsKnown since (drop header_size b) peer s somebody in
    let known = subst (λ r. IsKnown src peer since r.0.vnet_peer_map) (sym taken) first.1 in
    (
      ap (λ r. r.1) taken ∙ first.0,
      goes_back src peer since now address reply (cross cs (handle_input since true b s).0) whole to
          somebody (cross-IsKnown src peer since cs (handle_input since true b s).0 agrees known),
    )
