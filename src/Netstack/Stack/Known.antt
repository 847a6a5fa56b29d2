-- ===== src/Netstack/Stack/Known.antt =====
-- The table of the peers through handleInput and onOutput of netstack.cc.
use candy.Base.{
  ℕ, ◌+◌, ◌≤◌, ◌≡◌, refl, sym, ap, ◌∙◌, Bool, true, false, List, [], ◌∷◌, Option, none, some, inl,
  inr, Bool-cases, arith, ltb, length, drop, if◌then◌else◌,
}
use candy.Base.Map.{Map, lookup, assign, lookup-assign}
use candy.Net.Ip4.{Ip4, any, ip_eq, ip_eq_iff, ip_empty, ip4_eq}
use candy.Message.Layout.{ip_at, header_size, saddr_at, daddr_at}
use candy.Tun.Packets.{is_ipip}
use candy.Netstack.Stack.{
  PeerEntry, NetStack, NetOut, fresh, note_peer, feed_to_lwip, is_tcp_or_udp, handle_inner,
  handle_input, output_to, output,
}

-- The source's peer is known, and was seen at that time or later.
pub record IsKnown (src peer : Ip4) (since : ℕ) (m : Map Ip4 PeerEntry) : Type 0 where
  pub entry : PeerEntry
  pub found : lookup src m ≡ some entry
  pub peer_is : entry.peer ≡ peer
  pub seen : since ≤ entry.last_seen

fresh-lookup :
    (now : ℕ) (src : Ip4) (m : Map Ip4 PeerEntry) (e : PeerEntry)
    → lookup src m ≡ some e
    → now ≤ e.last_seen + 180
    → lookup src (fresh now m) ≡ some e
unfolding fresh lookup
fresh-lookup now src [] e h late = h
fresh-lookup now src ((ip, d) ∷ m) e h late = elim (Bool-cases (ip_eq ip src)) [
  | inl here ↦
      let d_is : d ≡ e = ground (arith, here) in
      let last = ap (λ (x : PeerEntry). x.last_seen) d_is in ground (arith, here, last, d_is)
  | inr there ↦ ground (arith, there, fresh-lookup now src m e)
]

any_is_nobody : ip_empty any ≡ false → ⊥
unfolding ip_empty
any_is_nobody h = cc

peer_or_any : Option PeerEntry → Ip4
peer_or_any none = any
peer_or_any (some e) = e.peer

module _ {src peer : Ip4} {since : ℕ} where
  peer_of_entry :
      (src' : Ip4) (e : PeerEntry) (m : Map Ip4 PeerEntry)
      → src' ≡ src
      → lookup src' m ≡ some e
      → IsKnown src peer since m
      → e.peer ≡ peer
  unfolding peer_or_any
  peer_of_entry src' e m here at k =
      ap peer_or_any (sym at ∙ ap (λ i. lookup i m) here ∙ k.found) ∙ k.peer_is

  either-IsKnown :
      (b : Bool) (x y : NetStack × List NetOut)
      → IsKnown src peer since x.0.vnet_peer_map
      → IsKnown src peer since y.0.vnet_peer_map
      → IsKnown src peer since (if b then x else y).0.vnet_peer_map
  either-IsKnown true x y k l = k
  either-IsKnown false x y k l = l

module _ (src peer : Ip4) (since now : ℕ) (early : since ≤ now) (late : now ≤ since + 180) where
  pub fresh-IsKnown :
      (m : Map Ip4 PeerEntry) → IsKnown src peer since m → IsKnown src peer since (fresh now m)
  fresh-IsKnown m k = record {
    entry = k.entry;
    found = fresh-lookup now src m k.entry k.found (omega (arith, k.seen));
    peer_is = k.peer_is;
    seen = k.seen;
  }

  -- An entry of the same peer, or of another source.
  assign-IsKnown :
      (src' : Ip4) (new : PeerEntry) (m : Map Ip4 PeerEntry)
      → since ≤ new.last_seen
      → (src' ≡ src → new.peer ≡ peer)
      → IsKnown src peer since m
      → IsKnown src peer since (assign src' new m)
  assign-IsKnown src' new m seen same k = elim (Bool-cases (ip_eq src' src)) [
    | inl here ↦ record {
      entry = new;
      found = ground (arith, lookup-assign src' src new m, here);
      peer_is = same ((ip_eq_iff src' src).0 here);
      seen = seen;
    }
    | inr there ↦ record {
      entry = k.entry;
      found = ground (arith, lookup-assign src' src new m, there, k.found);
      peer_is = k.peer_is;
      seen = k.seen;
    }
  ]

  note_peer-IsKnown :
      (src' peer' : Ip4) (m : Map Ip4 PeerEntry)
      → (src' ≡ src → peer' ≡ peer)
      → IsKnown src peer since m
      → IsKnown src peer since (note_peer now src' peer' m)
  unfolding note_peer
  note_peer-IsKnown src' peer' m same k =
      let m' = assign src' (record { peer = peer'; last_seen = now }) m in
      let known = assign-IsKnown src' (record { peer = peer'; last_seen = now }) m early same k in
      elim (Bool-cases (ltb 4096 (length m'))) [
        | inl large ↦ rw large (fresh-IsKnown m' known)
        | inr small ↦ rw small known
      ]

  feed_to_lwip-IsKnown :
      (has_memory : Bool) (inner : List ℕ) (peer' : Ip4) (s : NetStack)
      → (ip_empty peer' ≡ false → ip_at saddr_at inner ≡ src → peer' ≡ peer)
      → IsKnown src peer since s.vnet_peer_map
      → IsKnown src peer since (feed_to_lwip now has_memory inner peer' s).0.vnet_peer_map
  unfolding feed_to_lwip
  feed_to_lwip-IsKnown has_memory inner peer' s same k = elim (Bool-cases (ip_empty peer')) [
    | inl nobody ↦ rw nobody k
    | inr somebody ↦
        rw somebody
          (note_peer-IsKnown (ip_at saddr_at inner) peer' s.vnet_peer_map (same somebody) k)
  ]

  handle_inner-IsKnown :
      (has_memory : Bool) (inner : List ℕ) (peer' : Ip4) (s : NetStack)
      → (ip_empty peer' ≡ false → ip_at saddr_at inner ≡ src → peer' ≡ peer)
      → IsKnown src peer since s.vnet_peer_map
      → IsKnown src peer since (handle_inner now has_memory inner peer' s).0.vnet_peer_map
  unfolding handle_inner
  handle_inner-IsKnown has_memory inner peer' s same k =
      either-IsKnown (ltb (length inner) header_size) _ _ k (
        either-IsKnown (is_tcp_or_udp inner) _ _
          (feed_to_lwip-IsKnown has_memory inner peer' s same k) k)

  pub handle_input-IsKnown :
      (has_memory : Bool) (b : List ℕ) (s : NetStack)
      → (is_ipip b ≡ true → ip_at saddr_at (drop header_size b) ≡ src → ip_at saddr_at b ≡ peer)
      → IsKnown src peer since s.vnet_peer_map
      → IsKnown src peer since (handle_input now has_memory b s).0.vnet_peer_map
  unfolding handle_input
  handle_input-IsKnown has_memory b s same k =
      either-IsKnown (ltb (length b) header_size) _ _ k (elim (Bool-cases (is_ipip b)) [
        | inl wrapped ↦ rw wrapped (
            handle_inner-IsKnown has_memory (drop header_size b) (ip_at saddr_at b) s
              (λ somebody. same wrapped) k)
        | inr plain ↦ rw plain (
            handle_inner-IsKnown has_memory b any s (λ somebody. absurd (any_is_nobody somebody)) k)
      ])

  output_to-IsKnown :
      (address : Ip4) (inner : List ℕ) (f : Option PeerEntry) (s : NetStack)
      → lookup (ip_at daddr_at inner) s.vnet_peer_map ≡ f
      → IsKnown src peer since s.vnet_peer_map
      → IsKnown src peer since (output_to now address inner f s).0.vnet_peer_map
  unfolding output_to
  output_to-IsKnown address inner none s at k = k
  output_to-IsKnown address inner (some e) s at k =
      assign-IsKnown (ip_at daddr_at inner) (record e { last_seen = now }) s.vnet_peer_map early
        (λ here. peer_of_entry (ip_at daddr_at inner) e s.vnet_peer_map here at k) k

  pub output-IsKnown :
      (address : Ip4) (inner : List ℕ) (s : NetStack)
      → IsKnown src peer since s.vnet_peer_map
      → IsKnown src peer since (output now address inner s).0.vnet_peer_map
  unfolding output
  output-IsKnown address inner s k =
      either-IsKnown (ltb (length inner) header_size) _ _ k
        (output_to-IsKnown address inner (lookup (ip_at daddr_at inner) s.vnet_peer_map) s refl k)
