-- ===== src/Tun/Tunnel.antt =====
-- A packet through the tunnel: handleTunDevice of one gateway, handlePacket of the other.
use candy.Base.{
  ℕ, ◌+◌, ◌≤◌, ◌≡◌, ◌≢◌, inl, inr, refl, ap, ap₂, ◌∙◌, Bool, true, false, not, ◌&&◌, List, [], ◌∷◌,
  ◌++◌, arith, Bool-cases, ltb, length, if◌then◌else◌, drop, Option, none, some,
}
use candy.Net.Order.{Endian}
use candy.Net.Ip4.{Ip4, ip_eq, ip_eq_iff, ip_empty}
use candy.Message.Layout.{header_size, ip_at, daddr_at}
use candy.Tun.Flows.{
  Tun, FlowKey, flow_limit, reap_interval, record_initiated_flow, record_key, reap_idle_flows,
  parse_inner_l4,
}
use candy.Tun.Packets.{
  to_device, to_peers, is_ipv4, is_ipip, next_hop, outer_header, route_out, handle_tun_device,
  write_inner, decide, handle_packet,
}

module _ (src dst : Ip4) (b : List ℕ) where
  daddr-outer_header : ip_at daddr_at (outer_header src dst ++ b) ≡ dst
  unfolding outer_header
  daddr-outer_header = refl

  is_ipip-outer_header : is_ipip (outer_header src dst ++ b) ≡ true
  unfolding is_ipip outer_header
  is_ipip-outer_header = refl

  drop-outer_header : drop header_size (outer_header src dst ++ b) ≡ b
  unfolding outer_header
  drop-outer_header = refl

  length-outer_header : length (outer_header src dst ++ b) ≡ 20 + length b
  unfolding outer_header
  length-outer_header = omega arith

route_out_other :
    (b : List ℕ) (s : Tun)
    → ip_eq (ip_at daddr_at b) s.address ≡ false
    → (route_out b s).1 ≡ to_peers b ∷ []
unfolding route_out
route_out_other b s other = rw other refl

decide_kernel :
    (b : List ℕ) (r : Tun × Bool)
    → is_ipip b ≡ true
    → (decide false b r).1 ≡ to_device (drop header_size b) ∷ []
unfolding decide write_inner
decide_kernel b (s, true) h = rw h refl
decide_kernel b (s, false) h = rw h refl

unwraps :
    (e : Endian) (later : ℕ) (b : List ℕ) (t : Tun)
    → ltb (length b) header_size ≡ false
    → is_ipip b ≡ true
    → (handle_packet e false later b t).1 ≡ to_device (drop header_size b) ∷ []
unfolding handle_packet
unwraps e later b t long h = rw (long, h) (decide_kernel b _ h)

wraps :
    (e : Endian) (userspace : Bool) (now : ℕ) (b : List ℕ) (s : Tun)
    → ltb (length b) header_size ≡ false
    → is_ipv4 b ≡ true
    → ip_empty (next_hop b s) ≡ false
    → handle_tun_device e userspace now b s
      ≡ route_out
          (outer_header s.address (next_hop b s) ++ b)
          (if userspace then record_initiated_flow e now b s else s)
unfolding handle_tun_device
wraps e userspace now b s long v4 hop = rw (long, v4, hop) refl

different : (a c : Ip4) → a ≢ c → ip_eq a c ≡ false
different a c ne = ground (arith, ip_eq_iff a c)

reap-address : (now : ℕ) (s : Tun) → (reap_idle_flows now s).address ≡ s.address
unfolding reap_idle_flows
reap-address now s =
    elim (Bool-cases (
      not (ltb flow_limit (length s.initiated_flows))
      && ltb now (s.last_flow_reap + reap_interval))) [
        | inl throttled ↦ rw throttled refl
        | inr due ↦ rw due refl
      ]

record_key-address :
    (now : ℕ) (o : Option FlowKey) (s : Tun) → (record_key now o s).address ≡ s.address
unfolding record_key
record_key-address now none s = refl
record_key-address now (some key) s = reap-address now _

recorded_address :
    (userspace : Bool) (e : Endian) (now : ℕ) (b : List ℕ) (s : Tun)
    → (if userspace then record_initiated_flow e now b s else s).address ≡ s.address
unfolding record_initiated_flow
recorded_address true e now b s = record_key-address now (parse_inner_l4 e b) s
recorded_address false e now b s = refl

-- An IPv4 packet of the device for which the route table has a next hop, which is not 0.0.0.0 and
-- not the gateway itself, is handed to the peers with an outer header in front; the gateway that
-- receives it, with the kernel's transport, writes to its device the packet as it was.
pub tunnel_keeps_packets :
    (e e' : Endian) (userspace : Bool) (now later : ℕ) (b : List ℕ) (s t : Tun)
    → 20 ≤ length b
    → is_ipv4 b ≡ true
    → ip_empty (next_hop b s) ≡ false
    → next_hop b s ≢ s.address
    → let p = outer_header s.address (next_hop b s) ++ b in
      ((handle_tun_device e userspace now b s).1 ≡ to_peers p ∷ [])
      × ((handle_packet e' false later p t).1 ≡ to_device b ∷ [])
tunnel_keeps_packets e e' userspace now later b s t long v4 hop ne = (
  ap (λ r. r.1) (wraps e userspace now b s (ground arith) v4 hop) ∙ sends,
  unwraps e' later p t (ground (arith, length-outer_header s.address (next_hop b s) b))
        (is_ipip-outer_header s.address (next_hop b s) b)
      ∙ ap (λ x. to_device x ∷ []) (drop-outer_header s.address (next_hop b s) b),
)
  where
    p : List ℕ
    p = outer_header s.address (next_hop b s) ++ b

    s' : Tun
    s' = if userspace then record_initiated_flow e now b s else s

    same_address : s'.address ≡ s.address
    same_address = recorded_address userspace e now b s

    other : ip_eq (ip_at daddr_at p) s'.address ≡ false
    other =
        ap₂ ip_eq (daddr-outer_header s.address (next_hop b s) b) same_address
        ∙ different (next_hop b s) s.address ne

    sends : (route_out p s').1 ≡ to_peers p ∷ []
    sends = route_out_other p s' other
