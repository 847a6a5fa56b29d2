-- ===== src/Tun/Bounded.antt =====
-- The limit of the flow table.
use candy.Base.{
  ℕ, ◌*◌, zero, suc, ◌+◌, ◌≤◌, ◌<◌, ◌≡◌, ◌⊎◌, inl, inr, refl, sym, Bool, true, false, not, ◌&&◌,
  List, [], ◌∷◌, Option, none, some, arith, Bool-cases, ltb, length, ◌==◌, ==_iff, if◌then◌else◌,
  drop, subst, ◌++◌,
}
use candy.Base.Map.{Map, lookup, assign}
use candy.Net.Order.{Endian}
use candy.Tun.Flows.{
  Tun, FlowKey, flow_limit, fresh, oldest_time, remove_time, remove_oldest, evict, evict_all,
  reap_interval, reap_idle_flows, record_key, record_initiated_flow, is_return_by_flow,
  return_of_key, refresh, reversed, parse_inner_l4, flow_key_eq,
}
use candy.Net.Ip4.{ip_eq, ip_empty}
use candy.Message.Layout.{header_size, ip_at, daddr_at}
use candy.Tun.Packets.{
  handle_tun_device, handle_packet, route_out, write_inner, decide, Output, is_ipip, is_ipv4,
  next_hop, outer_header,
}

-- Some entry has the time.
abbrev HasTime : ℕ → Map FlowKey ℕ → Type 0
HasTime t [] = ⊥
HasTime t ((k, u) ∷ m) = (u ≡ t) ⊎ HasTime t m

-- The oldest time is the one that the search starts from, or an entry's.
abbrev FoundTime : ℕ → ℕ → Map FlowKey ℕ → Type 0
FoundTime r t m = (r ≡ t) ⊎ HasTime r m

FoundTime-cons :
    (b : Bool) (k : FlowKey) (u t : ℕ) (m : Map FlowKey ℕ)
    → ((v : ℕ) → FoundTime (oldest_time v m) v m)
    → FoundTime (oldest_time (if b then u else t) m) t ((k, u) ∷ m)
FoundTime-cons true k u t m ih = elim (ih u) [ inl e ↦ inr (inl (sym e)) | inr h ↦ inr (inr h) ]
FoundTime-cons false k u t m ih = elim (ih t) [ inl e ↦ inl e | inr h ↦ inr (inr h) ]

oldest_time-FoundTime : (m : Map FlowKey ℕ) (t : ℕ) → FoundTime (oldest_time t m) t m
unfolding oldest_time
oldest_time-FoundTime [] t = inl refl
oldest_time-FoundTime ((k, u) ∷ m) t =
    FoundTime-cons (ltb u t) k u t m (λ v. oldest_time-FoundTime m v)

length-remove_time :
    (t : ℕ) (m : Map FlowKey ℕ) → HasTime t m → length (remove_time t m) + 1 ≡ length m
unfolding remove_time
length-remove_time t [] h = absurd h
length-remove_time t ((k, u) ∷ m) h = elim (Bool-cases (u == t)) [
  | inl same ↦ rw same (omega arith)
  | inr other ↦ rw other (elim h [
    | inl e ↦ cc ((==_iff u t).1 e)
    | inr later ↦ omega (arith, length-remove_time t m later)
  ])
]

length-remove_oldest : (m : Map FlowKey ℕ) → 0 < length m → length (remove_oldest m) + 1 ≡ length m
unfolding remove_oldest
length-remove_oldest [] h = absurd (omega arith)
length-remove_oldest ((k, t) ∷ m) h =
    length-remove_time (oldest_time t m) ((k, t) ∷ m)
      (elim (oldest_time-FoundTime m t) [ inl e ↦ inl (sym e) | inr later ↦ inr later ])

length-evict :
    (fuel : ℕ) (m : Map FlowKey ℕ)
    → length m ≤ fuel + flow_limit
    → length (evict fuel m) ≤ flow_limit
unfolding evict
length-evict zero m h = omega arith
length-evict (suc fuel) m h = elim (Bool-cases (ltb flow_limit (length m))) [
  | inl over ↦
      rw over (length-evict fuel (remove_oldest m) (ground (arith, length-remove_oldest m)))
  | inr within ↦ rw within (ground arith)
]

length-reap_idle_flows :
    (now : ℕ) (s : Tun) → length (reap_idle_flows now s).initiated_flows ≤ flow_limit
unfolding reap_idle_flows evict_all
length-reap_idle_flows now s =
    elim (Bool-cases (
      not (ltb flow_limit (length s.initiated_flows))
      && ltb now (s.last_flow_reap + reap_interval))) [
        | inl throttled ↦ rw throttled (ground arith)
        | inr due ↦ rw due (
            length-evict (length (fresh now s.initiated_flows)) (fresh now s.initiated_flows)
              (omega arith))
      ]

abbrev pub IsWithinLimit : Tun → Type 0
IsWithinLimit s = length s.initiated_flows ≤ flow_limit

record_key-IsWithinLimit :
    (now : ℕ) (o : Option FlowKey) (s : Tun) → IsWithinLimit s → IsWithinLimit (record_key now o s)
unfolding record_key
record_key-IsWithinLimit now none s h = h
record_key-IsWithinLimit now (some key) s h = length-reap_idle_flows now _

length-assign_present :
    (k : FlowKey) (v : ℕ) (m : Map FlowKey ℕ) (t : ℕ)
    → lookup k m ≡ some t
    → length (assign k v m) ≡ length m
unfolding assign lookup
length-assign_present k v [] t h = cc
length-assign_present k v ((j, w) ∷ m) t h = ground (arith, length-assign_present k v m t)

refresh-IsWithinLimit :
    (now : ℕ) (key : FlowKey) (o : Option ℕ) (s : Tun)
    → lookup key s.initiated_flows ≡ o
    → IsWithinLimit s
    → IsWithinLimit (refresh now key o s).0
unfolding refresh
refresh-IsWithinLimit now key none s e h = h
refresh-IsWithinLimit now key (some t) s e h =
    omega (arith, length-assign_present key now s.initiated_flows t e, h)

return_of_key-IsWithinLimit :
    (now : ℕ) (b : List ℕ) (o : Option FlowKey) (s : Tun)
    → IsWithinLimit s
    → IsWithinLimit (return_of_key now b o s).0
unfolding return_of_key
return_of_key-IsWithinLimit now b none s h = h
return_of_key-IsWithinLimit now b (some key) s h =
    refresh-IsWithinLimit now (reversed key) _ s refl h

is_return_by_flow-IsWithinLimit :
    (e : Endian) (now : ℕ) (b : List ℕ) (s : Tun)
    → IsWithinLimit s
    → IsWithinLimit (is_return_by_flow e now b s).0
unfolding is_return_by_flow
is_return_by_flow-IsWithinLimit e now b s h = elim (Bool-cases (ltb (length b) (header_size * 2))) [
  | inl short ↦ rw short h
  | inr long ↦
      rw long (return_of_key-IsWithinLimit now b (parse_inner_l4 e (drop header_size b)) s h)
]

route_out-same : (b : List ℕ) (s : Tun) → (route_out b s).0 ≡ s
unfolding route_out
route_out-same b s = elim (Bool-cases (ip_eq (ip_at daddr_at b) s.address)) [
  | inl own ↦ rw own refl
  | inr other ↦ rw other refl
]

write_inner-same : (b : List ℕ) (s : Tun) → (write_inner b s).0 ≡ s
unfolding write_inner
write_inner-same b s = elim (Bool-cases (is_ipip b)) [
  | inl tunnelled ↦ rw tunnelled refl
  | inr plain ↦ rw plain refl
]

decide-same : (userspace : Bool) (b : List ℕ) (r : Tun × Bool) → (decide userspace b r).0 ≡ r.0
unfolding decide
decide-same userspace b (s, returns) = elim (Bool-cases (not returns && userspace)) [
  | inl new ↦ rw new refl
  | inr old ↦ rw old (write_inner-same b s)
]

limit_if :
    (b : Bool) (s t : Tun) → IsWithinLimit s → IsWithinLimit t → IsWithinLimit (if b then s else t)
limit_if true s t h k = h
limit_if false s t h k = k

limit_either :
    (b : Bool) (r q : Tun × List Output)
    → IsWithinLimit r.0
    → IsWithinLimit q.0
    → IsWithinLimit (if◌then◌else◌ {A = Tun × List Output} b r q).0
limit_either true r q h k = h
limit_either false r q h k = k

handle_tun_device-IsWithinLimit :
    (e : Endian) (userspace : Bool) (now : ℕ) (b : List ℕ) (s : Tun)
    → IsWithinLimit s
    → IsWithinLimit (handle_tun_device e userspace now b s).0
unfolding handle_tun_device record_initiated_flow
handle_tun_device-IsWithinLimit e userspace now b s h =
    limit_either (ltb (length b) header_size) (s, []) _ h
      (limit_either (not (is_ipv4 b)) (s, []) _ h
        (limit_either (ip_empty (next_hop b s)) (route_out b s) _
          (subst IsWithinLimit (sym (route_out-same b s)) h)
          (subst IsWithinLimit
            (sym (
              route_out-same (outer_header s.address (next_hop b s) ++ b)
                (if userspace then record_initiated_flow e now b s else s)))
            (limit_if userspace (record_initiated_flow e now b s) s
              (record_key-IsWithinLimit now (parse_inner_l4 e b) s h) h))))

handle_packet-IsWithinLimit :
    (e : Endian) (userspace : Bool) (now : ℕ) (b : List ℕ) (s : Tun)
    → IsWithinLimit s
    → IsWithinLimit (handle_packet e userspace now b s).0
unfolding handle_packet
handle_packet-IsWithinLimit e userspace now b s h =
    limit_either (ltb (length b) header_size) (s, []) _ h
      (limit_either (is_ipip b) (decide userspace b (is_return_by_flow e now b s)) _
        (subst IsWithinLimit (sym (decide-same userspace b (is_return_by_flow e now b s)))
          (is_return_by_flow-IsWithinLimit e now b s h))
        (subst IsWithinLimit (sym (write_inner-same b s)) h))

-- Packets from the device and packets from other clients, of any content and at any time, leave the
-- table of flows within its limit of 4096 entries when it was.
pub flow_table_stays_within_limit :
    (e : Endian) (userspace : Bool) (now : ℕ) (b : List ℕ) (s : Tun)
    → length s.initiated_flows ≤ 4096
    → (length (handle_tun_device e userspace now b s).0.initiated_flows ≤ 4096)
      × (length (handle_packet e userspace now b s).0.initiated_flows ≤ 4096)
flow_table_stays_within_limit e userspace now b s h = (
  handle_tun_device-IsWithinLimit e userspace now b s h,
  handle_packet-IsWithinLimit e userspace now b s h,
)
