-- ===== src/Tun/Flows.antt =====
-- The table of flows that this gateway began: FlowKey, parseInnerL4, recordInitiatedFlow,
-- isReturnTraffic, isReturnByFlow and reapIdleFlows of candy/src/tun/tun.cc. Times are nanoseconds
-- of the steady clock, which one call reads once.
use candy.Base.{
  ℕ, zero, suc, ◌+◌, ◌*◌, ◌/◌, ◌%◌, ◌≡◌, ◌↔◌, Bool, true, false, not, ◌&&◌, List, [], ◌∷◌, Option,
  none, some, if◌then◌else◌, ltb, ◌==◌, length, drop, get_or, arith, Eq,
}
use candy.Base.Buffer.{slice}
use candy.Base.Map.{Map, lookup, assign}
use candy.Net.Order.{Endian, load, ntoh}
use candy.Net.Ip4.{Ip4, ip_and, ip_eq, to_uint32}
use candy.Message.Layout.{
  ip_at, header_size, version_ihl_at, frag_off_at, protocol_at, saddr_at, daddr_at,
}

pub record FlowKey : Type 0 where
  pub proto : ℕ
  pub src_ip : ℕ
  pub src_port : ℕ
  pub dst_ip : ℕ
  pub dst_port : ℕ

abbrev pub flow_eq : FlowKey → FlowKey → Bool
flow_eq a b =
    a.proto == b.proto
    && a.src_ip == b.src_ip
    && a.src_port == b.src_port
    && a.dst_ip == b.dst_ip
    && a.dst_port == b.dst_port

pub flow_eq_iff : (a b : FlowKey) → (flow_eq a b ≡ true) ↔ (a ≡ b)
flow_eq_iff a b = ground arith

instance abbrev pub flow_key_eq : Eq FlowKey
flow_key_eq = record { beq = flow_eq; beq_iff = flow_eq_iff }

pub record SysRouteEntry : Type 0 where
  pub dst : Ip4
  pub mask : Ip4
  pub nexthop : Ip4

pub record Tun : Type 0 where
  pub address : Ip4
  pub sys_rt_table : List SysRouteEntry
  pub initiated_flows : Map FlowKey ℕ
  pub last_flow_reap : ℕ

abbrev pub flow_limit : ℕ
flow_limit = 4096

-- 10 and 300 seconds
abbrev pub reap_interval : ℕ
reap_interval = 10 * 1000000000

abbrev pub idle_limit : ℕ
idle_limit = 300 * 1000000000

-- The key of a packet whose header says `ihl` bytes.
abbrev pub key_at : Endian → ℕ → List ℕ → FlowKey
key_at e ihl b = record {
  proto = get_or b protocol_at 0;
  src_ip = to_uint32 e (ip_at saddr_at b);
  src_port = load e (slice ihl 2 b);
  dst_ip = to_uint32 e (ip_at daddr_at b);
  dst_port = load e (slice (ihl + 2) 2 b);
}

abbrev pub ihl_of : List ℕ → ℕ
ihl_of b = get_or b version_ihl_at 0 % 16 * 4

-- Every test is made before the bytes that it guards are read.
unfoldable pub parse_inner_l4 : Endian → List ℕ → Option FlowKey
parse_inner_l4 e b =
    if ltb (length b) header_size
    then none
    else if not (get_or b version_ihl_at 0 / 16 == 4)
    then none
    else if not (get_or b protocol_at 0 == 6) && not (get_or b protocol_at 0 == 17)
    then none
    else if not (ntoh e 2 (load e (slice frag_off_at 2 b)) % 8192 == 0)
    then none
    else if ltb (ihl_of b) header_size
    then none
    else if ltb (length b) (ihl_of b + 4)
    then none
    else some (key_at e (ihl_of b) b)

-- The flows that have not been idle for too long.
unfoldable pub fresh : ℕ → Map FlowKey ℕ → Map FlowKey ℕ
fresh now [] = []
fresh now ((k, t) ∷ m) = if ltb (t + idle_limit) now then fresh now m else (k, t) ∷ fresh now m

-- The search for the oldest entry, and its removal: the first with the least time.
unfoldable pub oldest_time : ℕ → Map FlowKey ℕ → ℕ
oldest_time t [] = t
oldest_time t ((k, u) ∷ m) = oldest_time (if ltb u t then u else t) m

unfoldable pub remove_time : ℕ → Map FlowKey ℕ → Map FlowKey ℕ
remove_time t [] = []
remove_time t ((k, u) ∷ m) = if u == t then m else (k, u) ∷ remove_time t m

unfoldable pub remove_oldest : Map FlowKey ℕ → Map FlowKey ℕ
remove_oldest [] = []
remove_oldest ((k, t) ∷ m) = remove_time (oldest_time t m) ((k, t) ∷ m)

-- The while loop; each round removes an entry.
unfoldable pub evict : ℕ → Map FlowKey ℕ → Map FlowKey ℕ
evict zero m = m
evict (suc fuel) m =
    let rest = evict fuel (remove_oldest m) in if ltb flow_limit (length m) then rest else m

unfoldable pub evict_all : Map FlowKey ℕ → Map FlowKey ℕ
evict_all m = evict (length m) m

unfoldable pub reap_idle_flows : ℕ → Tun → Tun
reap_idle_flows now s =
    if not (ltb flow_limit (length s.initiated_flows)) && ltb now (s.last_flow_reap + reap_interval)
    then s
    else record s {
      last_flow_reap = now;
      initiated_flows = evict_all (fresh now s.initiated_flows);
    }

unfoldable pub record_key : ℕ → Option FlowKey → Tun → Tun
record_key now none s = s
record_key now (some key) s =
    reap_idle_flows now (record s { initiated_flows = assign key now s.initiated_flows })

unfoldable pub record_initiated_flow : Endian → ℕ → List ℕ → Tun → Tun
record_initiated_flow e now b s = record_key now (parse_inner_l4 e b) s

-- The first entry of the table that matches.
unfoldable pub match_route : Ip4 → List SysRouteEntry → Option SysRouteEntry
match_route ip [] = none
match_route ip (rt ∷ rts) = if ip_eq (ip_and ip rt.mask) rt.dst then some rt else match_route ip rts

abbrev pub is_some : {A : Type 0} → Option A → Bool
is_some none = false
is_some (some a) = true

unfoldable pub is_return_traffic : List ℕ → Tun → Bool
is_return_traffic b s =
    if ltb (length b) (header_size * 2)
    then false
    else is_some (match_route (ip_at (header_size + saddr_at) b) s.sys_rt_table)

abbrev pub reversed : FlowKey → FlowKey
reversed k = record {
  proto = k.proto;
  src_ip = k.dst_ip;
  src_port = k.dst_port;
  dst_ip = k.src_ip;
  dst_port = k.src_port;
}

unfoldable pub refresh : ℕ → FlowKey → Option ℕ → Tun → Tun × Bool
refresh now key none s = (s, false)
refresh now key (some t) s = (record s { initiated_flows = assign key now s.initiated_flows }, true)

unfoldable pub return_of_key : ℕ → List ℕ → Option FlowKey → Tun → Tun × Bool
return_of_key now b none s = (s, is_return_traffic b s)
return_of_key now b (some key) s =
    refresh now (reversed key) (lookup (reversed key) s.initiated_flows) s

-- The packet with both headers; the answer, and the table with a new time.
unfoldable pub is_return_by_flow : Endian → ℕ → List ℕ → Tun → Tun × Bool
is_return_by_flow e now b s =
    if ltb (length b) (header_size * 2)
    then (s, false)
    else return_of_key now b (parse_inner_l4 e (drop header_size b)) s
