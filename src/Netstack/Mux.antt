-- ===== src/Netstack/Mux.antt =====
-- class UdpMux of candy/src/netstack/udpmux.h and udpmux.cc: many inner sources behind one port.
-- Times are seconds.
use candy.Base.{
  ℕ, ◌+◌, ◌*◌, ◌%◌, ◌^◌, bit_or, Bool, true, false, List, [], ◌∷◌, Option, none, some,
  if◌then◌else◌, ◌==◌, ltb, nat_eq,
}
use candy.Base.Buffer.{bytes_eq, same}
use candy.Base.Map.{Map, lookup, assign, erase}
use candy.Netstack.Stun.{StunClass, request, success_resp, error_resp, StunInfo, stun_parse}

pub record OwnerEntry : Type 0 where
  pub owner : List ℕ
  pub last_active : ℕ

pub record TxnEntry : Type 0 where
  pub inner_src : List ℕ
  pub created_at : ℕ

-- The tables, and the counters of what was dropped.
pub record UdpMux : Type 0 where
  pub endpoint_owner : Map ℕ OwnerEntry
  pub stun_txn : Map (List ℕ) TxnEntry
  pub owner_endpoints : Map (List ℕ) (List ℕ)
  pub drop_collision : ℕ
  pub drop_txid_miss : ℕ
  pub drop_endpoint_miss : ℕ

-- What is sent on the one socket, and what is handed to an inner source.
pub data MuxOut : Type 0 where
  sends : ℕ → ℕ → List ℕ → MuxOut
  injects : List ℕ → ℕ → ℕ → List ℕ → MuxOut

abbrev pub Result : Type 0
Result = UdpMux × List MuxOut

abbrev pub endpoint_idle : ℕ
endpoint_idle = 30

abbrev pub stun_txn_idle : ℕ
stun_txn_idle = 40

unfoldable pub endpoint_key : ℕ → ℕ → ℕ
endpoint_key ip port = bit_or (ip * 2 ^ 16) port

abbrev pub counted : ℕ → ℕ
counted n = (n + 1) % 2 ^ 64

-- A set of endpoints: insert and erase.
unfoldable pub insert : ℕ → List ℕ → List ℕ
insert k [] = k ∷ []
insert k (j ∷ ks) = if j == k then j ∷ ks else j ∷ insert k ks

unfoldable pub remove : ℕ → List ℕ → List ℕ
remove k [] = []
remove k (j ∷ ks) = if j == k then remove k ks else j ∷ remove k ks

abbrev pub or_empty : Option (List ℕ) → List ℕ
or_empty none = []
or_empty (some ks) = ks

-- The endpoints of a source, by the index.
unfoldable pub endpoints_of : List ℕ → UdpMux → List ℕ
endpoints_of src m = or_empty (lookup src m.owner_endpoints)

-- it->second.lastActive = now
unfoldable pub keep_alive : ℕ → ℕ → OwnerEntry → UdpMux → UdpMux
keep_alive now k e m = record m {
  endpoint_owner = assign k (record e { last_active = now }) m.endpoint_owner;
}

-- A request is entered under its transaction.
unfoldable pub note_request : ℕ → List ℕ → StunInfo → StunClass → UdpMux → UdpMux
note_request now src info request m = record m {
  stun_txn = assign info.txid (record { inner_src = src; created_at = now }) m.stun_txn;
}
note_request now src info _ m = m

unfoldable pub refresh_own : ℕ → List ℕ → ℕ → Option OwnerEntry → UdpMux → UdpMux
refresh_own now src k none m = m
refresh_own now src k (some e) m = if same e.owner src then keep_alive now k e m else m

-- The first source that sends to an endpoint owns it.
unfoldable pub claim : ℕ → List ℕ → ℕ → UdpMux → UdpMux
claim now src k m = record m {
  endpoint_owner = assign k (record { owner = src; last_active = now }) m.endpoint_owner;
  owner_endpoints = assign src (insert k (endpoints_of src m)) m.owner_endpoints;
}

-- Step 2 for data: the state, and whether the packet is sent.
unfoldable pub claim_or_keep : ℕ → List ℕ → ℕ → Option OwnerEntry → UdpMux → UdpMux × Bool
claim_or_keep now src k none m = (claim now src k m, true)
claim_or_keep now src k (some e) m =
    if same e.owner src
    then (keep_alive now k e m, true)
    else (record m { drop_collision = counted m.drop_collision }, false)

-- Steps 1 and 2 of sendFromSource.
unfoldable pub admit : ℕ → List ℕ → ℕ → Option StunInfo → UdpMux → UdpMux × Bool
admit now src k (some info) m =
    let m1 = note_request now src info info.klass m in
    (refresh_own now src k (lookup k m1.endpoint_owner) m1, true)
admit now src k none m = claim_or_keep now src k (lookup k m.endpoint_owner) m

unfoldable pub send_from_source : ℕ → List ℕ → ℕ → ℕ → List ℕ → UdpMux → Result
send_from_source now src ip port b m =
    let (m', goes) = admit now src (endpoint_key ip port) (stun_parse b) m in
    (m', (if goes then sends ip port b ∷ [] else []))

-- A message of the other side for the owner of its endpoint.
unfoldable pub to_owner : ℕ → ℕ → ℕ → List ℕ → Option OwnerEntry → UdpMux → Result
to_owner now ip port b none m = (record m { drop_endpoint_miss = counted m.drop_endpoint_miss }, [])
to_owner now ip port b (some e) m =
    (keep_alive now (endpoint_key ip port) e m, injects e.owner ip port b ∷ [])

-- A response for the source of its transaction, which is then forgotten.
unfoldable pub to_requester : ℕ → ℕ → List ℕ → List ℕ → Option TxnEntry → UdpMux → Result
to_requester ip port b txid none m = (record m { drop_txid_miss = counted m.drop_txid_miss }, [])
to_requester ip port b txid (some t) m =
    (record m { stun_txn = erase txid m.stun_txn }, injects t.inner_src ip port b ∷ [])

abbrev pub is_response : StunClass → Bool
is_response success_resp = true
is_response error_resp = true
is_response _ = false

unfoldable pub demux_parsed : ℕ → ℕ → ℕ → List ℕ → Option StunInfo → UdpMux → Result
demux_parsed now ip port b none m =
    to_owner now ip port b (lookup (endpoint_key ip port) m.endpoint_owner) m
demux_parsed now ip port b (some info) m =
    if is_response info.klass
    then to_requester ip port b info.txid (lookup info.txid m.stun_txn) m
    else to_owner now ip port b (lookup (endpoint_key ip port) m.endpoint_owner) m

unfoldable pub demux : ℕ → ℕ → ℕ → List ℕ → UdpMux → Result
demux now ip port b m = demux_parsed now ip port b (stun_parse b) m

-- An entry goes only if the source still owns it.
unfoldable pub release : List ℕ → ℕ → Option OwnerEntry → Map ℕ OwnerEntry → Map ℕ OwnerEntry
release src k none m = m
release src k (some e) m = if same e.owner src then erase k m else m

unfoldable pub release_all : List ℕ → List ℕ → Map ℕ OwnerEntry → Map ℕ OwnerEntry
release_all src [] m = m
release_all src (k ∷ ks) m = release_all src ks (release src k (lookup k m) m)

unfoldable pub source_gone : List ℕ → Option (List ℕ) → UdpMux → UdpMux
source_gone src none m = m
source_gone src (some ks) m = record m {
  endpoint_owner = release_all src ks m.endpoint_owner;
  owner_endpoints = erase src m.owner_endpoints;
}

unfoldable pub on_source_gone : List ℕ → UdpMux → UdpMux
on_source_gone src m = source_gone src (lookup src m.owner_endpoints) m

-- The endpoint is taken out of the index, and its source too when it has no other.
abbrev pub left_with : List ℕ → List ℕ → Map (List ℕ) (List ℕ) → Map (List ℕ) (List ℕ)
left_with src [] ix = erase src ix
left_with src (k ∷ ks) ix = assign src (k ∷ ks) ix

unfoldable pub unlink : List ℕ → ℕ → Option (List ℕ) → Map (List ℕ) (List ℕ) → Map (List ℕ) (List ℕ)
unlink src k none ix = ix
unlink src k (some ks) ix = left_with src (remove k ks) ix

-- The first loop of reap.
unfoldable pub reap_endpoints :
    ℕ → Map ℕ OwnerEntry → Map (List ℕ) (List ℕ) → Map ℕ OwnerEntry × Map (List ℕ) (List ℕ)
reap_endpoints now [] ix = ([], ix)
reap_endpoints now ((k, e) ∷ m) ix =
    let idle = reap_endpoints now m (unlink e.owner k (lookup e.owner ix) ix) in
    let busy = reap_endpoints now m ix in
    if ltb (e.last_active + endpoint_idle) now then idle else ((k, e) ∷ busy.0, busy.1)

-- The second loop of reap.
unfoldable pub reap_txns : ℕ → Map (List ℕ) TxnEntry → Map (List ℕ) TxnEntry
reap_txns now [] = []
reap_txns now ((txid, t) ∷ m) =
    let rest = reap_txns now m in
    if ltb (t.created_at + stun_txn_idle) now then rest else (txid, t) ∷ rest

unfoldable pub reap : ℕ → UdpMux → UdpMux
reap now m =
    let (kept, ix) = reap_endpoints now m.endpoint_owner m.owner_endpoints in
    record m { endpoint_owner = kept; owner_endpoints = ix; stun_txn = reap_txns now m.stun_txn }

-- The tables at the end of the stack.
unfoldable pub shutdown : UdpMux → UdpMux
shutdown m = record m { endpoint_owner = []; stun_txn = []; owner_endpoints = [] }
