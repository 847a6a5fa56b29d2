-- ===== src/Manager/State.antt =====
-- The state of PeerManager, what its calls see of the world, and what they do.
use candy.Base.{ℕ, Bool, not, List, ◌++◌, Option, none}
use candy.Base.Int.{ℤ, pos, ltb_ℤ}
use candy.Base.Map.{Map}
use candy.Net.Order.{Endian, store, hton}
use candy.Net.Ip4.{Ip4, ip_empty, to_uint32}
use candy.Net.Address.{Address}
use candy.Net.Cidr.{IpText}
use candy.Core.Message.{Msg}
use candy.Peer.State.{Peer, PeerState, SocketAddress, rtt_limit, retry_min}
use candy.Peer.State
use candy.Manager.Table.{PeerRouteEntry, Announcement}

-- struct Stun, without the text that its address is read from.
pub record Stun : Type 0 where
  pub address : SocketAddress
  pub needed : Bool
  pub ip : Ip4
  pub port : ℕ

-- `drops` is p2pOnlyDropCount, which is only logged.
pub record Manager : Type 0 where
  pub password : List ℕ
  pub localhost : Ip4
  pub tun_addr : Address
  pub key : List ℕ
  pub stun : Stun
  pub local_p2p_disabled : Bool
  pub route_cost : ℤ
  pub discovery_interval : ℤ
  pub tick_tick : ℕ
  pub listen_port : ℕ
  pub drops : ℕ
  pub peers : Map Ip4 Peer
  pub rt_table : Map Ip4 PeerRouteEntry

-- `client_ip` is the address of the TUN and `p2p_only` the client's setting. `encrypt` and
-- `decrypt` are AES-256-GCM with a key; `takes` says whether the socket sends a message whole;
-- `interface_ip` is the address of the first network interface that fits, and `binds` whether the
-- socket can be bound. `first_tick` is the random tick count of a new peer, `stun_id` the twelve
-- random bytes of a request.
pub record World : Type 0 where
  pub sha256 : List ℕ → List ℕ
  pub text : IpText
  pub endian : Endian
  pub now : ℕ
  pub boot_time : ℕ
  pub client_ip : Ip4
  pub p2p_only : Bool
  pub is_local : SocketAddress → Bool
  pub encrypt : List ℕ → List ℕ → Option (List ℕ)
  pub decrypt : List ℕ → List ℕ → Option (List ℕ)
  pub takes : SocketAddress → List ℕ → Bool
  pub junk : List ℕ
  pub socket_port : ℕ
  pub interface_ip : Option Ip4
  pub binds : Bool
  pub first_tick : ℕ
  pub stun_id : List ℕ

-- A message to a peer that is encrypted first, one that is sent as it is, messages to the queues of
-- the other parts, and what sendRtMessage tells every connected peer.
pub data Sent : Type 0 where
  answer : Ip4 → List ℕ → Sent
  udp : SocketAddress → List ℕ → Sent
  to_ws : Msg → Sent
  to_tun : Msg → Sent
  to_peers : Msg → Sent
  announces : List Announcement → Sent

abbrev pub Result : Type 0
Result = Manager × List Sent

abbrev pub get_tun_ip : Manager → Ip4
get_tun_ip s = s.tun_addr.host

unfoldable pub client_relay_enabled : Manager → Bool
client_relay_enabled s = ltb_ℤ (pos 0) s.route_cost

-- Stun::enabled
unfoldable pub stun_enabled : Stun → Bool
stun_enabled stun = not (ip_empty stun.address.host)

-- What the calls of a peer see.
unfoldable pub peer_world : World → Manager → State.World
peer_world w s = record {
  now = w.now;
  boot_time = w.boot_time;
  endian = w.endian;
  tun_ip = get_tun_ip s;
  stun_enabled = stun_enabled s.stun;
  relay_enabled = client_relay_enabled s;
  local_p2p_disabled = s.local_p2p_disabled;
  is_local = w.is_local;
  encrypt = w.encrypt;
  junk = w.junk;
}

-- hton(uint32_t(ip)) as bytes.
unfoldable pub key_bytes : World → Ip4 → List ℕ
key_bytes w ip = store w.endian 4 (hton w.endian 4 (to_uint32 w.endian ip))

-- The key for what goes to an address.
unfoldable pub key_for : World → List ℕ → Ip4 → List ℕ
key_for w password ip = w.sha256 (password ++ key_bytes w ip)

-- Peer::Peer and the initial values of its fields.
unfoldable pub new_peer : World → Manager → Ip4 → Peer
new_peer w s ip = record {
  rtt = rtt_limit;
  tick_count = w.first_tick;
  state = PeerState.init;
  ack = 0;
  retry = retry_min;
  last_active_time = 0;
  wide = none;
  local = none;
  real = none;
  addr = ip;
  key = key_for w s.password ip;
}
