-- ===== src/Peer/State.antt =====
-- The state of a Peer, updateState and resetState.
use candy.Base.{ℕ, ◌*◌, ◌+◌, min, Bool, true, false, List, Option, none, ltb, if◌then◌else◌}
use candy.Base.Int.{ℤ, pos}
use candy.Net.Ip4.{Ip4}
use candy.Net.Order.{Endian}

pub data PeerState : Type 0 where
  init preparing synchronizing connecting connected waiting failed : PeerState

-- Poco::Net::SocketAddress of an IPv4 address.
pub record SocketAddress : Type 0 where
  pub host : Ip4
  pub port : ℕ

-- RTT_LIMIT, RETRY_MIN and RETRY_MAX
abbrev pub rtt_limit : ℤ
rtt_limit = pos 2147483647

abbrev pub retry_min : ℕ
retry_min = 30

abbrev pub retry_max : ℕ
retry_max = 3600

-- Times are seconds; the randomly chosen first tick count is part of the first state.
pub record Peer : Type 0 where
  pub rtt : ℤ
  pub tick_count : ℕ
  pub state : PeerState
  pub ack : ℕ
  pub retry : ℕ
  pub last_active_time : ℕ
  pub wide : Option SocketAddress
  pub local : Option SocketAddress
  pub real : Option SocketAddress
  pub addr : Ip4
  pub key : List ℕ

-- What a peer sees of its manager and of the world during one call. `encrypt` is the AES-256-GCM
-- of OpenSSL with a key, which may fail; `is_local` is isLocalNetwork; `junk` is the port of a heartbeat,
-- which is not set when the message is encrypted.
pub record World : Type 0 where
  pub now : ℕ
  pub boot_time : ℕ
  pub endian : Endian
  pub tun_ip : Ip4
  pub stun_enabled : Bool
  pub relay_enabled : Bool
  pub local_p2p_disabled : Bool
  pub is_local : SocketAddress → Bool
  pub encrypt : List ℕ → List ℕ → Option (List ℕ)
  pub junk : List ℕ

-- What a call does outside the peer, in order.
pub data Effect : Type 0 where
  send_to : SocketAddress → List ℕ → Effect
  send_pub_info : Ip4 → Bool → Effect
  stun_needed : Effect
  drop_route : Ip4 → Effect

abbrev pub same_state : PeerState → PeerState → Bool
same_state PeerState.init PeerState.init = true
same_state PeerState.preparing PeerState.preparing = true
same_state PeerState.synchronizing PeerState.synchronizing = true
same_state PeerState.connecting PeerState.connecting = true
same_state PeerState.connected PeerState.connected = true
same_state PeerState.waiting PeerState.waiting = true
same_state PeerState.failed PeerState.failed = true
same_state _ _ = false

-- INIT, WAITING and FAILED
abbrev pub is_idle : PeerState → Bool
is_idle PeerState.init = true
is_idle PeerState.waiting = true
is_idle PeerState.failed = true
is_idle _ = false

unfoldable pub reset_state : Peer → Peer
reset_state p = record p { wide = none; local = none; real = none; ack = 0; rtt = rtt_limit }

-- The waiting time of the next state.
unfoldable pub next_retry : PeerState → PeerState → ℕ → ℕ
next_retry PeerState.waiting PeerState.init retry = min (retry * 2) retry_max
next_retry _ PeerState.init retry = retry_min
next_retry _ PeerState.failed retry = retry_min
next_retry _ _ retry = retry

unfoldable pub update_state : World → PeerState → Peer → Peer × Bool
unfolding reset_state next_retry
update_state w new p =
    let p1 = record p { last_active_time = w.now } in
    if same_state p.state new
    then (p1, false)
    else let p2 = (if is_idle new then reset_state p1 else p1) in
      (record p2 { retry = next_retry p.state new p.retry; state = new }, true)

-- now - lastActiveTime < duration
unfoldable pub active_within : World → ℕ → Peer → Bool
active_within w duration p = ltb w.now (p.last_active_time + duration)
