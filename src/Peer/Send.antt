-- ===== src/Peer/Send.antt =====
-- The messages that a Peer sends: send, sendEncrypted, sendHeartbeatMessage, sendDelayMessage.
use candy.Base.{ℕ, Bool, true, false, List, [], ◌∷◌, ◌++◌, Option, none, some, if◌then◌else◌}
use candy.Net.Ip4.{raw, any}
use candy.Net.Order.{store, hton}
use candy.Peer.State.{PeerState, SocketAddress, Peer, World, Effect, send_to}

-- PeerMsgKind
abbrev pub heartbeat_kind : ℕ
heartbeat_kind = 0

abbrev pub delay_kind : ℕ
delay_kind = 2

-- A message to an address, if there is one.
abbrev pub send_maybe : Option SocketAddress → List ℕ → List Effect
send_maybe none b = []
send_maybe (some a) b = send_to a b ∷ []

unfoldable pub send_encrypted : World → List ℕ → Peer → List Effect
send_encrypted w plaintext p = elim (w.encrypt p.key plaintext) [
  | none ↦ []
  | some b ↦ send_maybe p.real b
]

-- PeerMsg::Heartbeat: kind, tunip, ip, port, ack. The address and the port of the receiver are
-- written after the encryption, so what is sent has neither.
unfoldable pub heartbeat : World → Peer → List ℕ
heartbeat w p = heartbeat_kind ∷ (raw w.tun_ip ++ (raw any ++ (w.junk ++ p.ack ∷ [])))

abbrev is_early : PeerState → Bool
is_early PeerState.preparing = true
is_early PeerState.synchronizing = true
is_early PeerState.connecting = true
is_early _ = false

abbrev is_connected_state : PeerState → Bool
is_connected_state PeerState.connected = true
is_connected_state _ = false

abbrev is_connecting_state : PeerState → Bool
is_connecting_state PeerState.connecting = true
is_connecting_state _ = false

-- Which addresses a heartbeat goes to, in each state.
unfoldable pub heartbeat_targets : Peer → List ℕ → List Effect
heartbeat_targets p b =
    (if is_connected_state p.state then send_maybe p.real b else [])
    ++ ((if is_connecting_state p.state then send_maybe p.wide b else [])
        ++ (if is_early p.state then send_maybe p.local b else []))

unfoldable pub send_heartbeat : World → Peer → List Effect
send_heartbeat w p = elim (w.encrypt p.key (heartbeat w p)) [
  | none ↦ []
  | some b ↦ heartbeat_targets p b
]

-- PeerMsg::Delay: type, src, dst, timestamp.
unfoldable pub delay_message : World → Peer → List ℕ
delay_message w p =
    delay_kind ∷ (raw w.tun_ip ++ (raw p.addr ++ store w.endian 8 (hton w.endian 8 w.boot_time)))

unfoldable pub send_delay : World → Peer → List Effect
send_delay w p = send_encrypted w (delay_message w p) p
