-- ===== src/Examples/Managing.antt =====
-- The manager of the peers at concrete inputs.
use candy.Base.{
  Option, if◌then◌else◌, take, drop, length, ℕ, ◌≡◌, refl, List, [], ◌∷◌, ◌++◌, none, some, true,
  false, arith, replicate,
}
use candy.Base.Int.{pos}
use candy.Base.Map.{lookup}
use candy.Base.Buffer.{same}
use candy.Net.Order.{Endian}
use candy.Net.Ip4.{Ip4, any, ip_empty, ip4_eq}
use candy.Core.Message.{try_p2p}
use candy.Peer.State.{Peer, PeerState, SocketAddress}
use candy.Server.Serve.{binary, serve}
use candy.Server.Registry.{Refined, registry, serve_refines_registry}
use candy.Manager.State.{World, Manager, Sent, key_for, udp}
use candy.Manager.Queue.{handle_packet, handle_try_p2p, handle_peer_queue, tick}
use candy.Manager.Send.{forward_create, resolve_peer_target, target_of}
use candy.Manager.Stun.{handle_stun_response, tell_peers}
use candy.Manager.Mapped.{response, stun_address_is_learnt}
use candy.Manager.Calls.{ticks, takes, run_call}
use candy.Manager.Soundness.{HasSoundPeers}
use candy.Manager.Steps.{Runs, here, runs-HasSoundPeers}
use candy.Manager.Packets.{Link, Client, packet_over_peer}
use candy.Manager.OnlyPeers.{AllToPeers, packet_avoids_server}
use candy.Examples.Data.{gateway, laptop, env, text}
use candy.Examples.Serving.{start, login}

serve_refines_registry_example :
    Refined env [] 0
      (binary 0 login)
      (registry start)
      (registry (serve env 0 (binary 0 login) start))
serve_refines_registry_example = serve_refines_registry env 0 start (binary 0 login)

-- A cipher that puts the key in front of the text and checks that it is there.
abbrev sealed : List ℕ → List ℕ → Option (List ℕ)
sealed k b = some (k ++ b)

abbrev opened : List ℕ → List ℕ → Option (List ℕ)
opened k c = if same (take (length k) c) k then some (drop (length k) c) else none

abbrev world : World
world = record {
  sha256 = λ b. b;
  text = text;
  endian = Endian.little;
  now = 100;
  boot_time = 100;
  client_ip = laptop;
  p2p_only = true;
  is_local = λ a. false;
  encrypt = sealed;
  decrypt = opened;
  takes = λ a b. true;
  junk = 0 ∷ 0 ∷ [];
  socket_port = 4000;
  interface_ip = none;
  binds = true;
  first_tick = 0;
  stun_id = [];
}

abbrev nobody : SocketAddress
nobody = record { host = any; port = 0 }

abbrev remote : SocketAddress
remote = record { host = gateway; port = 5000 }

abbrev manager : Ip4 → List (Ip4 × Peer) → Manager
manager ip peers = record {
  password = [];
  localhost = any;
  tun_addr = record { host = ip; mask = any };
  key = key_for world [] ip;
  stun = record { address = nobody; needed = false; ip = any; port = 0 };
  local_p2p_disabled = false;
  route_cost = pos 0;
  discovery_interval = pos 0;
  tick_tick = 0;
  listen_port = 0;
  drops = 0;
  peers = peers;
  rt_table = [];
}

abbrev alone : Manager
alone = manager laptop []

alone-HasSoundPeers : HasSoundPeers alone
alone-HasSoundPeers = record { every = tt }

-- A message that asks for a connection to the gateway, then a tick.
abbrev asked : Manager
asked = handle_try_p2p world (240 ∷ 216 ∷ 250 ∷ 49 ∷ []) alone

asked_then_ticked : Runs alone (tick world asked).0
unfolding run_call handle_peer_queue
asked_then_ticked =
    Runs.next world ticks (Runs.next world (takes (try_p2p (240 ∷ 216 ∷ 250 ∷ 49 ∷ []))) here refl)
      refl

runs-HasSoundPeers_example : HasSoundPeers (tick world asked).0
runs-HasSoundPeers_example = runs-HasSoundPeers asked_then_ticked alone-HasSoundPeers

abbrev neighbour : Ip4 → Peer
neighbour ip = record {
  rtt = pos 5;
  tick_count = 1;
  state = PeerState.connected;
  ack = 1;
  retry = 30;
  last_active_time = 100;
  wide = none;
  local = none;
  real = some remote;
  addr = ip;
  key = key_for world [] ip;
}

-- A packet for the gateway.
abbrev parcel : List ℕ
parcel = replicate 16 0 ++ 192 ∷ 168 ∷ 202 ∷ 1 ∷ []

abbrev router : Ip4
router = record { raw0 = 192; raw1 = 168; raw2 = 202; raw3 = 9 }

-- A laptop with a route over the router, the router, and the gateway.
abbrev connected : Manager
connected = record (manager laptop ((router, neighbour router) ∷ [])) {
  rt_table = (gateway, record { dst = gateway; next = router; rtt = pos 5 }) ∷ [];
}

abbrev at : Manager → Client
at s = record { world = world; manager = s; source = remote }

abbrev relay : Manager
relay = manager router ((gateway, neighbour gateway) ∷ [])

abbrev receiver : Manager
receiver = manager gateway []

linked : (ip : Ip4) (s : Manager) → lookup ip s.peers ≡ some (neighbour ip) → Link world s ip parcel
linked ip s held = record {
  peer = neighbour ip;
  address = remote;
  ciphertext = key_for world [] ip ++ forward_create parcel;
  held = held;
  connected = refl;
  real_is = refl;
  encrypts = refl;
  takes = refl;
}

-- The datagram goes to the router.
abbrev parcel_datagram : Sent
parcel_datagram = udp remote (key_for world [] router ++ forward_create parcel)

parcel_sent : handle_packet world parcel connected ≡ some (connected, parcel_datagram ∷ [])
unfolding lookup resolve_peer_target target_of linked
parcel_sent = packet_over_peer world connected parcel (omega arith) (linked router connected refl)

packet_avoids_server_example : AllToPeers world connected parcel (parcel_datagram ∷ [])
packet_avoids_server_example =
    packet_avoids_server world connected refl parcel connected (parcel_datagram ∷ []) parcel_sent

stun_address_is_learnt_example :
    handle_stun_response world (response (λ i. i) remote) connected
    ≡ some (
        tell_peers world connected.peers
          (record connected { stun = record (connected.stun) { ip = gateway; port = 5000 } }))
unfolding ip_empty
stun_address_is_learnt_example =
    stun_address_is_learnt world connected (λ i. i) remote
      (record {
        byte0 = omega arith;
        byte1 = omega arith;
        byte2 = omega arith;
        byte3 = omega arith;
      })
      (omega arith) refl refl
