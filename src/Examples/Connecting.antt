-- ===== src/Examples/Connecting.antt =====
-- A peer at concrete inputs.
use candy.Base.{ℕ, ◌≡◌, ◌⊎◌, refl, [], ◌∷◌, none, some, true, false, arith}
use candy.Net.Order.{Endian}
use candy.Peer.State.{PeerState, SocketAddress, Peer, World, rtt_limit}
use candy.Peer.Calls.{heartbeats, step, tick}
use candy.Peer.Invariant.{IsSound}
use candy.Peer.Soundness.{step-IsSound}
use candy.Peer.Edges.{Edge, step-moves}
use candy.Peer.Timeout.{run_ticks, no_world, before, connecting_times_out}
use candy.Examples.Data.{gateway, laptop}

abbrev at_time : ℕ → World
at_time now = record {
  now = now;
  boot_time = 0;
  endian = Endian.little;
  tun_ip = gateway;
  stun_enabled = true;
  relay_enabled = true;
  local_p2p_disabled = false;
  is_local = λ a. false;
  encrypt = λ k b. some b;
  junk = 0 ∷ 0 ∷ [];
}

abbrev wide_address : SocketAddress
wide_address = record { host = laptop; port = 4000 }

abbrev connecting_peer : Peer
connecting_peer = record {
  rtt = rtt_limit;
  tick_count = 5;
  state = PeerState.connecting;
  ack = 0;
  retry = 30;
  last_active_time = 100;
  wide = some wide_address;
  local = none;
  real = none;
  addr = laptop;
  key = [];
}

connecting_peer-IsSound : IsSound connecting_peer
connecting_peer-IsSound = record {
  bounded = record { retry_low = omega arith; retry_high = omega arith; ack_le = omega arith };
  fits = record {
    forgotten = λ h. ground arith;
    has_real = λ h. ground arith;
    has_wide = λ h. ground arith;
  };
}

step-IsSound_example : IsSound (step (at_time 101) (heartbeats wide_address 1) connecting_peer)
step-IsSound_example =
    step-IsSound (at_time 101) (heartbeats wide_address 1) connecting_peer connecting_peer-IsSound

step-moves_example :
    ((step (at_time 101) (heartbeats wide_address 1) connecting_peer).state ≡ PeerState.connecting)
    ⊎ Edge PeerState.connecting
        (step (at_time 101) (heartbeats wide_address 1) connecting_peer).state
step-moves_example = step-moves (at_time 101) (heartbeats wide_address 1) connecting_peer

connecting_times_out_example :
    ((run_ticks (at_time 101 ∷ at_time 109 ∷ []) connecting_peer).state ≡ PeerState.connecting)
    × ((tick (at_time 110) (run_ticks (at_time 101 ∷ at_time 109 ∷ []) connecting_peer)).0.state
        ≡ PeerState.waiting)
connecting_times_out_example =
    connecting_times_out (at_time 101 ∷ at_time 109 ∷ []) (at_time 110) connecting_peer refl
      (before (omega arith) (before (omega arith) no_world)) (omega arith)
