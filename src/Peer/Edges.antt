-- ===== src/Peer/Edges.antt =====
-- The state machine of a Peer: which state follows which.
use candy.Base.{
  List, [], ℕ, ◌≡◌, ◌⊎◌, refl, subst, sym, ap, ◌∙◌, Bool, true, false, not, ◌&&◌, Option, none,
  some, inl, inr, arith, Bool-cases, if◌then◌else◌, ◌==◌,
}
use candy.Net.Ip4.{Ip4}
use candy.Peer.State.{PeerState, SocketAddress, Peer, World, update_state}
use candy.Peer.Calls.{
  Call, tries, pub_info, stun_response, ticks, heartbeats, measures, step, try_connect,
  handle_pub_info, wide_known, handle_stun_response, tick_state, tick, heartbeat_known,
  handle_heartbeat, prefers, after_stun, is_preparing, ignores_heartbeat, wants_connection,
}
use candy.Peer.State.{Effect, active_within}
use candy.Peer.Invariant.{update_state-Updated}
use candy.Peer.Soundness.{chosen, acknowledged}

pub data Edge : PeerState → PeerState → Type 0 where
  starts : Edge PeerState.init PeerState.preparing
  restarts : Edge PeerState.failed PeerState.preparing
  is_asked : Edge PeerState.waiting PeerState.preparing
  gives_up : Edge PeerState.preparing PeerState.failed
  waits_for_address : Edge PeerState.preparing PeerState.synchronizing
  has_address : Edge PeerState.preparing PeerState.connecting
  gets_no_address : Edge PeerState.synchronizing PeerState.failed
  gets_address : Edge PeerState.synchronizing PeerState.connecting
  gets_no_answer : Edge PeerState.connecting PeerState.waiting
  waited : Edge PeerState.waiting PeerState.init
  is_lost : Edge PeerState.connected PeerState.init
  meets_early : Edge PeerState.preparing PeerState.connected
  meets : Edge PeerState.synchronizing PeerState.connected
  answers : Edge PeerState.connecting PeerState.connected

abbrev Moves : PeerState → Peer → Type 0
Moves s q = (q.state ≡ s) ⊎ Edge s q.state

moves :
    (w : World) (new : PeerState) (p : Peer) (s : PeerState)
    → Edge s new
    → Moves s (update_state w new p).0
moves w new p s e = inr (subst (λ t. Edge s t) (sym (update_state-Updated w new p).state_is) e)

remains : (w : World) (new : PeerState) (p : Peer) → Moves new (update_state w new p).0
remains w new p = inl (update_state-Updated w new p).state_is

either-Moves :
    (s : PeerState) (b : Bool) (r q : Peer × List Effect)
    → Moves s r.0
    → (b ≡ false → Moves s q.0)
    → Moves s (if◌then◌else◌ {A = Peer × List Effect} b r q).0
either-Moves s true r q v u = v
either-Moves s false r q v u = u refl

wants-Edge : (s : PeerState) (r : Bool) → wants_connection s r ≡ true → Edge s PeerState.preparing
wants-Edge PeerState.init r h = starts
wants-Edge PeerState.failed r h = restarts
wants-Edge PeerState.preparing r h = cc
wants-Edge PeerState.synchronizing r h = cc
wants-Edge PeerState.connecting r h = cc
wants-Edge PeerState.connected r h = cc
wants-Edge PeerState.waiting r h = cc

try_connect-Moves :
    (w : World) (r : Bool) (s : PeerState) (p : Peer) → p.state ≡ s → Moves s (try_connect w r p)
unfolding try_connect
try_connect-Moves w r s p e = elim (Bool-cases (wants_connection p.state r)) [
  | inl h ↦ rw h (
      moves w PeerState.preparing p s (wants-Edge s r (ap (λ z. wants_connection z r) (sym e) ∙ h)))
  | inr h ↦ rw h (inl e)
]

tick_state-Moves :
    (w : World) (st : PeerState) (p : Peer) → p.state ≡ st → Moves st (tick_state w st p).0
unfolding tick_state
tick_state-Moves w PeerState.init p e = inl e
tick_state-Moves w PeerState.preparing p e =
    either-Moves PeerState.preparing (w.stun_enabled && active_within w 10 p) (p, _) _ (inl e)
      (λ h. moves w PeerState.failed p PeerState.preparing gives_up)
tick_state-Moves w PeerState.synchronizing p e =
    either-Moves PeerState.synchronizing (active_within w 10 p) (p, _) _ (inl e)
      (λ h. moves w PeerState.failed p PeerState.synchronizing gets_no_address)
tick_state-Moves w PeerState.connecting p e =
    either-Moves PeerState.connecting (active_within w 10 p) (p, _) _ (inl e)
      (λ h. moves w PeerState.waiting p PeerState.connecting gets_no_answer)
tick_state-Moves w PeerState.connected p e =
    either-Moves PeerState.connected (active_within w 3 p) (p, _) _ (inl e)
      (λ h. moves w PeerState.init p PeerState.connected is_lost)
tick_state-Moves w PeerState.waiting p e =
    either-Moves PeerState.waiting (active_within w p.retry p) (p, _) _ (inl e)
      (λ h. moves w PeerState.init p PeerState.waiting waited)
tick_state-Moves w PeerState.failed p e = inl e

wide_known-Moves :
    (w : World) (s : PeerState) (p : Peer) → p.state ≡ s → Moves s (wide_known w s p).0
unfolding wide_known
wide_known-Moves w PeerState.connected p e = inl e
wide_known-Moves w PeerState.synchronizing p e =
    moves w PeerState.connecting p PeerState.synchronizing gets_address
wide_known-Moves w PeerState.connecting p e = inl e
wide_known-Moves w PeerState.init p e = moves w PeerState.preparing p PeerState.init starts
wide_known-Moves w PeerState.preparing p e = remains w PeerState.preparing p
wide_known-Moves w PeerState.waiting p e = moves w PeerState.preparing p PeerState.waiting is_asked
wide_known-Moves w PeerState.failed p e = moves w PeerState.preparing p PeerState.failed restarts

handle_pub_info-Moves :
    (w : World) (ip : Ip4) (port : ℕ) (is_local : Bool) (p : Peer)
    → Moves p.state (handle_pub_info w ip port is_local p).0
unfolding handle_pub_info
handle_pub_info-Moves w ip port true p = inl refl
handle_pub_info-Moves w ip port false p =
    wide_known-Moves w p.state (record p { wide = some (record { host = ip; port = port }) }) refl

after_stun-Moves :
    (w : World) (o : Option SocketAddress) (p : Peer)
    → Moves PeerState.preparing (update_state w (after_stun o) p).0
after_stun-Moves w none p = moves w PeerState.synchronizing p PeerState.preparing waits_for_address
after_stun-Moves w (some a) p = moves w PeerState.connecting p PeerState.preparing has_address

is_preparing_lem : (s : PeerState) → is_preparing s ≡ true → PeerState.preparing ≡ s
is_preparing_lem s h = ground arith

handle_stun_response-Moves :
    (w : World) (s : PeerState) (p : Peer) → p.state ≡ s → Moves s (handle_stun_response w p).0
unfolding handle_stun_response
handle_stun_response-Moves w s p e = elim (Bool-cases (is_preparing p.state)) [
  | inl h ↦ rw h (
      subst (λ z. Moves z (update_state w (after_stun p.wide) p).0) (is_preparing_lem p.state h ∙ e)
        (after_stun-Moves w p.wide p))
  | inr h ↦ rw h (inl e)
]

connects :
    (w : World) (s : PeerState) (p : Peer)
    → ignores_heartbeat s ≡ false
    → Moves s (update_state w PeerState.connected p).0
connects w PeerState.init p h = cc
connects w PeerState.preparing p h = moves w PeerState.connected p PeerState.preparing meets_early
connects w PeerState.synchronizing p h = moves w PeerState.connected p PeerState.synchronizing meets
connects w PeerState.connecting p h = moves w PeerState.connected p PeerState.connecting answers
connects w PeerState.connected p h = remains w PeerState.connected p
connects w PeerState.waiting p h = cc
connects w PeerState.failed p h = cc

chosen-state : (w : World) (a : SocketAddress) (p : Peer) → (chosen w a p).state ≡ p.state
chosen-state w a p = elim (Bool-cases (prefers w a p.real)) [
  | inl h ↦ rw h refl
  | inr h ↦ rw h refl
]

acknowledged-state : (p : Peer) → (acknowledged p).state ≡ p.state
acknowledged-state p = elim (Bool-cases (p.ack == 0)) [ inl h ↦ rw h refl | inr h ↦ rw h refl ]

heartbeat_known-Moves :
    (w : World) (a : SocketAddress) (heartbeat_ack : ℕ) (p : Peer)
    → ignores_heartbeat p.state ≡ false
    → Moves p.state (heartbeat_known w a heartbeat_ack p).0
unfolding heartbeat_known
heartbeat_known-Moves w a heartbeat_ack p h = elim (Bool-cases (heartbeat_ack == 0)) [
  | inl z ↦ rw z (inl (acknowledged-state (chosen w a p) ∙ chosen-state w a p))
  | inr z ↦ rw z (connects w p.state (acknowledged (chosen w a p)) h)
]

handle_heartbeat-Moves :
    (w : World) (a : SocketAddress) (heartbeat_ack : ℕ) (p : Peer)
    → Moves p.state (handle_heartbeat w a heartbeat_ack p).0
unfolding handle_heartbeat
handle_heartbeat-Moves w a heartbeat_ack p =
    either-Moves p.state (ignores_heartbeat p.state) (p, []) _ (inl refl)
      (λ h.
        either-Moves p.state (not (w.is_local a))
          (heartbeat_known w a heartbeat_ack (record p { wide = some a })) _
          (heartbeat_known-Moves w a heartbeat_ack (record p { wide = some a }) h)
          (λ k.
            either-Moves p.state (not w.local_p2p_disabled)
              (heartbeat_known w a heartbeat_ack (record p { local = some a })) (p, [])
              (heartbeat_known-Moves w a heartbeat_ack (record p { local = some a }) h)
              (λ z. inl refl)))

-- A call leaves the state of a peer as it is or follows one of the fourteen edges.
pub step-moves :
    (w : World) (c : Call) (p : Peer)
    → ((step w c p).state ≡ p.state) ⊎ Edge p.state (step w c p).state
unfolding step tick
step-moves w (tries r) p = try_connect-Moves w r p.state p refl
step-moves w (pub_info ip port l) p = handle_pub_info-Moves w ip port l p
step-moves w stun_response p = handle_stun_response-Moves w p.state p refl
step-moves w ticks p = tick_state-Moves w p.state p refl
step-moves w (heartbeats a k) p = handle_heartbeat-Moves w a k p
step-moves w (measures r) p = inl refl
