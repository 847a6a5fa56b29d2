-- ===== src/Peer/Timeout.antt =====
-- The timeouts of a Peer: ticks alone.
use candy.Base.{ℕ, ◌+◌, ◌≤◌, ◌<◌, ◌≡◌, refl, ap, ◌∙◌, true, false, List, [], ◌∷◌, arith}
use candy.Peer.State.{PeerState, Peer, World, update_state, active_within}
use candy.Peer.Calls.{tick, tick_state}
use candy.Peer.Invariant.{update_state-Updated}

-- One tick in each of some worlds, in order.
pub run_ticks : List World → Peer → Peer
run_ticks [] p = p
run_ticks (w ∷ ws) p = run_ticks ws (tick w p).0

-- Every world is before the time.
pub data Before (t : ℕ) : List World → Type 0 where
  no_world : Before t []
  before : {w : World} {ws : List World} → w.now < t → Before t ws → Before t (w ∷ ws)

-- A peer that waits for an answer since `t`.
record IsWaitingSince (s : PeerState) (t : ℕ) (p : Peer) : Type 0 where
  in_state : p.state ≡ s
  since : p.last_active_time ≡ t

tick_state-early :
    (w : World) (s : PeerState) (p : Peer)
    → s ≡ PeerState.connecting
    → active_within w 10 p ≡ true
    → (tick_state w s p).0 ≡ p
unfolding tick_state
tick_state-early w s p e h = rw (e, h) refl

tick_state-late :
    (w : World) (s : PeerState) (p : Peer)
    → s ≡ PeerState.connecting
    → active_within w 10 p ≡ false
    → (tick_state w s p).0 ≡ (update_state w PeerState.waiting p).0
unfolding tick_state
tick_state-late w s p e h = rw (e, h) refl

active :
    (w : World) (t : ℕ) (p : Peer)
    → IsWaitingSince PeerState.connecting t p
    → w.now < t + 10
    → active_within w 10 p ≡ true
unfolding active_within
active w t p i early = ground (arith, i.since)

tick-early :
    (w : World) (t : ℕ) (p : Peer)
    → IsWaitingSince PeerState.connecting t p
    → w.now < t + 10
    → IsWaitingSince PeerState.connecting t (tick w p).0
unfolding tick
tick-early w t p i early =
    let e = tick_state-early w p.state p i.in_state (active w t p i early) in
    record {
      in_state = ap (λ q. q.state) e ∙ i.in_state;
      since = ap (λ q. q.last_active_time) e ∙ i.since;
    }

run_ticks-early :
    (t : ℕ) (ws : List World) (p : Peer)
    → IsWaitingSince PeerState.connecting t p
    → Before (t + 10) ws
    → IsWaitingSince PeerState.connecting t (run_ticks ws p)
unfolding run_ticks
run_ticks-early t [] p i no_world = i
run_ticks-early t (w ∷ ws) p i (before h b) =
    run_ticks-early t ws (tick w p).0 (tick-early w t p i h) b

inactive :
    (w : World) (t : ℕ) (p : Peer)
    → IsWaitingSince PeerState.connecting t p
    → t + 10 ≤ w.now
    → active_within w 10 p ≡ false
unfolding active_within
inactive w t p i late = ground (arith, i.since)

tick-late :
    (w : World) (t : ℕ) (p : Peer)
    → IsWaitingSince PeerState.connecting t p
    → t + 10 ≤ w.now
    → (tick w p).0.state ≡ PeerState.waiting
unfolding tick
tick-late w t p i late =
    ap (λ q. q.state) (tick_state-late w p.state p i.in_state (inactive w t p i late))
    ∙ (update_state-Updated w PeerState.waiting p).state_is

-- A peer that has been CONNECTING since its last activity, and that only ticks, is CONNECTING while
-- less than ten seconds have passed; the first tick after that makes it WAITING.
pub connecting_times_out :
    (ws : List World) (w : World) (p : Peer)
    → p.state ≡ PeerState.connecting
    → Before (p.last_active_time + 10) ws
    → p.last_active_time + 10 ≤ w.now
    → ((run_ticks ws p).state ≡ PeerState.connecting)
      × ((tick w (run_ticks ws p)).0.state ≡ PeerState.waiting)
connecting_times_out ws w p s b late =
    let i = run_ticks-early p.last_active_time ws p (record { in_state = s; since = refl }) b in
    (i.in_state, tick-late w p.last_active_time (run_ticks ws p) i late)
