-- ===== src/Peer/Soundness.antt =====
-- Every call of a Peer keeps it sound.
use candy.Base.{
  List, [], ℕ, ◌≡◌, ◌≢◌, ◌⊎◌, refl, subst, sym, ap, ◌∙◌, Bool, true, false, not, ◌&&◌, Option, none,
  some, inl, inr, arith, Bool-cases, if◌then◌else◌, ◌==◌, ==_iff,
}
use candy.Net.Ip4.{Ip4}
use candy.Peer.State.{PeerState, SocketAddress, Peer, World, update_state, is_idle}
use candy.Peer.Calls.{
  Call, tries, pub_info, stun_response, ticks, heartbeats, measures, step, handle_pub_info,
  wide_known, handle_stun_response, tick_state, tick, heartbeat_known, handle_heartbeat, prefers,
  after_stun, is_preparing, ignores_heartbeat,
}
use candy.Peer.State.{Effect, active_within}
use candy.Peer.Invariant.{
  IsBounded, IsSound, not_idle_connected, not_idle_connecting, update_state-IsSound, enter,
  enter_plain, preparing-IsPlain, synchronizing-IsPlain, try_connect-IsSound,
}

some_ne_none : {a : SocketAddress} → some a ≢ none
some_ne_none e = cc

-- A busy peer that learns more stays sound.
learns :
    (p q : Peer)
    → IsSound p
    → is_idle p.state ≡ false
    → q.state ≡ p.state
    → q.retry ≡ p.retry
    → (q.ack ≡ p.ack) ⊎ (q.ack ≡ 1)
    → (p.real ≢ none → q.real ≢ none)
    → (p.wide ≢ none → q.wide ≢ none)
    → IsSound q
learns p q v busy st rt ak re wi = record {
  bounded = record {
    retry_low = omega (arith, rt, v.bounded.retry_low);
    retry_high = omega (arith, rt, v.bounded.retry_high);
    ack_le = omega (arith, ak, v.bounded.ack_le);
  };
  fits = record {
    forgotten = λ h. absurd (busy_idle (ap is_idle (sym st) ∙ h));
    has_real = λ h. let k = v.fits.has_real (sym st ∙ h) in (re k.0, omega (arith, ak, k.1));
    has_wide = λ h. wi (v.fits.has_wide (sym st ∙ h));
  };
}
  where
    busy_idle : is_idle p.state ≡ true → ⊥
    busy_idle h = cc

learned : (p : Peer) (a : SocketAddress) → IsSound p → IsBounded (record p { wide = some a })
learned p a v = record {
  retry_low = v.bounded.retry_low;
  retry_high = v.bounded.retry_high;
  ack_le = v.bounded.ack_le;
}

wide_known-IsSound :
    (w : World) (a : SocketAddress) (st : PeerState) (p : Peer)
    → p.state ≡ st
    → IsSound p
    → IsSound (wide_known w st (record p { wide = some a })).0
unfolding wide_known
wide_known-IsSound w a PeerState.connected p e v =
    learns p (record p { wide = some a }) v (ap is_idle e) refl refl (inl refl) (λ h. h)
      (λ h. some_ne_none)
wide_known-IsSound w a PeerState.connecting p e v =
    learns p (record p { wide = some a }) v (ap is_idle e) refl refl (inl refl) (λ h. h)
      (λ h. some_ne_none)
wide_known-IsSound w a PeerState.synchronizing p e v =
    update_state-IsSound w PeerState.connecting (record p { wide = some a }) (learned p a v)
      ((λ h. cc), (λ h. some_ne_none)) (λ h. cc)
wide_known-IsSound w a PeerState.init p e v =
    enter_plain w PeerState.preparing (record p { wide = some a }) (learned p a v) preparing-IsPlain
wide_known-IsSound w a PeerState.preparing p e v =
    enter_plain w PeerState.preparing (record p { wide = some a }) (learned p a v) preparing-IsPlain
wide_known-IsSound w a PeerState.waiting p e v =
    enter_plain w PeerState.preparing (record p { wide = some a }) (learned p a v) preparing-IsPlain
wide_known-IsSound w a PeerState.failed p e v =
    enter_plain w PeerState.preparing (record p { wide = some a }) (learned p a v) preparing-IsPlain

-- Fields that the invariant does not read.
same_sound :
    (p q : Peer)
    → q.state ≡ p.state
    → q.retry ≡ p.retry
    → q.ack ≡ p.ack
    → q.real ≡ p.real
    → q.wide ≡ p.wide
    → IsSound p
    → IsSound q
same_sound p q st rt ak re wi v = record {
  bounded = record {
    retry_low = omega (arith, rt, v.bounded.retry_low);
    retry_high = omega (arith, rt, v.bounded.retry_high);
    ack_le = omega (arith, ak, v.bounded.ack_le);
  };
  fits = record {
    forgotten =
        λ h. let k = v.fits.forgotten (ap is_idle (sym st) ∙ h) in (wi ∙ k.0, re ∙ k.1, ak ∙ k.2);
    has_real = λ h. let k = v.fits.has_real (sym st ∙ h) in ((λ z. k.0 (sym re ∙ z)), ak ∙ k.1);
    has_wide = λ h z. v.fits.has_wide (sym st ∙ h) (sym wi ∙ z);
  };
}

handle_pub_info-IsSound :
    (w : World) (ip : Ip4) (port : ℕ) (is_local : Bool) (p : Peer)
    → IsSound p
    → IsSound (handle_pub_info w ip port is_local p).0
unfolding handle_pub_info
handle_pub_info-IsSound w ip port true p v = same_sound p _ refl refl refl refl refl v
handle_pub_info-IsSound w ip port false p v =
    wide_known-IsSound w (record { host = ip; port = port }) p.state p refl v

stun_enter :
    (w : World) (o : Option SocketAddress) (p : Peer)
    → p.wide ≡ o
    → IsSound p
    → IsSound (update_state w (after_stun o) p).0
stun_enter w none p e v = enter_plain w PeerState.synchronizing p v.bounded synchronizing-IsPlain
stun_enter w (some a) p e v =
    enter w PeerState.connecting p v ((λ h. cc), (λ h z. some_ne_none (sym e ∙ z)))

handle_stun_response-IsSound :
    (w : World) (p : Peer) → IsSound p → IsSound (handle_stun_response w p).0
unfolding handle_stun_response
handle_stun_response-IsSound w p v = elim (Bool-cases (is_preparing p.state)) [
  | inl h ↦ rw h (stun_enter w p.wide p refl v)
  | inr h ↦ rw h v
]

idle_enter :
    (w : World) (new : PeerState) (p : Peer)
    → is_idle new ≡ true
    → IsSound p
    → IsSound (update_state w new p).0
idle_enter w new p idle v = enter w new p v (
  (λ h. absurd (not_idle_connected (subst (λ s. is_idle s ≡ true) h idle))),
  (λ h. absurd (not_idle_connecting (subst (λ s. is_idle s ≡ true) h idle))),
)

either_sound :
    (b : Bool) (r q : Peer × List Effect)
    → (b ≡ true → IsSound r.0)
    → (b ≡ false → IsSound q.0)
    → IsSound (if◌then◌else◌ {A = Peer × List Effect} b r q).0
either_sound true r q v u = v refl
either_sound false r q v u = u refl

tick_state-IsSound :
    (w : World) (st : PeerState) (p : Peer) → IsSound p → IsSound (tick_state w st p).0
unfolding tick_state
tick_state-IsSound w PeerState.init p v = v
tick_state-IsSound w PeerState.preparing p v =
    either_sound (w.stun_enabled && active_within w 10 p) (p, _)
      ((update_state w PeerState.failed p).0, _) (λ h. v)
      (λ h. idle_enter w PeerState.failed p refl v)
tick_state-IsSound w PeerState.synchronizing p v =
    either_sound (active_within w 10 p) (p, _) ((update_state w PeerState.failed p).0, _) (λ h. v)
      (λ h. idle_enter w PeerState.failed p refl v)
tick_state-IsSound w PeerState.connecting p v =
    either_sound (active_within w 10 p) (p, _) ((update_state w PeerState.waiting p).0, _) (λ h. v)
      (λ h. idle_enter w PeerState.waiting p refl v)
tick_state-IsSound w PeerState.connected p v =
    either_sound (active_within w 3 p) (p, _) ((update_state w PeerState.init p).0, _) (λ h. v)
      (λ h. idle_enter w PeerState.init p refl v)
tick_state-IsSound w PeerState.waiting p v =
    either_sound (active_within w p.retry p) (p, _) ((update_state w PeerState.init p).0, _)
      (λ h. v) (λ h. idle_enter w PeerState.init p refl v)
tick_state-IsSound w PeerState.failed p v = v

-- The two assignments of handleHeartbeatMessage.
abbrev pub chosen : World → SocketAddress → Peer → Peer
chosen w a p = if prefers w a p.real then record p { real = some a } else p

abbrev pub acknowledged : Peer → Peer
acknowledged p = if p.ack == 0 then record p { ack = 1 } else p

-- A peer that has an address and an acknowledgement.
record IsHeard (st : PeerState) (p : Peer) : Type 0 where
  sound : IsSound p
  busy : is_idle p.state ≡ false
  has_address : p.real ≢ none
  has_ack : p.ack ≡ 1

chosen_real :
    (w : World) (a : SocketAddress) (o : Option SocketAddress) (p : Peer)
    → p.real ≡ o
    → prefers w a o ≡ false
    → p.real ≢ none
unfolding prefers
chosen_real w a none p e h z = cc
chosen_real w a (some r) p e h z = some_ne_none (sym e ∙ z)

chosen-IsSound :
    (w : World) (a : SocketAddress) (p : Peer)
    → IsSound p
    → is_idle p.state ≡ false
    → IsSound (chosen w a p) × ((chosen w a p).real ≢ none) × ((chosen w a p).state ≡ p.state)
chosen-IsSound w a p v busy = elim (Bool-cases (prefers w a p.real)) [
  | inl h ↦ rw h (
    learns p (record p { real = some a }) v busy refl refl (inl refl) (λ k. some_ne_none) (λ k. k),
    some_ne_none,
    refl,
  )
  | inr h ↦ rw h (v, chosen_real w a p.real p refl h, refl)
]

acknowledged-IsHeard :
    (p : Peer)
    → IsSound p
    → is_idle p.state ≡ false
    → p.real ≢ none
    → IsHeard p.state (acknowledged p)
acknowledged-IsHeard p v busy re = elim (Bool-cases (p.ack == 0)) [
  | inl h ↦ rw h (record {
    sound = learns p (record p { ack = 1 }) v busy refl refl (inr refl) (λ k. k) (λ k. k);
    busy = busy;
    has_address = re;
    has_ack = refl;
  })
  | inr h ↦ rw h (record {
    sound = v;
    busy = busy;
    has_address = re;
    has_ack = omega (arith, v.bounded.ack_le, false_true h);
  })
]
  where
    false_true : (p.ack == 0) ≡ false → p.ack ≢ 0
    false_true h e = cc ((==_iff p.ack 0).1 e)

heartbeat_known-IsSound :
    (w : World) (a : SocketAddress) (heartbeat_ack : ℕ) (p : Peer)
    → IsSound p
    → is_idle p.state ≡ false
    → IsSound (heartbeat_known w a heartbeat_ack p).0
unfolding heartbeat_known
heartbeat_known-IsSound w a heartbeat_ack p v busy =
    let c = chosen-IsSound w a p v busy in
    let h = acknowledged-IsHeard (chosen w a p) c.0 (ap is_idle c.2 ∙ busy) c.1 in
    elim (Bool-cases (heartbeat_ack == 0)) [
      | inl z ↦ rw z h.sound
      | inr z ↦ rw z (
          enter w PeerState.connected (acknowledged (chosen w a p)) h.sound
            ((λ k. (h.has_address, h.has_ack)), (λ k. cc)))
    ]

busy_state : (s : PeerState) → ignores_heartbeat s ≡ false → is_idle s ≡ false
busy_state s h = ground arith

handle_heartbeat-IsSound :
    (w : World) (a : SocketAddress) (heartbeat_ack : ℕ) (p : Peer)
    → IsSound p
    → IsSound (handle_heartbeat w a heartbeat_ack p).0
unfolding handle_heartbeat
handle_heartbeat-IsSound w a heartbeat_ack p v =
    either_sound (ignores_heartbeat p.state) (p, []) _ (λ h. v)
      (λ h.
        let busy = busy_state p.state h in
        either_sound (not (w.is_local a))
          (heartbeat_known w a heartbeat_ack (record p { wide = some a })) _
          (λ k.
            heartbeat_known-IsSound w a heartbeat_ack (record p { wide = some a })
              (learns p (record p { wide = some a }) v busy refl refl (inl refl) (λ z. z)
                (λ z. some_ne_none))
              busy)
          (λ k.
            either_sound (not w.local_p2p_disabled)
              (heartbeat_known w a heartbeat_ack (record p { local = some a })) (p, [])
              (λ z.
                heartbeat_known-IsSound w a heartbeat_ack (record p { local = some a })
                  (same_sound p _ refl refl refl refl refl v) busy)
              (λ z. v)))

-- Every call of a peer, the assignment of its round trip time included, keeps it sound: the waiting
-- time before the next attempt is between 30 and 3600 seconds, the acknowledgement is 0 or 1, a
-- peer in INIT, WAITING or FAILED has no wide and no real address and no acknowledgement, a
-- CONNECTED one has a real address and the acknowledgement, and a CONNECTING one a wide address.
pub step-IsSound : (w : World) (c : Call) (p : Peer) → IsSound p → IsSound (step w c p)
unfolding step tick
step-IsSound w (tries r) p v = try_connect-IsSound w r p v
step-IsSound w (pub_info ip port l) p v = handle_pub_info-IsSound w ip port l p v
step-IsSound w stun_response p v = handle_stun_response-IsSound w p v
step-IsSound w ticks p v =
    same_sound (tick_state w p.state p).0 _ refl refl refl refl refl
      (tick_state-IsSound w p.state p v)
step-IsSound w (heartbeats a k) p v = handle_heartbeat-IsSound w a k p v
step-IsSound w (measures r) p v = same_sound p _ refl refl refl refl refl v
