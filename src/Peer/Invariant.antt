-- ===== src/Peer/Invariant.antt =====
-- What is always so of a Peer (candy/src/peer/peer.cc): the waiting time stays within its limits,
-- an idle peer has forgotten its addresses, and a state that needs an address has one.
use candy.Base.{
  ℕ, ◌≤◌, ◌≡◌, ◌≢◌, ◌⊎◌, refl, subst, sym, ◌∙◌, Bool, true, false, none, inl, inr, arith,
  Bool-cases, if◌then◌else◌,
}
use candy.Peer.State.{PeerState, Peer, World, update_state, same_state, is_idle, next_retry}
use candy.Peer.Calls.{try_connect, wants_connection}

-- What a state asks of the rest of the peer.
pub record Fits (st : PeerState) (p : Peer) : Type 0 where
  pub forgotten : is_idle st ≡ true → (p.wide ≡ none) × (p.real ≡ none) × (p.ack ≡ 0)
  pub has_real : st ≡ PeerState.connected → (p.real ≢ none) × (p.ack ≡ 1)
  pub has_wide : st ≡ PeerState.connecting → p.wide ≢ none

pub record IsBounded (p : Peer) : Type 0 where
  pub retry_low : 30 ≤ p.retry
  pub retry_high : p.retry ≤ 3600
  pub ack_le : p.ack ≤ 1

pub record IsSound (p : Peer) : Type 0 where
  pub bounded : IsBounded p
  pub fits : Fits p.state p

next_retry_low : (s t : PeerState) (r : ℕ) → 30 ≤ r → 30 ≤ next_retry s t r
unfolding next_retry
next_retry_low s t r h = ground arith

next_retry_high : (s t : PeerState) (r : ℕ) → r ≤ 3600 → next_retry s t r ≤ 3600
unfolding next_retry
next_retry_high s t r h = ground arith

same_state_lem : (s t : PeerState) → same_state s t ≡ true → s ≡ t
same_state_lem s t h = ground arith

-- What updateState does to the fields that the invariant reads.
pub record Updated (new : PeerState) (p q : Peer) : Type 0 where
  pub state_is : q.state ≡ new
  pub kept : is_idle new ≡ false → (q.wide ≡ p.wide) × (q.real ≡ p.real) × (q.ack ≡ p.ack)
  pub stayed : p.state ≡ new → (q.wide ≡ p.wide) × (q.real ≡ p.real) × (q.ack ≡ p.ack)
  pub cleared : is_idle new ≡ true → p.state ≢ new → (q.wide ≡ none) × (q.real ≡ none) × (q.ack ≡ 0)
  pub retry_is : (q.retry ≡ p.retry) ⊎ (q.retry ≡ next_retry p.state new p.retry)

same_state_refl : (s : PeerState) → same_state s s ≡ true
same_state_refl s = ground arith

pub update_state-Updated :
    (w : World) (new : PeerState) (p : Peer) → Updated new p (update_state w new p).0
unfolding update_state
update_state-Updated w new p = elim (Bool-cases (same_state p.state new)) [
  | inl same ↦ record {
    state_is = rw same (same_state_lem p.state new same);
    kept = λ h. rw same (refl, refl, refl);
    stayed = λ h. rw same (refl, refl, refl);
    cleared = λ h ne. absurd (ne (same_state_lem p.state new same));
    retry_is = inl (rw same refl);
  }
  | inr other ↦ record {
    state_is = rw other refl;
    kept = λ h. rw (other, h) (refl, refl, refl);
    stayed = λ e. cc (same_state_refl new, e, other);
    cleared = λ h ne. rw (other, h) (refl, refl, refl);
    retry_is = inr (rw other refl);
  }
]

-- A state is entered soundly when what it asks for is there; an idle state clears it itself.
abbrev pub CanEnter : PeerState → Peer → Type 0
CanEnter new p =
    (new ≡ PeerState.connected → (p.real ≢ none) × (p.ack ≡ 1))
    × (new ≡ PeerState.connecting → p.wide ≢ none)

-- The addresses and the acknowledgement are as before, or the peer has forgotten them.
keeps_or_forgets :
    {new : PeerState} {p q : Peer}
    → Updated new p q
    → ((q.wide ≡ p.wide)
        × (q.real ≡ p.real)
        × (q.ack ≡ p.ack)
        × ((is_idle new ≡ false) ⊎ (p.state ≡ new)))
      ⊎ ((is_idle new ≡ true) × (q.wide ≡ none) × (q.real ≡ none) × (q.ack ≡ 0))
keeps_or_forgets {new} {p} u = elim (Bool-cases (is_idle new)) [
  | inr busy ↦ let k = u.kept busy in inl (k.0, k.1, k.2, inl busy)
  | inl idle ↦ elim (Bool-cases (same_state p.state new)) [
    | inl same ↦
        let e = same_state_lem p.state new same in let k = u.stayed e in inl (k.0, k.1, k.2, inr e)
    | inr other ↦
        let k = u.cleared idle (λ e. cc (same_state_refl new, e, other)) in
        inr (idle, k.0, k.1, k.2)
  ]
]

Updated-IsBounded : {new : PeerState} {p q : Peer} → Updated new p q → IsBounded p → IsBounded q
Updated-IsBounded {new} {p} u b = record {
  retry_low =
      omega (arith, u.retry_is, b.retry_low, next_retry_low p.state new p.retry b.retry_low);
  retry_high =
      omega (arith, u.retry_is, b.retry_high, next_retry_high p.state new p.retry b.retry_high);
  ack_le = omega (arith, keeps_or_forgets u, b.ack_le);
}

pub not_idle_connected : is_idle PeerState.connected ≡ true → ⊥
not_idle_connected h = cc

pub not_idle_connecting : is_idle PeerState.connecting ≡ true → ⊥
not_idle_connecting h = cc

Updated-Fits :
    {new : PeerState} {p q : Peer}
    → Updated new p q
    → CanEnter new p
    → (p.state ≡ new → Fits new p)
    → Fits new q
Updated-Fits {new} {p} u c f = elim (keeps_or_forgets u) [
  | inl (w, r, a, inr e) ↦ record {
    forgotten = λ h. let k = (f e).forgotten h in (w ∙ k.0, r ∙ k.1, a ∙ k.2);
    has_real = λ h. let k = (f e).has_real h in ((λ z. k.0 (sym r ∙ z)), a ∙ k.1);
    has_wide = λ h z. (f e).has_wide h (sym w ∙ z);
  }
  | inl (w, r, a, inl busy) ↦ record {
    forgotten = λ h. cc;
    has_real = λ h. let k = c.0 h in ((λ z. k.0 (sym r ∙ z)), a ∙ k.1);
    has_wide = λ h z. c.1 h (sym w ∙ z);
  }
  | inr (idle, w, r, a) ↦ record {
    forgotten = λ h. (w, r, a);
    has_real = λ h. absurd (not_idle_connected (subst (λ s. is_idle s ≡ true) h idle));
    has_wide = λ h. absurd (not_idle_connecting (subst (λ s. is_idle s ≡ true) h idle));
  }
]

pub update_state-IsSound :
    (w : World) (new : PeerState) (p : Peer)
    → IsBounded p
    → CanEnter new p
    → (p.state ≡ new → Fits new p)
    → IsSound (update_state w new p).0
update_state-IsSound w new p b c f =
    let u = update_state-Updated w new p in
    record {
      bounded = Updated-IsBounded u b;
      fits = subst (λ s. Fits s (update_state w new p).0) (sym u.state_is) (Updated-Fits u c f);
    }

pub enter :
    (w : World) (new : PeerState) (p : Peer)
    → IsSound p
    → CanEnter new p
    → IsSound (update_state w new p).0
enter w new p v c = update_state-IsSound w new p v.bounded c (λ e. subst (λ s. Fits s p) e v.fits)

-- States that ask for nothing.
abbrev pub IsPlain : PeerState → Type 0
IsPlain new = (is_idle new ≡ false) × (new ≢ PeerState.connected) × (new ≢ PeerState.connecting)

IsPlain-Fits : (new : PeerState) (p : Peer) → IsPlain new → Fits new p
IsPlain-Fits new p h = record {
  forgotten = λ i. cc;
  has_real = λ e. absurd (h.1 e);
  has_wide = λ e. absurd (h.2 e);
}

pub enter_plain :
    (w : World) (new : PeerState) (p : Peer)
    → IsBounded p
    → IsPlain new
    → IsSound (update_state w new p).0
enter_plain w new p b h =
    update_state-IsSound w new p b ((λ e. absurd (h.1 e)), (λ e. absurd (h.2 e)))
      (λ e. IsPlain-Fits new p h)

pub preparing-IsPlain : IsPlain PeerState.preparing
preparing-IsPlain = (refl, (λ e. cc), (λ e. cc))

pub synchronizing-IsPlain : IsPlain PeerState.synchronizing
synchronizing-IsPlain = (refl, (λ e. cc), (λ e. cc))

pub sound_if :
    (b : Bool) (p q : Peer)
    → (b ≡ true → IsSound p)
    → (b ≡ false → IsSound q)
    → IsSound (if b then p else q)
sound_if true p q f g = f refl
sound_if false p q f g = g refl

pub try_connect-IsSound :
    (w : World) (r : Bool) (p : Peer) → IsSound p → IsSound (try_connect w r p)
unfolding try_connect
try_connect-IsSound w r p v =
    sound_if (wants_connection p.state r) _ _
      (λ h. enter_plain w PeerState.preparing p v.bounded preparing-IsPlain) (λ h. v)
