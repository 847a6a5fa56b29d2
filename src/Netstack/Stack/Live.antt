-- ===== src/Netstack/Stack/Live.antt =====
-- The sessions of the sources through the calls of netstack.cc that write to lwIP.
use candy.Base.{
  nat_eq, ℕ, ◌≡◌, refl, sym, ap, ◌∙◌, Bool, true, List, [], ◌∷◌, Option, none, some, inl, inr,
  Bool-cases, arith,
}
use candy.Base.Buffer.{bytes_eq, same, same_iff}
use candy.Base.Map.{lookup, assign, lookup-assign}
use candy.Net.Ip4.{Ip4}
use candy.Netstack.Mux.{MuxOut, sends, injects}
use candy.Netstack.Udp.{SessionUdp, on_pcb_recv, send_to_landing, reply_to_lwip}
use candy.Netstack.Stack.{NetStack, inject_to, inject_udp_reply, after_mux}

-- The source has a session with a pcb, which answers to that address and port.
pub record HasSession (key : List ℕ) (src : Ip4) (port : ℕ) (s : NetStack) : Type 0 where
  pub session : SessionUdp
  pub session_is : lookup key s.udp_sessions ≡ some session
  pub alive : session.pcb ≡ true
  pub src_is : session.orig_src ≡ src
  pub port_is : session.orig_src_port ≡ port

-- A session of the same source in place of one.
pub record SameSource (u u' : SessionUdp) : Type 0 where
  same_pcb : u'.pcb ≡ u.pcb
  same_src : u'.orig_src ≡ u.orig_src
  same_port : u'.orig_src_port ≡ u.orig_src_port

module _ {key : List ℕ} {src : Ip4} {port : ℕ} where
  pub session_kept :
      (key' : List ℕ) (u u' : SessionUdp) (s : NetStack)
      → lookup key' s.udp_sessions ≡ some u
      → SameSource u u'
      → HasSession key src port s
      → HasSession key src port (record s { udp_sessions = assign key' u' s.udp_sessions })
  session_kept key' u u' s at k h = elim (Bool-cases (same key' key)) [
    | inl here ↦
        let found : some u ≡ some h.session =
          sym at ∙ ap (λ i. lookup i s.udp_sessions) ((same_iff key' key).0 here) ∙ h.session_is in
        let u_is : u ≡ h.session = cc found in
        record {
          session = u';
          session_is = ground (arith, lookup-assign key' key u' s.udp_sessions, here);
          alive = k.same_pcb ∙ ap (λ (x : SessionUdp). x.pcb) u_is ∙ h.alive;
          src_is = k.same_src ∙ ap (λ (x : SessionUdp). x.orig_src) u_is ∙ h.src_is;
          port_is = k.same_port ∙ ap (λ (x : SessionUdp). x.orig_src_port) u_is ∙ h.port_is;
        }
    | inr there ↦ record {
      session = h.session;
      session_is = ground (arith, lookup-assign key' key u' s.udp_sessions, there, h.session_is);
      alive = h.alive;
      src_is = h.src_is;
      port_is = h.port_is;
    }
  ]

  pub same_sessions :
      (s t : NetStack)
      → t.udp_sessions ≡ s.udp_sessions
      → HasSession key src port s
      → HasSession key src port t
  same_sessions s t e h = record {
    session = h.session;
    session_is = ap (lookup key) e ∙ h.session_is;
    alive = h.alive;
    src_is = h.src_is;
    port_is = h.port_is;
  }

reply-SameSource :
    (now : ℕ) (has_memory : Bool) (ip port : ℕ) (b : List ℕ) (u : SessionUdp)
    → SameSource u (reply_to_lwip now has_memory ip port b u).0
unfolding reply_to_lwip
reply-SameSource now has_memory ip port b u = ground arith

pub recv-SameSource :
    (now ip port : ℕ) (b : List ℕ) (u : SessionUdp)
    → SameSource u (on_pcb_recv now ip port (some b) u).0
unfolding on_pcb_recv send_to_landing
recv-SameSource now ip port b u = ground arith

inject_to-mux :
    (now : ℕ) (has_memory : Bool) (key : List ℕ) (ip port : ℕ) (b : List ℕ) (f : Option SessionUdp)
    (s : NetStack)
    → (inject_to now has_memory key ip port b f s).0.udp_mux ≡ s.udp_mux
unfolding inject_to
inject_to-mux now has_memory key ip port b none s = refl
inject_to-mux now has_memory key ip port b (some u) s = refl

module _ (now : ℕ) (has_memory : Bool) {key : List ℕ} {src : Ip4} {port : ℕ} where
  inject_to-HasSession :
      (key' : List ℕ) (ip port' : ℕ) (b : List ℕ) (f : Option SessionUdp) (s : NetStack)
      → lookup key' s.udp_sessions ≡ f
      → HasSession key src port s
      → HasSession key src port (inject_to now has_memory key' ip port' b f s).0
  unfolding inject_to
  inject_to-HasSession key' ip port' b none s at h = h
  inject_to-HasSession key' ip port' b (some u) s at h =
      session_kept key' u (reply_to_lwip now has_memory ip port' b u).0 s at
        (reply-SameSource now has_memory ip port' b u) h

  pub after_mux-HasSession :
      (out : List MuxOut) (s : NetStack)
      → HasSession key src port s
      → HasSession key src port (after_mux now has_memory out s).0
  unfolding after_mux inject_udp_reply
  after_mux-HasSession [] s h = h
  after_mux-HasSession (sends ip port' b ∷ out) s h = after_mux-HasSession out s h
  after_mux-HasSession (injects key' ip port' b ∷ out) s h =
      after_mux-HasSession out (inject_udp_reply now has_memory key' ip port' b s).0
        (inject_to-HasSession key' ip port' b (lookup key' s.udp_sessions) s refl h)

pub after_mux-mux :
    (now : ℕ) (has_memory : Bool) (out : List MuxOut) (s : NetStack)
    → (after_mux now has_memory out s).0.udp_mux ≡ s.udp_mux
unfolding after_mux inject_udp_reply
after_mux-mux now has_memory [] s = refl
after_mux-mux now has_memory (sends ip port b ∷ out) s = after_mux-mux now has_memory out s
after_mux-mux now has_memory (injects key ip port b ∷ out) s =
    after_mux-mux now has_memory out (inject_udp_reply now has_memory key ip port b s).0
    ∙ inject_to-mux now has_memory key ip port b (lookup key s.udp_sessions) s
