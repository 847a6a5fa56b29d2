-- ===== src/Netstack/Stack/Flowing.antt =====
-- A source keeps its session and its endpoint while the sources and the socket of netstack.cc go on.
use candy.Base.{
  ◌⊎◌, nat_eq, ℕ, ◌≡◌, refl, sym, subst, Bool, List, [], ◌∷◌, Option, none, some, inl, inr,
  Bool-cases,
}
use candy.Base.Buffer.{bytes_eq}
use candy.Base.Map.{lookup, assign}
use candy.Net.Ip4.{Ip4}
use candy.Netstack.Mux.{UdpMux, MuxOut, sends, injects, endpoint_key}
use candy.Netstack.Mux
use candy.Netstack.Owners.{Owns, outward, inward, carry, owner_keeps_endpoint}
use candy.Netstack.Udp.{SessionUdp, UdpOut, to_mux, lands, on_pcb_recv, send_to_landing}
use candy.Netstack.Stack.{NetStack, mux_result, send_to_mux, send_udp_converged, demux_to}
use candy.Netstack.Stack.Sessions.{perform, perform_all, session_recv, udp_recv}
use candy.Netstack.Stack.Live.{
  HasSession, session_kept, same_sessions, recv-SameSource, after_mux-HasSession, after_mux-mux,
}

-- The source has its session, and owns the endpoint in the mux.
pub record Flows (key : List ℕ) (k : ℕ) (src : Ip4) (port : ℕ) (s : NetStack) : Type 0 where
  pub mux : UdpMux
  pub mux_is : s.udp_mux ≡ some mux
  pub owns : Owns key k mux
  pub has : HasSession key src port s

-- A packet of a source that has a session, and a datagram that the one socket has received.
pub data Datagram : Type 0 where
  goes : ℕ → Bool → List ℕ → ℕ → ℕ → List ℕ → Datagram
  comes : ℕ → Bool → ℕ → ℕ → List ℕ → Datagram

pub move : List Datagram → NetStack → NetStack
move [] s = s
move (goes now has_memory key ip port b ∷ ds) s =
    move ds (udp_recv now has_memory key ip port (some b) s).0
move (comes now has_memory ip port b ∷ ds) s =
    move ds (demux_to now has_memory ip port b s.udp_mux s).0

module _ (now : ℕ) (has_memory : Bool) {key : List ℕ} {k : ℕ} {src : Ip4} {port : ℕ} where
  mux_result-Flows :
      (r : Mux.Result) (s : NetStack)
      → Owns key k r.0
      → HasSession key src port s
      → Flows key k src port (mux_result now has_memory r s).0
  unfolding mux_result
  mux_result-Flows (m, out) s o h =
      let s' : NetStack = record s { udp_mux = some m } in
      record {
        mux = m;
        mux_is = after_mux-mux now has_memory out s';
        owns = o;
        has = after_mux-HasSession now has_memory out s' (same_sessions s s' refl h);
      }

  send_to_mux-Flows :
      (key' : List ℕ) (ip port' : ℕ) (b : List ℕ) (s : NetStack)
      → Flows key k src port s
      → Flows key k src port (send_udp_converged now has_memory key' ip port' b s).0
  unfolding send_udp_converged send_to_mux carry mux_result
  send_to_mux-Flows key' ip port' b s f = rw f.mux_is (
      mux_result-Flows (Mux.send_from_source now key' ip port' b f.mux) s
        (owner_keeps_endpoint key k (outward now key' ip port' b ∷ []) f.mux f.owns) f.has)

  demux_to-Flows :
      (ip port' : ℕ) (b : List ℕ) (s : NetStack)
      → Flows key k src port s
      → Flows key k src port (demux_to now has_memory ip port' b s.udp_mux s).0
  unfolding demux_to carry mux_result
  demux_to-Flows ip port' b s f = rw f.mux_is (
      mux_result-Flows (Mux.demux now ip port' b f.mux) s
        (owner_keeps_endpoint key k (inward now ip port' b ∷ []) f.mux f.owns) f.has)

  performed-Flows :
      (out : List UdpOut) (ip port' : ℕ) (b : List ℕ) (u : SessionUdp) (s : NetStack)
      → (out ≡ to_mux u.session_key ip port' b ∷ []) ⊎ (out ≡ lands ip port' b ∷ [])
      → Flows key k src port s
      → Flows key k src port (perform_all now has_memory out s).0
  unfolding perform_all perform
  performed-Flows out ip port' b u s (inl h) f =
      subst (λ o. Flows key k src port (perform_all now has_memory o s).0) (sym h)
        (send_to_mux-Flows u.session_key ip port' b s f)
  performed-Flows out ip port' b u s (inr h) f =
      subst (λ o. Flows key k src port (perform_all now has_memory o s).0) (sym h) f

recv_out :
    (now ip port : ℕ) (b : List ℕ) (u : SessionUdp)
    → let out = (on_pcb_recv now ip port (some b) u).1 in
      (out ≡ to_mux u.session_key ip port b ∷ []) ⊎ (out ≡ lands ip port b ∷ [])
unfolding on_pcb_recv send_to_landing
recv_out now ip port b u = elim (Bool-cases u.converged) [
  | inl c ↦ inl (rw c refl)
  | inr c ↦ inr (rw c refl)
]

session_recv-Flows :
    (now : ℕ) (has_memory : Bool) {key : List ℕ} {k : ℕ} {src : Ip4} {port : ℕ} (key' : List ℕ)
    (ip port' : ℕ) (b : List ℕ) (f : Option SessionUdp) (s : NetStack)
    → lookup key' s.udp_sessions ≡ f
    → Flows key k src port s
    → Flows key k src port (session_recv now has_memory key' ip port' (some b) f s).0
unfolding session_recv
session_recv-Flows now has_memory key' ip port' b none s at f = f
session_recv-Flows now has_memory {key} {k} {src} {port} key' ip port' b (some u) s at f =
    let r = on_pcb_recv now ip port' (some b) u in
    let s1 : NetStack = record s { udp_sessions = assign key' r.0 s.udp_sessions } in
    let kept : Flows key k src port s1 = record {
      mux = f.mux;
      mux_is = f.mux_is;
      owns = f.owns;
      has = session_kept key' u r.0 s at (recv-SameSource now ip port' b u) f.has;
    } in
    performed-Flows now has_memory r.1 ip port' b u s1 (recv_out now ip port' b u) kept

pub move-Flows :
    {key : List ℕ} {k : ℕ} {src : Ip4} {port : ℕ} (ds : List Datagram) (s : NetStack)
    → Flows key k src port s
    → Flows key k src port (move ds s)
unfolding move udp_recv
move-Flows [] s f = f
move-Flows (goes now has_memory key' ip port' b ∷ ds) s f =
    move-Flows ds (udp_recv now has_memory key' ip port' (some b) s).0
      (session_recv-Flows now has_memory key' ip port' b (lookup key' s.udp_sessions) s refl f)
move-Flows (comes now has_memory ip port' b ∷ ds) s f =
    move-Flows ds (demux_to now has_memory ip port' b s.udp_mux s).0
      (demux_to-Flows now has_memory ip port' b s f)
