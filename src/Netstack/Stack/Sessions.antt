-- ===== src/Netstack/Stack/Sessions.antt =====
-- The tables of the sessions: onAccept, onUdpRecv, what a UDP session asks for, reapIdleUdpSessions
-- and teardownStack.
use candy.Base.{
  ℕ, ◌+◌, ◌-◌, ◌%◌, ◌^◌, Bool, true, false, not, List, [], ◌∷◌, ◌++◌, Option, none, some,
  if◌then◌else◌, ltb, leb, nat_eq,
}
use candy.Base.Buffer.{bytes_eq}
use candy.Base.Int.{ℤ, pos, negsuc}
use candy.Base.Map.{Map, lookup, assign, erase}
use candy.Net.Order.{Endian}
use candy.Net.Ip4.{Ip4}
use candy.Netstack.Mux.{UdpMux}
use candy.Netstack.Mux
use candy.Netstack.Tcp.State.{SessionTcp, new_session}
use candy.Netstack.Tcp.State
use candy.Netstack.Udp.{
  SessionUdp, UdpOut, to_mux, source_gone, session_gone, pcb_removed, new_session_udp, on_pcb_recv,
}
use candy.Netstack.Udp
use candy.Netstack.Stack.{
  NetStack, udp, client_shutdown, Result, all_udp, send_udp_converged, on_udp_source_gone,
  remove_udp_session,
}

-- How onAccept ends.
pub data Accepted : Type 0 where
  accepted : Accepted
  bad_value : Accepted
  reset : Accepted

unfoldable pub keep_session : ℕ → Option SessionTcp → NetStack → NetStack × Accepted
keep_session pcb none s = (s, reset)
keep_session pcb (some t) s = (record s { sessions = assign pcb t s.sessions }, accepted)

-- A new pcb, and whether the dialling to its destination begins.
unfoldable pub on_accept : Bool → Option ℕ → Bool → NetStack → NetStack × Accepted
on_accept no_error none dialled s = (s, bad_value)
on_accept no_error (some pcb) dialled s =
    if not no_error
    then (s, bad_value)
    else if not s.running
    then (s, reset)
    else keep_session pcb (State.start dialled new_session) s

unfoldable pub remove_session : ℕ → NetStack → NetStack
remove_session pcb s = record s { sessions = erase pcb s.sessions }

abbrev pub new_mux : UdpMux
new_mux = record {
  endpoint_owner = [];
  stun_txn = [];
  owner_endpoints = [];
  drop_collision = 0;
  drop_txid_miss = 0;
  drop_endpoint_miss = 0;
}

unfoldable pub keep_udp_session : Option (SessionUdp × List UdpOut) → NetStack → Result
keep_udp_session none s = (s, udp pcb_removed ∷ [])
keep_udp_session (some (u, out)) s =
    (record s { udp_sessions = assign u.session_key u s.udp_sessions }, all_udp out)

-- The mux is made when the first source needs it.
unfoldable pub with_mux : Bool → Bool → Option UdpMux → Option (Option UdpMux)
with_mux false starts m = some m
with_mux true starts (some m) = some (some m)
with_mux true true none = some (some new_mux)
with_mux true false none = none

unfoldable pub after_mux_start :
    Option (SessionUdp × List UdpOut) → Option (Option UdpMux) → NetStack → Result
after_mux_start u none s = (s, udp pcb_removed ∷ client_shutdown ∷ [])
after_mux_start u (some m) s = keep_udp_session u (record s { udp_mux = m })

-- The first packet of a source, which may be null, with the setting of the client, whether the mux
-- starts, and whether a socket can be had.
unfoldable pub on_udp_recv : Endian → ℕ → Bool → Bool → Bool → Bool → Ip4 → ℕ → NetStack → Result
on_udp_recv e now false converged mux_starts dialled src port s = (s, [])
on_udp_recv e now true converged mux_starts dialled src port s =
    if s.running
    then after_mux_start (Udp.start dialled (new_session_udp e now src port converged))
        (with_mux converged mux_starts s.udp_mux) s
    else (s, udp pcb_removed ∷ [])

-- What a session asks the stack for is done, and the rest is handed on.
unfoldable pub perform : ℕ → Bool → UdpOut → NetStack → Result
perform now has_memory (to_mux key ip port b) s = send_udp_converged now has_memory key ip port b s
perform now has_memory (source_gone key) s = (on_udp_source_gone key s, [])
perform now has_memory (session_gone key) s = (remove_udp_session key s, [])
perform now has_memory o s = (s, udp o ∷ [])

unfoldable pub perform_all : ℕ → Bool → List UdpOut → NetStack → Result
perform_all now has_memory [] s = (s, [])
perform_all now has_memory (o ∷ out) s =
    let (s1, first) = perform now has_memory o s in
    let (s2, rest) = perform_all now has_memory out s1 in (s2, first ++ rest)

-- A packet of a source goes to its session.
unfoldable pub session_recv :
    ℕ → Bool → List ℕ → ℕ → ℕ → Option (List ℕ) → Option SessionUdp → NetStack → Result
session_recv now has_memory key ip port p none s = (s, [])
session_recv now has_memory key ip port p (some u) s =
    let (u', out) = on_pcb_recv now ip port p u in
    perform_all now has_memory out (record s { udp_sessions = assign key u' s.udp_sessions })

unfoldable pub udp_recv : ℕ → Bool → List ℕ → ℕ → ℕ → Option (List ℕ) → NetStack → Result
udp_recv now has_memory key ip port p s =
    session_recv now has_memory key ip port p (lookup key s.udp_sessions) s

unfoldable pub is_idle : ℕ → SessionUdp → Bool
is_idle now u = ltb (u.last_active + 60) now

-- The sessions that stay, and what the others do at their end.
unfoldable pub reap_sessions : ℕ → Map (List ℕ) SessionUdp → Map (List ℕ) SessionUdp × List UdpOut
reap_sessions now [] = ([], [])
reap_sessions now ((k, u) ∷ m) =
    let rest = reap_sessions now m in
    if is_idle now u
    then (rest.0, (Udp.shutdown_from_stack u).1 ++ rest.1)
    else ((k, u) ∷ rest.0, rest.1)

unfoldable pub reap_idle_udp_sessions : ℕ → NetStack → Result
reap_idle_udp_sessions now s =
    let (kept, out) = reap_sessions now s.udp_sessions in
    (record s { udp_sessions = kept }, all_udp out)

abbrev pub reap_mux : ℕ → Option UdpMux → Option UdpMux
reap_mux now none = none
reap_mux now (some m) = some (Mux.reap now m)

-- What a round of the loop does behind its task.
unfoldable pub loop_round : ℕ → NetStack → Result
loop_round now s =
    if leb (s.last_reap + 10) now
    then (let (s', out) = reap_idle_udp_sessions now s in
        (record s' { udp_mux = reap_mux now s'.udp_mux; last_reap = now }, out))
    else (s, [])

abbrev pub shut_all : Map (List ℕ) SessionUdp → List UdpOut
shut_all [] = []
shut_all ((k, u) ∷ m) = (Udp.shutdown_from_stack u).1 ++ shut_all m

-- The tables at the end of the stack; the mux and the TCP sessions end as their own calls say.
unfoldable pub teardown_stack : NetStack → Result
teardown_stack s = (
  record s { sessions = []; udp_sessions = []; udp_mux = none; vnet_peer_map = [] },
  all_udp (shut_all s.udp_sessions),
)

-- The greatest packet of lwIP, from that of the TUN: an int, and then a u16_t.
unfoldable pub netif_mtu : ℤ → ℕ
netif_mtu (negsuc n) = 576
netif_mtu (pos mtu) = if ltb mtu (576 + 20) then 576 else (mtu - 20) % 2 ^ 16
