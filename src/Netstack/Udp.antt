-- ===== src/Netstack/Udp.antt =====
-- class SessionUdp of candy/src/netstack/session_udp.h and session_udp.cc: a source's datagrams.
-- Times are seconds.
use candy.Base.{
  ℕ, ◌%◌, ◌^◌, Bool, true, false, not, List, [], ◌∷◌, ◌++◌, Option, none, some, if◌then◌else◌,
  length, take,
}
use candy.Net.Order.{Endian, store}
use candy.Net.Ip4.{Ip4, raw}

-- `pcb` and `fd` say whether there is one.
pub record SessionUdp : Type 0 where
  pub pcb : Bool
  pub fd : Bool
  pub converged : Bool
  pub orig_src : Ip4
  pub orig_src_port : ℕ
  pub session_key : List ℕ
  pub last_active : ℕ
  pub closing : Bool
  pub self : Bool

-- What is posted to the reactor: a datagram, or the end of the socket; what goes to the UdpMux and
-- to the table of the sessions; and what goes to lwIP, or is posted to its thread.
pub data UdpOut : Type 0 where
  lands : ℕ → ℕ → List ℕ → UdpOut
  posts_close : UdpOut
  posts_close_fd : UdpOut
  to_mux : List ℕ → ℕ → ℕ → List ℕ → UdpOut
  source_gone : List ℕ → UdpOut
  session_gone : List ℕ → UdpOut
  replies : ℕ → ℕ → Ip4 → ℕ → List ℕ → UdpOut
  pcb_removed : UdpOut
  waits_for_fd : UdpOut
  posts_reply : ℕ → ℕ → List ℕ → UdpOut
  posts_stack_close : UdpOut
  fd_closed : UdpOut

-- The source's address, then its port, as they lie in memory.
unfoldable pub source_key : Endian → Ip4 → ℕ → List ℕ
source_key e src port = raw src ++ store e 2 port

abbrev pub new_session_udp : Endian → ℕ → Ip4 → ℕ → Bool → SessionUdp
new_session_udp e now src port converged = record {
  pcb = true;
  fd = false;
  converged = converged;
  orig_src = src;
  orig_src_port = port;
  session_key = source_key e src port;
  last_active = now;
  closing = false;
  self = false;
}

-- Only a source with a socket of its own dials.
unfoldable pub start : Bool → SessionUdp → Option (SessionUdp × List UdpOut)
start dialled s =
    if s.converged
    then some (record s { self = true }, [])
    else if dialled
    then some (record s { self = true; fd = true }, waits_for_fd ∷ [])
    else none

unfoldable pub send_to_landing : ℕ → ℕ → ℕ → List ℕ → SessionUdp → SessionUdp × List UdpOut
send_to_landing now ip port b s = (record s { last_active = now }, lands ip port b ∷ [])

-- A datagram of the source for an address and a port.
unfoldable pub on_pcb_recv : ℕ → ℕ → ℕ → Option (List ℕ) → SessionUdp → SessionUdp × List UdpOut
on_pcb_recv now ip port none s = (s, [])
on_pcb_recv now ip port (some b) s =
    if s.converged
    then (record s { last_active = now }, to_mux s.session_key ip port b ∷ [])
    else send_to_landing now ip port b s

-- An answer with its sender's address and port, where a buffer can be had. Its length is a u16_t.
unfoldable pub reply_to_lwip : ℕ → Bool → ℕ → ℕ → List ℕ → SessionUdp → SessionUdp × List UdpOut
reply_to_lwip now has_memory ip port b s =
    if not s.pcb
    then (s, [])
    else if has_memory
    then (
      record s { last_active = now },
      replies ip port s.orig_src s.orig_src_port (take (length b % 2 ^ 16) b) ∷ [],
    )
    else (record s { last_active = now }, [])

abbrev pub pcb_end : Bool → List UdpOut
pcb_end true = pcb_removed ∷ []
pcb_end false = []

unfoldable pub close_from_stack : SessionUdp → SessionUdp × List UdpOut
close_from_stack s = (
  record s { pcb = false },
  pcb_end s.pcb
      ++ ((if s.converged then source_gone s.session_key ∷ [] else [])
          ++ posts_close ∷ session_gone s.session_key ∷ []),
)

unfoldable pub shutdown_from_stack : SessionUdp → SessionUdp × List UdpOut
shutdown_from_stack s =
    if s.closing
    then (record s { pcb = false }, pcb_end s.pcb)
    else (record s { pcb = false; closing = true }, pcb_end s.pcb ++ posts_close_fd ∷ [])

abbrev pub fd_end : Bool → List UdpOut
fd_end true = fd_closed ∷ []
fd_end false = []

unfoldable pub close_from_reactor : SessionUdp → SessionUdp × List UdpOut
close_from_reactor s = if s.closing then (s, []) else (
  record s { closing = true; fd = false; self = false },
  fd_end s.fd ++ (if s.pcb then posts_stack_close ∷ [] else []),
)

-- What recvfrom answers; it has no bytes for an empty datagram.
pub data GotFrom : Type 0 where
  datagram : ℕ → ℕ → List ℕ → GotFrom
  blocks : GotFrom
  fails : GotFrom

-- Where the list of answers ends the socket blocks.
unfoldable pub on_fd_readable : List GotFrom → SessionUdp → SessionUdp × List UdpOut
on_fd_readable [] s = (s, [])
on_fd_readable (datagram ip port [] ∷ gs) s = (s, [])
on_fd_readable (datagram ip port (x ∷ b) ∷ gs) s =
    let (s', out) = on_fd_readable gs s in (s', posts_reply ip port (x ∷ b) ∷ out)
on_fd_readable (blocks ∷ gs) s = (s, [])
on_fd_readable (fails ∷ gs) s = close_from_reactor s

-- An event of the socket: readable, or failed.
unfoldable pub on_fd_event : Bool → Bool → List GotFrom → SessionUdp → SessionUdp × List UdpOut
on_fd_event readable true gs s = close_from_reactor s
on_fd_event true false gs s = on_fd_readable gs s
on_fd_event false false gs s = (s, [])
