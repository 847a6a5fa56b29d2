-- ===== src/Netstack/Stack/Converged.antt =====
-- With one port for all sources: from a source's session to the socket, and back.
use candy.Base.{
  nat_eq, ℕ, ◌%◌, ◌^◌, ◌≡◌, refl, sym, ap, subst, true, List, [], ◌∷◌, none, some, arith, length,
  take,
}
use candy.Base.Buffer.{bytes_eq}
use candy.Base.Map.{lookup, assign, lookup-assign_self}
use candy.Net.Ip4.{Ip4}
use candy.Netstack.Stun.{stun_parse}
use candy.Netstack.Mux.{UdpMux, MuxOut, sends, injects, endpoint_key}
use candy.Netstack.Mux
use candy.Netstack.Replies.{to_owner-Owns_out, claimed, claim-Owns}
use candy.Netstack.Udp.{SessionUdp, to_mux, replies, on_pcb_recv, reply_to_lwip}
use candy.Netstack.Stack.{
  NetStack, mux_sends, udp, inject_to, inject_udp_reply, after_mux, mux_result, send_to_mux,
  send_udp_converged, demux_to,
}
use candy.Netstack.Stack.Sessions.{perform, perform_all, session_recv, udp_recv}
use candy.Netstack.Stack.Live.{HasSession}
use candy.Netstack.Stack.Flowing.{Flows, Datagram, move, move-Flows}

handed_to_mux :
    (now : ℕ) (key : List ℕ) (ip port : ℕ) (b : List ℕ) (m : UdpMux) (s : NetStack)
    → s.udp_mux ≡ some m
    → stun_parse b ≡ none
    → lookup (endpoint_key ip port) m.endpoint_owner ≡ none
    → perform_all now true (to_mux key ip port b ∷ []) s ≡ (
      record s { udp_mux = some (Mux.claim now key (endpoint_key ip port) m) },
      mux_sends ip port b ∷ [],
    )
unfolding perform_all perform send_udp_converged send_to_mux mux_result after_mux
handed_to_mux now key ip port b m s mux_is plain free =
    rw (mux_is, claimed ip port b now key m plain free) refl

sent_first :
    (now : ℕ) (key : List ℕ) (ip port : ℕ) (b : List ℕ) (u : SessionUdp) (m : UdpMux) (s : NetStack)
    → lookup key s.udp_sessions ≡ some u
    → u.converged ≡ true
    → u.session_key ≡ key
    → s.udp_mux ≡ some m
    → stun_parse b ≡ none
    → lookup (endpoint_key ip port) m.endpoint_owner ≡ none
    → udp_recv now true key ip port (some b) s ≡ (
      record s {
        udp_sessions = assign key (record u { last_active = now }) s.udp_sessions;
        udp_mux = some (Mux.claim now key (endpoint_key ip port) m);
      },
      mux_sends ip port b ∷ [],
    )
unfolding udp_recv session_recv
sent_first now key ip port b u m s at c key_is mux_is plain free =
    let taken : on_pcb_recv now ip port (some b) u
        ≡ (record u { last_active = now }, to_mux key ip port b ∷ []) =
      unfold on_pcb_recv in ground (arith, c, key_is) in
    rw (at, taken)
      (handed_to_mux now key ip port b m
        (record s { udp_sessions = assign key (record u { last_active = now }) s.udp_sessions })
        mux_is plain free)

answer_of :
    (now ip port' : ℕ) (b : List ℕ) (src : Ip4) (port : ℕ) (u : SessionUdp)
    → u.pcb ≡ true
    → u.orig_src ≡ src
    → u.orig_src_port ≡ port
    → (reply_to_lwip now true ip port' b u).1
      ≡ replies ip port' src port (take (length b % 2 ^ 16) b) ∷ []
unfolding reply_to_lwip
answer_of now ip port' b src port u alive src_is port_is = ground (arith, alive, src_is, port_is)

answered :
    (now : ℕ) (key : List ℕ) (ip port' : ℕ) (b : List ℕ) (src : Ip4) (port : ℕ) (s : NetStack)
    → stun_parse b ≡ none
    → Flows key (endpoint_key ip port') src port s
    → (demux_to now true ip port' b s.udp_mux s).1
      ≡ udp (replies ip port' src port (take (length b % 2 ^ 16) b)) ∷ []
unfolding demux_to mux_result after_mux inject_udp_reply inject_to
answered now key ip port' b src port s plain f =
    let out = to_owner-Owns_out ip port' b now key f.mux plain f.owns in
    rw
      (
        f.mux_is,
        out,
        f.has.session_is,
        answer_of now ip port' b src port f.has.session f.has.alive f.has.src_is f.has.port_is,
      )
      refl

-- When a source with a converged session that has its pcb is the first to send data, not STUN, to an
-- endpoint, its packet goes out on the one socket; and data, not STUN, that comes back from that
-- endpoint is written to lwIP, where it has memory, for this source's address and port, from that
-- endpoint and up to the length of a u16_t, whatever all sources that have sessions, converged or
-- not, send and whatever the socket receives in between.
pub converged_reply_comes_back :
    (now now' : ℕ) (key : List ℕ) (ip port : ℕ) (b b' : List ℕ) (u : SessionUdp) (m : UdpMux)
    (ds : List Datagram) (s : NetStack)
    → lookup key s.udp_sessions ≡ some u
    → u.converged ≡ true
    → u.pcb ≡ true
    → u.session_key ≡ key
    → s.udp_mux ≡ some m
    → stun_parse b ≡ none
    → stun_parse b' ≡ none
    → lookup (endpoint_key ip port) m.endpoint_owner ≡ none
    → let sent = udp_recv now true key ip port (some b) s in
      let later = move ds sent.0 in
      (sent.1 ≡ mux_sends ip port b ∷ [])
      × ((demux_to now' true ip port b' later.udp_mux later).1
          ≡ udp (replies ip port u.orig_src u.orig_src_port (take (length b' % 2 ^ 16) b')) ∷ [])
converged_reply_comes_back now now' key ip port b b' u m ds s at c alive key_is mux_is plain plain'
      free =
    let k = endpoint_key ip port in
    let sent = sent_first now key ip port b u m s at c key_is mux_is plain free in
    let s1 : NetStack = record s {
      udp_sessions = assign key (record u { last_active = now }) s.udp_sessions;
      udp_mux = some (Mux.claim now key k m);
    } in
    let has : HasSession key u.orig_src u.orig_src_port s1 = record {
      session = record u { last_active = now };
      session_is = lookup-assign_self key _ s.udp_sessions;
      alive = alive;
      src_is = refl;
      port_is = refl;
    } in
    let flows : Flows key k u.orig_src u.orig_src_port s1 = record {
      mux = Mux.claim now key k m;
      mux_is = refl;
      owns = claim-Owns ip port b now key k m;
      has = has;
    } in
    (
      ap (λ r. r.1) sent,
      answered now' key ip port b' u.orig_src u.orig_src_port _ plain' (
          move-Flows ds _
            (subst (λ r. Flows key k u.orig_src u.orig_src_port r.0) (sym sent) flows)),
    )
