-- ===== src/Examples/Stacking.antt =====
-- netstack/netstack.cc and the index of netstack/udpmux.cc at concrete inputs.
use candy.Base.{
  ℕ, ◌^◌, ◌%◌, ◌++◌, ◌≡◌, refl, true, false, List, [], ◌∷◌, take, length, drop, some, All, arith,
  nat_eq,
}
use candy.Base.Map.{lookup}
use candy.Base.Buffer.{bytes_eq, same}
use candy.Net.Ip4.{Ip4, ip4, ip_empty}
use candy.Message.Layout.{ip_at, saddr_at, header_size}
use candy.Tun.Packets.{is_ipip, outer_header}
use candy.Netstack.Stun.{stun_parse}
use candy.Netstack.Mux.{on_source_gone}
use candy.Netstack.Index.Gone.{
  Leaves, MuxCall, outward, reaped, gone, mux_calls, gone_source_owns_nothing,
}
use candy.Netstack.Udp.{SessionUdp, replies}
use candy.Netstack.Stack.{
  NetStack, to_lwip, to_peers, mux_sends, udp, handle_input, output, demux_to, is_tcp_or_udp,
}
use candy.Netstack.Stack.Peers.{Crossing, enters, leaves, cross, Agrees, replies_return_to_gateway}
use candy.Netstack.Stack.Flowing.{Datagram, goes, comes, move}
use candy.Netstack.Stack.Converged.{converged_reply_comes_back}
use candy.Netstack.Stack.Sessions.{new_mux, udp_recv}

abbrev server_ip : ℕ
server_ip = 0x08080808

abbrev server_port : ℕ
server_port = 9

abbrev phone : List ℕ
phone = 10 ∷ 0 ∷ 0 ∷ 1 ∷ 80 ∷ 0 ∷ []

abbrev laptop : List ℕ
laptop = 10 ∷ 0 ∷ 0 ∷ 2 ∷ 80 ∷ 0 ∷ []

abbrev home : Ip4
home = ip4 10 0 0 1

abbrev payload : List ℕ
payload = 1 ∷ 2 ∷ 3 ∷ []

abbrev mux_history : List MuxCall
mux_history =
    outward 1 phone server_ip server_port payload
    ∷ outward 2 laptop server_ip server_port payload
    ∷ outward 2 laptop server_ip 10 payload
    ∷ reaped 20
    ∷ gone phone
    ∷ outward 21 laptop server_ip server_port payload
    ∷ []

gone_source_owns_nothing_example :
    Leaves laptop
      (mux_calls mux_history new_mux)
      (on_source_gone laptop (mux_calls mux_history new_mux))
gone_source_owns_nothing_example = gone_source_owns_nothing new_mux mux_history laptop refl

-- A stack whose one source has a converged session.
abbrev phone_session : SessionUdp
phone_session = record {
  pcb = true;
  fd = false;
  converged = true;
  orig_src = home;
  orig_src_port = 80;
  session_key = phone;
  last_active = 0;
  closing = false;
  self = true;
}

abbrev stack : NetStack
stack = record {
  running = true;
  vnet_peer_map = [];
  udp_sessions = (phone, phone_session) ∷ [];
  udp_mux = some new_mux;
  sessions = [];
  last_reap = 0;
}

abbrev datagrams : List Datagram
datagrams =
    goes 2 true laptop server_ip server_port payload
    ∷ comes 3 true server_ip 77 payload
    ∷ goes 4 true phone server_ip 77 payload
    ∷ []

converged_reply_comes_back_example :
    let sent = udp_recv 1 true phone server_ip server_port (some payload) stack in
    let later = move datagrams sent.0 in
    (sent.1 ≡ mux_sends server_ip server_port payload ∷ [])
    × ((demux_to 9 true server_ip server_port payload later.udp_mux later).1
        ≡ udp (replies server_ip server_port home 80 (take (length payload % 2 ^ 16) payload)) ∷ [])
unfolding stun_parse lookup same
converged_reply_comes_back_example =
    converged_reply_comes_back 1 9 phone server_ip server_port payload payload phone_session new_mux
      datagrams stack refl refl refl refl refl refl refl refl

-- An outer header from the gateway 10.0.0.9, and a UDP packet of 192.168.1.5 in it.
abbrev gateway_packet : List ℕ
gateway_packet =
    (69 ∷ 0 ∷ 0 ∷ 40 ∷ 0 ∷ 0 ∷ 0 ∷ 0 ∷ 64 ∷ 4 ∷ 0 ∷ 0 ∷ 10 ∷ 0 ∷ 0 ∷ 9 ∷ 10 ∷ 0 ∷ 0 ∷ 1 ∷ [])
    ++ (69 ∷ 0 ∷ 0 ∷ 20 ∷ 0 ∷ 0 ∷ 0 ∷ 0 ∷ 64 ∷ 17 ∷ 0 ∷ 0 ∷ 192 ∷ 168 ∷ 1 ∷ 5 ∷ 8 ∷ 8 ∷ 8 ∷ 8 ∷ [])

abbrev lwip_packet : List ℕ
lwip_packet =
    69 ∷ 0 ∷ 0 ∷ 20 ∷ 0 ∷ 0 ∷ 0 ∷ 0 ∷ 64 ∷ 17 ∷ 0 ∷ 0 ∷ 8 ∷ 8 ∷ 8 ∷ 8 ∷ 192 ∷ 168 ∷ 1 ∷ 5 ∷ []

abbrev crossings : List Crossing
crossings = leaves 101 home lwip_packet ∷ enters 102 true gateway_packet ∷ []

crossings_agree :
    All
      (Agrees
        (ip_at saddr_at (drop header_size gateway_packet))
        (ip_at saddr_at gateway_packet)
        100)
      crossings
unfolding Agrees
crossings_agree = ((omega arith, omega arith), ((omega arith, omega arith, λ w l. refl), tt))

replies_return_to_gateway_example :
    ((handle_input 100 true gateway_packet stack).1
      ≡ to_lwip (drop header_size gateway_packet) ∷ [])
    × ((output 200 home lwip_packet
          (cross crossings (handle_input 100 true gateway_packet stack).0)).1
        ≡ to_peers (outer_header home (ip_at saddr_at gateway_packet) ++ lwip_packet) ∷ [])
unfolding is_ipip is_tcp_or_udp ip_empty
replies_return_to_gateway_example =
    replies_return_to_gateway 100 200 home gateway_packet lwip_packet crossings stack (omega arith)
      refl refl refl crossings_agree (omega arith) refl
