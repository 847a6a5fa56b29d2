-- ===== src/WsClient/Handlers.antt =====
-- The handlers of a WebSocketClient: for the messages of the queue, and for those of the server.
use candy.Base.{
  ℕ, zero, suc, true, false, List, [], ◌∷◌, ◌++◌, Option, none, some, if◌then◌else◌, ltb, ◌==◌,
  length, drop, get_or, replicate,
}
use candy.Base.Results.{◌>>=◌}
use candy.Base.Buffer.{put, slice}
use candy.Net.Order.{Endian, load, store, ntoh, hton}
use candy.Net.Ip4.{raw, ip_eq}
use candy.Net.Cidr.{to_cidr}
use candy.Message.Kind
use candy.Message.Layout.{
  forward_size, expt_tun_size, conn_size, discovery_size, sys_route_size, sys_route_entry_size,
  conn_local_size, ip_at, saddr_at,
}
use candy.Message.Make.{new_conn, new_conn_local}
use candy.Server.Handlers.{broadcast_ip, c_string}
use candy.Core.Message.{PubInfo, Msg, packet, sys_rt, try_p2p, pub_info, discovery}
use candy.WsClient.State.{World, WsClient, Effect, frame, to_tun, to_peers, Result, new_address}
use candy.WsClient.Send.{send_if, send_auth_msg, send_discovery_msg}

-- A call that leaves the client as it is.
abbrev pub keeping : WsClient → Option (List Effect) → Result
keeping c o = o >>= λ out. some (c, out)

unfoldable pub handle_packet : List ℕ → WsClient → List Effect
handle_packet b c = send_if c (frame (Kind.forward ∷ b))

-- ConnLocal: General with src and dst, ip, port.
unfoldable pub conn_local_frame : Endian → PubInfo → List ℕ
conn_local_frame e info = put 16 (store e 2 (hton e 2 info.port)) (
    put 12 (raw info.ip)
      (put 8 (raw info.dst) (put 4 (raw info.src) (new_conn_local (replicate conn_local_size 0)))))

-- Conn: src, dst, ip, port.
unfoldable pub conn_frame : Endian → PubInfo → List ℕ
conn_frame e info = put 13 (store e 2 (hton e 2 info.port)) (
    put 9 (raw info.ip)
      (put 5 (raw info.dst) (put 1 (raw info.src) (new_conn (replicate conn_size 0)))))

unfoldable pub handle_pub_info : World → PubInfo → WsClient → List Effect
handle_pub_info w info c =
    send_if c
      (frame (if info.is_local then conn_local_frame w.endian info else conn_frame w.endian info))

-- handleWsQueue. The last case is the default of the switch.
unfoldable pub handle_ws_queue : World → Msg → WsClient → Option (List Effect)
handle_ws_queue w (packet b) c = some (handle_packet b c)
handle_ws_queue w (pub_info info) c = some (handle_pub_info w info c)
handle_ws_queue w discovery c = send_discovery_msg w c broadcast_ip
handle_ws_queue w _ c = some []

unfoldable pub handle_forward_msg : World → List ℕ → WsClient → List Effect
handle_forward_msg w b c =
    if ltb (length b) forward_size
    then []
    else let inner = drop 1 b in
      to_peers (try_p2p (w.text.print (ip_at saddr_at inner)))
      ∷ (if w.p2p_only then [] else to_tun (packet inner) ∷ [])

-- The address that the server offers is taken, and the client logs in with it.
unfoldable pub handle_expt_tun_msg : World → List ℕ → WsClient → Result
handle_expt_tun_msg w b c =
    if ltb (length b) expt_tun_size
    then some (c, [])
    else (new_address w.text (c_string (drop 9 b)) >>= λ a.
        let c' = record c { tun_cidr = to_cidr w.text a } in keeping c' (send_auth_msg w c'))

unfoldable pub conn_info : Endian → List ℕ → PubInfo
conn_info e b = record {
  src = ip_at 1 b;
  dst = ip_at 5 b;
  ip = ip_at 9 b;
  port = ntoh e 2 (load e (slice 13 2 b));
  is_local = false;
}

unfoldable pub handle_udp4_conn_msg : World → List ℕ → WsClient → List Effect
handle_udp4_conn_msg w b c =
    if ltb (length b) conn_size then [] else to_peers (pub_info (conn_info w.endian b)) ∷ []

unfoldable pub answer_discovery : World → List ℕ → WsClient → Option (List Effect)
answer_discovery w b c =
    if ip_eq (ip_at 5 b) broadcast_ip then send_discovery_msg w c (ip_at 1 b) else some []

unfoldable pub handle_discovery_msg : World → List ℕ → WsClient → Option (List Effect)
handle_discovery_msg w b c =
    if ltb (length b) discovery_size
    then some []
    else (answer_discovery w b c >>= λ out.
        some (out ++ to_peers (try_p2p (w.text.print (ip_at 1 b))) ∷ []))

-- One entry of the table behind the header, if it lies in the buffer. The peers are only told that
-- there is a route.
unfoldable pub route_entry : List ℕ → Option (List Effect)
route_entry b =
    if ltb (length b) sys_route_entry_size
    then none
    else some (to_tun (sys_rt (slice 0 sys_route_entry_size b)) ∷ to_peers (sys_rt []) ∷ [])

-- The loop over `n` entries, from the place that it has reached.
unfoldable pub route_entries : ℕ → List ℕ → Option (List Effect)
route_entries zero b = some []
route_entries (suc n) b = do
  out ← route_entry b
  rest ← route_entries n (drop sys_route_entry_size b)
  some (out ++ rest)

unfoldable pub handle_route_msg : List ℕ → Option (List Effect)
handle_route_msg b =
    if ltb (length b) sys_route_size
    then some []
    else route_entries (get_or b 1 0) (drop sys_route_size b)

unfoldable pub conn_local_info : Endian → List ℕ → PubInfo
conn_local_info e b = record {
  src = ip_at 4 b;
  dst = ip_at 8 b;
  ip = ip_at 12 b;
  port = ntoh e 2 (load e (slice 16 2 b));
  is_local = true;
}

unfoldable pub handle_general_msg : World → List ℕ → WsClient → List Effect
handle_general_msg w b c =
    if ltb (length b) conn_local_size
    then []
    else to_peers (pub_info (conn_local_info w.endian b)) ∷ []

-- buffer.front() of a buffer that is not empty.
unfoldable pub handle_ws_msg : World → List ℕ → WsClient → Result
handle_ws_msg w b c =
    let kind = get_or b 0 0 in
    if kind == Kind.forward
    then some (c, handle_forward_msg w b c)
    else if kind == Kind.expt_tun
    then handle_expt_tun_msg w b c
    else if kind == Kind.udp4_conn
    then some (c, handle_udp4_conn_msg w b c)
    else if kind == Kind.discovery
    then keeping c (handle_discovery_msg w b c)
    else if kind == Kind.route
    then keeping c (handle_route_msg b)
    else if kind == Kind.general
    then some (c, handle_general_msg w b c)
    else some (c, [])
