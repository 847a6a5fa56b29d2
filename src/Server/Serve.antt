-- ===== src/Server/Serve.antt =====
-- WebSocketServer::handleMsg, handleWebsocket and shutdown: one connection's life, and the steps in
-- which the connections' threads interleave.
use candy.Base.{
  ℕ, true, false, ◌&&◌, List, [], ◌∷◌, Option, none, some, ◌==◌, if◌then◌else◌, get_or,
}
use candy.Base.Int.{pos, eqb_ℤ}
use candy.Base.Map.{Map, lookup, erase}
use candy.Net.Ip4.{Ip4, ip4_eq}
use candy.Message.Kind
use candy.Server.State.{
  Env, Server, Outcome, finished, thrown, undefined, Act, set_ctx, set_buffer, send_frame,
  fresh_ctx,
}
use candy.Server.Handlers.{
  handle_auth_msg, handle_forward_msg, handle_expt_tun_msg, handle_udp4_conn_msg, handle_vmac_msg,
  handle_discovery_msg, handle_general_msg,
}

unfoldable pub handle_msg : Env → ℕ → Act
handle_msg env i s =
    let kind = get_or (s.ctxs i).buffer 0 0 in
    if kind == Kind.auth
    then handle_auth_msg env i s
    else if kind == Kind.forward
    then handle_forward_msg env i s
    else if kind == Kind.expt_tun
    then handle_expt_tun_msg env i s
    else if kind == Kind.udp4_conn
    then handle_udp4_conn_msg i s
    else if kind == Kind.vmac
    then handle_vmac_msg env i s
    else if kind == Kind.discovery
    then handle_discovery_msg i s
    else if kind == Kind.general
    then handle_general_msg i s
    else (s, finished)

-- What receiveFrame brings: a ping, with the buffer of 1500 bytes that answers it; a close frame or
-- an empty one; a binary frame that is not empty; any other frame; a timeout; another exception.
pub data Event : Type 0 where
  ping : List ℕ → Event
  close : Event
  binary : ℕ → List ℕ → Event
  other_frame : Event
  timeout : Event
  failure : Event

-- The map without the connection, if the entry under its address is its own.
unfoldable pub without : ℕ → Ip4 → Option ℕ → Map Ip4 ℕ → Map Ip4 ℕ
without i ip none m = m
without i ip (some j) m = if j == i then erase ip m else m

-- The block behind the loop; then the context is gone.
unfoldable pub disconnect : ℕ → Server → Server
disconnect i s =
    let ip = (s.ctxs i).ip in
    let kept = without i ip (lookup ip s.ip_ctx_map) s.ip_ctx_map in
    record s { ip_ctx_map = kept; live = λ j. if i == j then false else s.live j }

-- A handler that throws ends the connection; a timeout, after which the loop goes on, is not told
-- apart. Behind undefined behaviour the connection goes on with the server as it was then.
abbrev pub after : ℕ → Server × Outcome → Server
after i (s, finished) = s
after i (s, thrown) = disconnect i s
after i (s, undefined) = s

unfoldable pub handle_event : Env → ℕ → Event → Server → Server
handle_event env i (ping b) s = after i (send_frame i b s)
handle_event env i close s = disconnect i s
handle_event env i (binary c b) s = after i (handle_msg env i (set_buffer i (c ∷ b) s))
handle_event env i other_frame s = s
handle_event env i timeout s = s
handle_event env i failure s = disconnect i s

-- One round of the loop, with its condition in front.
unfoldable pub serve : Env → ℕ → Event → Server → Server
serve env i ev s =
    if s.running && eqb_ℤ (s.ctxs i).status (pos 0) then handle_event env i ev s else disconnect i s

unfoldable pub connect : ℕ → Server → Server
connect i s = record (set_ctx i fresh_ctx s) { live = λ j. if i == j then true else s.live j }

unfoldable pub shutdown : Server → Server
shutdown s = record s { running = false; routes = [] }
