-- ===== src/WsClient/Loop.antt =====
-- handleWsConn, run and connect of WebSocketClient.
use candy.Base.{ℕ, ◌+◌, Bool, true, false, List, [], ◌∷◌, ◌++◌, Option, some, if◌then◌else◌, ltb}
use candy.Base.Int.{ℤ, pos, negsuc}
use candy.Base.Results.{◌>>=◌}
use candy.WsClient.State.{World, WsClient, Effect, pong}
use candy.WsClient.Send.{
  send_if, send_ping_message, send_virtual_mac_msg, send_expt_tun_msg, send_auth_msg,
}
use candy.WsClient.Handlers.{handle_ws_msg}

-- What poll and receiveFrame bring: nothing within a second, an error of the socket, an empty frame
-- without flags, a ping or pong or close frame, another frame, which is a message unless it is
-- empty, or an exception.
pub data Received : Type 0 where
  nothing : Received
  failed : Received
  abnormal : Received
  ping_frame : List ℕ → Received
  pong_frame : Received
  close_frame : Received
  empty_frame : Received
  message : List ℕ → Received
  throws : Received

-- The limits in milliseconds.
abbrev pub pong_limit : ℕ
pong_limit = 30000

abbrev pub ping_interval : ℕ
ping_interval = 15000

-- bootTime() - timestamp > limit
abbrev pub silent_for : World → ℕ → WsClient → Bool
silent_for w limit c = ltb (c.timestamp + limit) w.boot_time

-- One call: the client, what it sends, and the status, which ends the loop if it is not 0.
abbrev pub Round : Type 0
Round = Option (WsClient × List Effect × ℤ)

abbrev pub ends : WsClient → Round
ends c = some (c, [], negsuc 0)

abbrev pub heard : World → WsClient → WsClient
heard w c = record c { timestamp = w.boot_time }

abbrev pub goes_on : WsClient × List Effect → Round
goes_on (c, out) = some (c, out, pos 0)

unfoldable pub handle_ws_conn : World → Received → WsClient → Round
handle_ws_conn w nothing c =
    if silent_for w pong_limit c
    then ends c
    else goes_on (c, (if silent_for w ping_interval c then send_ping_message c else []))
handle_ws_conn w failed c = ends c
handle_ws_conn w abnormal c = ends c
handle_ws_conn w (ping_frame b) c = goes_on (heard w c, send_if (heard w c) (pong b))
handle_ws_conn w pong_frame c = goes_on (heard w c, [])
handle_ws_conn w close_frame c = ends c
handle_ws_conn w empty_frame c = goes_on (c, [])
handle_ws_conn w (message b) c = handle_ws_msg w b (heard w c) >>= goes_on
handle_ws_conn w throws c = ends c

-- connect: what the library gives is a socket or nothing; `greeting` is the text about the system.
unfoldable pub connect : World → List ℕ → Bool → WsClient → WsClient × ℤ
connect w greeting opened c =
    if opened
    then (record c { has_ws = true; timestamp = w.boot_time; ping_message = greeting }, pos 0)
    else (c, negsuc 0)

abbrev is_empty : List ℕ → Bool
is_empty [] = true
is_empty (x ∷ xs) = false

-- What run sends before the threads start.
unfoldable pub first_messages : World → WsClient → Option (List Effect)
first_messages w c =
    ((if is_empty c.tun_cidr then send_expt_tun_msg w c else send_auth_msg w c) >>= λ out.
    some (send_virtual_mac_msg w c ++ out))

unfoldable pub after_connect : World → WsClient × ℤ → Round
after_connect w (c, pos n) = first_messages w c >>= λ out. some (c, out, pos 0)
after_connect w (c, negsuc n) = ends c

unfoldable pub run : World → List ℕ → Bool → WsClient → Round
run w greeting opened c = after_connect w (connect w greeting opened c)
