-- ===== src/Server/Routes.antt =====
-- WebSocketServer::updateSysRoute: the routes that concern a client, in batches.
use candy.Base.{ℕ, ◌+◌, ◌%◌, Bool, List, [], ◌∷◌, ◌++◌, ltb, if◌then◌else◌, get_or, take}
use candy.Base.Buffer.{put}
use candy.Net.Ip4.{Ip4, raw, ip_and, ip_eq}
use candy.Net.Address.{net}
use candy.Message.Kind
use candy.Message.Layout.{sys_route_size}
use candy.Server.State.{SysRoute, Server, finished, Act, ◌>>=◌, set_buffer, send_frame}

-- A SysRouteEntry.
unfoldable pub entry : SysRoute → List ℕ
entry rt = raw (net rt.dst) ++ (raw rt.dst.mask ++ raw rt.next)

unfoldable pub concerns : Ip4 → SysRoute → Bool
concerns ip rt = ip_eq (ip_and rt.dev.mask ip) rt.dev.host

-- header->size
abbrev pub size_of : List ℕ → ℕ
size_of b = get_or b 1 0

-- append, and header->size += 1 on the byte
abbrev pub add_entry : SysRoute → List ℕ → List ℕ
add_entry rt b = put 1 ((size_of b + 1) % 256 ∷ []) (b ++ entry rt)

abbrev pub buffer_of : ℕ → Server → List ℕ
buffer_of i s = (s.ctxs i).buffer

-- resize, and header->size = 0
unfoldable pub restart : ℕ → Act
restart i s = (set_buffer i (put 1 (0 ∷ []) (take sys_route_size (buffer_of i s))) s, finished)

-- A batch of more than 100 entries is sent, and the next one begun.
unfoldable pub flush_full : ℕ → Act
flush_full i s =
    if ltb 100 (size_of (buffer_of i s))
    then (send_frame i (buffer_of i s) s >>= restart i)
    else (s, finished)

unfoldable pub send_routes : ℕ → List SysRoute → Act
send_routes i [] s =
    if ltb 0 (size_of (buffer_of i s)) then send_frame i (buffer_of i s) s else (s, finished)
send_routes i (rt ∷ rts) s =
    flush_full i
      (if concerns (s.ctxs i).ip rt then set_buffer i (add_entry rt (buffer_of i s)) s else s)
    >>= λ s'. send_routes i rts s'

unfoldable pub update_sys_route : ℕ → Act
update_sys_route i s = send_routes i s.routes (set_buffer i (Kind.route ∷ 0 ∷ 0 ∷ 0 ∷ []) s)
