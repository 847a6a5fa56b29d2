-- ===== src/Server/State.antt =====
-- The state of WebSocketServer: connections, the map from addresses to them, and what was sent.
use candy.Base.{ℕ, Bool, List, [], ◌∷◌, ◌++◌, ◌==◌, if◌then◌else◌}
use candy.Base.Int.{ℤ, pos, negsuc}
use candy.Base.Map.{Map}
use candy.Net.Order.{Endian}
use candy.Net.Ip4.{Ip4, any}
use candy.Net.Address.{Address}
use candy.Net.Cidr.{IpText}

-- What the handlers call: SHA-256, IP addresses as text, the host's byte order, the clock.
pub record Env : Type 0 where
  pub sha256 : List ℕ → List ℕ
  pub text : IpText
  pub endian : Endian
  pub now : ℕ

-- One connection. Its number in the server's memory stands for the pointer and for its socket.
pub record WsCtx : Type 0 where
  pub buffer : List ℕ
  pub status : ℤ
  pub ip : Ip4
  pub vmac : List ℕ

pub record SysRoute : Type 0 where
  pub dev : Address
  pub dst : Address
  pub next : Ip4

-- A frame and the connection that it went to.
pub record Frame : Type 0 where
  pub receiver : ℕ
  pub payload : List ℕ

-- `live` says which contexts exist: each lives on the stack of its connection's thread. `broken`
-- says on which sockets sendFrame throws.
pub record Server : Type 0 where
  pub password : List ℕ
  pub dhcp : Address
  pub routes : List SysRoute
  pub ip_ctx_map : Map Ip4 ℕ
  pub ctxs : ℕ → WsCtx
  pub live : ℕ → Bool
  pub running : Bool
  pub broken : ℕ → Bool
  pub sent : List Frame

-- How a handler ends: it returns, it throws, or it writes outside an object.
pub data Outcome : Type 0 where
  finished thrown undefined : Outcome

abbrev pub Act : Type 0
Act = Server → Server × Outcome

infixl 5 ◌>>=◌
abbrev pub ◌>>=◌ : Server × Outcome → Act → Server × Outcome
(s, finished) >>= f = f s
(s, thrown) >>= f = (s, thrown)
(s, undefined) >>= f = (s, undefined)

abbrev pub finish : Act
finish s = (s, finished)

abbrev pub set_ctx : ℕ → WsCtx → Server → Server
set_ctx i c s = record s { ctxs = λ j. if i == j then c else s.ctxs j }

abbrev pub set_buffer : ℕ → List ℕ → Server → Server
set_buffer i b s = set_ctx i (record (s.ctxs i) { buffer = b }) s

-- ctx.status = -1
abbrev pub refuse : ℕ → Server → Server
refuse i s = set_ctx i (record (s.ctxs i) { status = negsuc 0 }) s

-- WsCtx::sendFrame
unfoldable pub send_frame : ℕ → List ℕ → Act
send_frame j b s =
    if s.broken j
    then (s, thrown)
    else (record s { sent = s.sent ++ record { receiver = j; payload = b } ∷ [] }, finished)

-- The loops that send one frame to every connection of the map that passes a test.
unfoldable pub send_each : (Ip4 → ℕ → Bool) → List ℕ → Map Ip4 ℕ → Act
send_each test b [] s = (s, finished)
send_each test b ((ip, j) ∷ m) s =
    (if test ip j then send_frame j b s else (s, finished)) >>= λ s'. send_each test b m s'

-- WsCtx ctx = {.ws = &ws};
abbrev pub fresh_ctx : WsCtx
fresh_ctx = record { buffer = []; status = pos 0; ip = any; vmac = [] }
