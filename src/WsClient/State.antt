-- ===== src/WsClient/State.antt =====
-- The state of a WebSocketClient, what its calls see of the world, and what they do. The settings.
use candy.Base.{ℕ, Bool, List, [], ◌∷◌, Option, none, some}
use candy.Net.Order.{Endian}
use candy.Net.Address.{Address, unset}
use candy.Net.Cidr.{IpText, Parsed, returns, overrun, from_cidr}
use candy.Core.Message.{Msg}

-- `unix_time` is in seconds, `boot_time` in milliseconds. `p2p_only` is the client's setting.
pub record World : Type 0 where
  pub sha256 : List ℕ → List ℕ
  pub text : IpText
  pub endian : Endian
  pub unix_time : ℕ
  pub boot_time : ℕ
  pub p2p_only : Bool

-- `has_ws` says whether the pointer to the socket is set.
pub record WsClient : Type 0 where
  pub has_ws : Bool
  pub ping_message : List ℕ
  pub timestamp : ℕ
  pub server_uri : List ℕ
  pub expt_tun_cidr : List ℕ
  pub tun_cidr : List ℕ
  pub vmac : List ℕ
  pub name : List ℕ
  pub password : List ℕ

-- Frames to the server, and messages to the queues of the other parts.
pub data Effect : Type 0 where
  frame : List ℕ → Effect
  ping : List ℕ → Effect
  pong : List ℕ → Effect
  to_tun : Msg → Effect
  to_peers : Msg → Effect

-- A call that reads or writes outside an object has no result.
abbrev pub Result : Type 0
Result = Option (WsClient × List Effect)

unfoldable pub set_name : List ℕ → WsClient → WsClient
set_name name c = record c { name = name }

unfoldable pub set_password : List ℕ → WsClient → WsClient
set_password password c = record c { password = password }

unfoldable pub set_ws_server_uri : List ℕ → WsClient → WsClient
set_ws_server_uri uri c = record c { server_uri = uri }

unfoldable pub set_expt_tun_address : List ℕ → WsClient → WsClient
set_expt_tun_address cidr c = record c { expt_tun_cidr = cidr }

unfoldable pub set_address : List ℕ → WsClient → WsClient
set_address cidr c = record c { tun_cidr = cidr }

unfoldable pub set_virtual_mac : List ℕ → WsClient → WsClient
set_virtual_mac vmac c = record c { vmac = vmac }

abbrev pub address_of : Parsed → Option Address
address_of (returns a status) = some a
address_of overrun = none

-- Address(cidr): text that cannot be read leaves what was read of it; an empty text is not read.
unfoldable pub new_address : IpText → List ℕ → Option Address
new_address t [] = some unset
new_address t (c ∷ cidr) = address_of (from_cidr t unset (c ∷ cidr))
