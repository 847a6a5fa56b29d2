-- ===== src/Manager/Calls.antt =====
-- Every call of PeerManager that its threads and the other parts make, as one step.
use candy.Base.{ℕ, List, Option, some}
use candy.Base.Int.{ℤ}
use candy.Base.Results.{◌>>=◌}
use candy.Core.Message.{Msg}
use candy.Peer.State.{SocketAddress}
use candy.Manager.State.{World, Manager}
use candy.Manager.Settings.{
  set_password, set_discovery_interval, set_route_cost, set_port, set_localhost,
}
use candy.Manager.Queue.{handle_peer_queue, tick}
use candy.Manager.Receive.{receive}

pub data ManagerCall : Type 0 where
  takes : Msg → ManagerCall
  ticks : ManagerCall
  receives : List ℕ → SocketAddress → ManagerCall
  sets_password : List ℕ → ManagerCall
  sets_interval : ℤ → ManagerCall
  sets_route_cost : ℤ → ManagerCall
  sets_port : ℤ → ManagerCall
  sets_localhost : List ℕ → ManagerCall

-- The manager after a call; `none` is a read or write outside an object, or an exception.
unfoldable pub run_call : World → ManagerCall → Manager → Option Manager
run_call w (takes m) s = handle_peer_queue w m s >>= λ r. some r.0
run_call w ticks s = some (tick w s).0
run_call w (receives b a) s = receive w b a s >>= λ r. some r.0
run_call w (sets_password password) s = some (set_password password s)
run_call w (sets_interval interval) s = some (set_discovery_interval interval s)
run_call w (sets_route_cost cost) s = some (set_route_cost cost s)
run_call w (sets_port port) s = some (set_port port s)
run_call w (sets_localhost ip) s = set_localhost w ip s
