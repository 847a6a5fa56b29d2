-- ===== src/Server/Settings.antt =====
-- WebSocketServer::setPassword and setDHCP.
use candy.Base.{ℕ, List, [], ◌∷◌}
use candy.Base.Int.{pos}
use candy.Net.Cidr.{IpText, Parsed, returns, from_cidr}
use candy.Server.State.{Server}

unfoldable pub set_password : List ℕ → Server → Server
set_password password s = record s { password = password }

-- The address that the server has afterwards, with the status.
unfoldable pub set_dhcp : IpText → List ℕ → Server → Parsed
set_dhcp t [] s = returns s.dhcp (pos 0)
set_dhcp t (c ∷ cidr) s = from_cidr t s.dhcp (c ∷ cidr)
