-- ===== src/Manager/Settings.antt =====
-- The settings of PeerManager.
use candy.Base.{ℕ, ◌&&◌, List, Option, none, some, if◌then◌else◌, leb, ltb}
use candy.Base.Int.{ℤ, pos, negsuc, ltb_ℤ}
use candy.Net.Text.{from_string}
use candy.Manager.State.{World, Manager}

unfoldable pub set_password : List ℕ → Manager → Manager
set_password password s = record s { password = password }

unfoldable pub set_discovery_interval : ℤ → Manager → Manager
set_discovery_interval interval s = record s { discovery_interval = interval }

unfoldable pub set_route_cost : ℤ → Manager → Manager
set_route_cost cost s =
    if ltb_ℤ cost (pos 0)
    then record s { route_cost = pos 0 }
    else if ltb_ℤ (pos 1000) cost
    then record s { route_cost = pos 1000 }
    else record s { route_cost = cost }

-- UINT16_MAX
abbrev pub max_port : ℕ
max_port = 65535

unfoldable pub set_port : ℤ → Manager → Manager
set_port (pos port) s =
    if ltb 0 port && leb port max_port then record s { listen_port = port } else s
set_port (negsuc n) s = s

-- A text that is no address throws.
unfoldable pub set_localhost : World → List ℕ → Manager → Option Manager
set_localhost w ip s = elim (from_string w.text ip) [
  | none ↦ none
  | some a ↦ some (record s { localhost = a })
]
