-- ===== src/Server/Sdwan.antt =====
-- WebSocketServer::setSdwan: the rules of the routes, read from a text.
use candy.Base.{ℕ, not, ◌||◌, List, [], ◌∷◌, ◌++◌, Option, none, some, if◌then◌else◌}
use candy.Base.Int.{ℤ, pos, negsuc, eqb_ℤ}
use candy.Base.Getline.{pieces}
use candy.Net.Ip4.{Ip4, ip_eq}
use candy.Net.Address.{Address, unset, net}
use candy.Net.Cidr.{IpText, Parsed, returns, overrun, from_cidr}
use candy.Net.Text.{from_string}
use candy.Server.State.{SysRoute, Server}

abbrev pub comma : ℕ
comma = b','

abbrev pub semicolon : ℕ
semicolon = b';'

-- How the reading of a rule ends: with a route, with a message about it, with an exception, or
-- with a write past a mask.
pub data Rule : Type 0 where
  rule : SysRoute → Rule
  invalid : Rule
  throws : Rule
  overruns : Rule

-- An address that must be the one of its network, then the rest.
unfoldable pub network_or : Parsed → (Address → Rule) → Rule
network_or overrun rest = overruns
network_or (returns a status) rest =
    if not (eqb_ℤ status (pos 0)) || not (ip_eq a.host (net a)) then invalid else rest a

unfoldable pub next_hop_of : Address → Address → Option Ip4 → Rule
next_hop_of dev dst none = throws
next_hop_of dev dst (some next) = rule (record { dev = dev; dst = dst; next = next })

unfoldable pub parse_next : IpText → Address → Address → List (List ℕ) → Rule
parse_next t dev dst [] = invalid
parse_next t dev dst (s ∷ ps) = next_hop_of dev dst (from_string t s)

unfoldable pub parse_dst : IpText → Address → List (List ℕ) → Rule
parse_dst t dev [] = invalid
parse_dst t dev (s ∷ ps) = network_or (from_cidr t unset s) (λ dst. parse_next t dev dst ps)

unfoldable pub parse_rule : IpText → List (List ℕ) → Rule
parse_rule t [] = invalid
parse_rule t (s ∷ ps) = network_or (from_cidr t unset s) (λ dev. parse_dst t dev ps)

-- The server with the rules that were read, and the status, unless an exception or a write past a
-- mask ends the call.
pub data Configured : Type 0 where
  configured : Server → ℤ → Configured
  aborted : Server → Configured
  corrupted : Configured

unfoldable pub add_rules : IpText → List (List ℕ) → Server → Configured
add_rules t [] s = configured s (pos 0)
add_rules t (r ∷ rs) s = elim (parse_rule t (pieces comma r)) [
  | rule rt ↦ add_rules t rs (record s { routes = s.routes ++ rt ∷ [] })
  | invalid ↦ configured s (negsuc 0)
  | throws ↦ aborted s
  | overruns ↦ corrupted
]

unfoldable pub set_sdwan : IpText → List ℕ → Server → Configured
set_sdwan t [] s = configured s (pos 0)
set_sdwan t (c ∷ text) s = add_rules t (pieces semicolon (c ∷ text)) s
