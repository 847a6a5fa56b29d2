-- ===== src/Server/Alloc.antt =====
-- The choice of a dynamic address in WebSocketServer::handleExptTunMsg.
use candy.Base.{ℕ, zero, suc, Bool, true, false, not, ◌&&◌, none, some, if◌then◌else◌}
use candy.Base.Buffer.{same}
use candy.Base.Map.{Map, lookup}
use candy.Net.Order.{Endian}
use candy.Net.Ip4.{Ip4, ip_eq, ip4_eq}
use candy.Net.Address.{Address, net, next, is_valid}
use candy.Server.State.{Server}

-- ipCtxMap.find(ip) != ipCtxMap.end()
abbrev pub taken : Ip4 → Map Ip4 ℕ → Bool
taken ip m = elim (lookup ip m) [ none ↦ false | some j ↦ true ]

-- Whether the address that connection `i` asks for can be used as it is.
unfoldable pub direct : ℕ → Address → Server → Bool
direct i a s =
    if not (ip_eq (net s.dhcp) (net a)) then false else elim (lookup a.host s.ip_ctx_map) [
      | none ↦ true
      | some j ↦ same (s.ctxs i).vmac (s.ctxs j).vmac
    ]

pub data Choice : Type 0 where
  found : Address → Choice
  exhausted : Choice
  no_fuel : Choice

-- The do-while loop, from the address that the last round left.
unfoldable pub choose : ℕ → Endian → Address → Map Ip4 ℕ → Address → Choice
choose zero e dhcp m a = no_fuel
choose (suc fuel) e dhcp m a =
    let a' = next e a in
    let rest = choose fuel e dhcp m a' in
    if ip_eq a'.host dhcp.host
    then exhausted
    else if not (is_valid e a') && taken a'.host m
    then rest
    else found a'
