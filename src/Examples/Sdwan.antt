-- ===== src/Examples/Sdwan.antt =====
-- setSdwan of websocket/server.cc at a concrete input.
use candy.Base.{◌≡◌, refl, [], ◌∷◌, arith}
use candy.Base.Int.{pos}
use candy.Net.Ip4.{ip_and}
use candy.Net.Address.{Address, net}
use candy.Net.Cidr.{to_cidr}
use candy.Server.State.{SysRoute}
use candy.Server.Sdwan.{set_sdwan, configured}
use candy.Server.Rules.{print_rule, print_rules, IsNetwork, IsRule, set_sdwan-print_rules}
use candy.Examples.Serving.{start}
use candy.Examples.Data.{mask24, mask24-IsMask, gateway, text, text-IpTextLaws}

abbrev clients : Address
clients = record { host = record { raw0 = 192; raw1 = 168; raw2 = 202; raw3 = 0 }; mask = mask24 }

abbrev office : Address
office = record { host = record { raw0 = 10; raw1 = 0; raw2 = 0; raw3 = 0 }; mask = mask24 }

abbrev way : SysRoute
way = record { dev = clients; dst = office; next = gateway }

clients-IsNetwork : IsNetwork clients
unfolding net ip_and
clients-IsNetwork = record { prefix = 24; mask_ones = mask24-IsMask; host_is = refl }

office-IsNetwork : IsNetwork office
unfolding net ip_and
office-IsNetwork = record { prefix = 24; mask_ones = mask24-IsMask; host_is = refl }

way-IsRule : IsRule text way
unfolding print_rule to_cidr
way-IsRule = record {
  dev_network = clients-IsNetwork;
  dst_network = office-IsNetwork;
  dev_plain = ground arith;
  dst_plain = ground arith;
  next_plain = ground arith;
  next_text = λ e. ground arith;
  rule_plain = ground arith;
}

set_sdwan-print_rules_example :
    set_sdwan text (print_rules text (way ∷ [])) start
    ≡ configured (record start { routes = way ∷ [] }) (pos 0)
set_sdwan-print_rules_example =
    set_sdwan-print_rules text text-IpTextLaws (way ∷ []) start (way-IsRule, tt)
