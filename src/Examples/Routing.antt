-- ===== src/Examples/Routing.antt =====
-- The table of routes at concrete inputs.
use candy.Base.{◌≡◌, refl, [], ◌∷◌, some, arith}
use candy.Base.Int.{pos, ◌≤ℤ◌}
use candy.Base.Map.{Map, lookup}
use candy.Net.Ip4.{Ip4, ip4_eq}
use candy.Manager.Table.{PeerRouteEntry, update_rt_table, is_delete}
use candy.Manager.TableLaws.{routes_get_no_worse}
use candy.Examples.Data.{laptop}

abbrev phone : Ip4
phone = record { raw0 = 192; raw1 = 168; raw2 = 202; raw3 = 9 }

abbrev to_laptop : PeerRouteEntry
to_laptop = record { dst = laptop; next = laptop; rtt = pos 20 }

abbrev to_phone : PeerRouteEntry
to_phone = record { dst = phone; next = laptop; rtt = pos 70 }

abbrev routes : Map Ip4 PeerRouteEntry
routes = (laptop, to_laptop) ∷ ((phone, to_phone) ∷ [])

abbrev offered : PeerRouteEntry
offered = record { dst = phone; next = phone; rtt = pos 90 }

routes_get_no_worse_example :
    (r : PeerRouteEntry) × (lookup phone (update_rt_table (pos 1) offered routes).0 ≡ some r)
    × (r.rtt ≤ℤ pos 70)
unfolding is_delete lookup
routes_get_no_worse_example =
    routes_get_no_worse (pos 1) offered to_phone phone routes refl refl (λ e. ground arith)
