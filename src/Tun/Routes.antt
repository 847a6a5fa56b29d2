-- ===== src/Tun/Routes.antt =====
-- handleSysRt and setSysRtTable of candy/src/tun/tun.cc.
use candy.Base.{ℕ, List, [], ◌∷◌, ◌++◌, if◌then◌else◌}
use candy.Base.Int.{ℤ, pos, negsuc, eqb_ℤ}
use candy.Net.Ip4.{ip_eq}
use candy.Message.Layout.{ip_at}
use candy.Tun.Flows.{Tun, SysRouteEntry}

-- The system's status for a new route is the parameter.
unfoldable pub set_sys_rt_table : (SysRouteEntry → ℤ) → SysRouteEntry → Tun → Tun × ℤ
set_sys_rt_table system entry s =
    (record s { sys_rt_table = s.sys_rt_table ++ entry ∷ [] }, system entry)

abbrev pub failed_if : Tun × ℤ → Tun × ℤ
failed_if (s, status) = (s, (if eqb_ℤ status (pos 0) then pos 0 else negsuc 0))

unfoldable pub handle_sys_rt : (SysRouteEntry → ℤ) → List ℕ → Tun → Tun × ℤ
handle_sys_rt system b s =
    let entry : SysRouteEntry = record { dst = ip_at 0 b; mask = ip_at 4 b; nexthop = ip_at 8 b } in
    if ip_eq entry.nexthop s.address
    then (s, pos 0)
    else failed_if (set_sys_rt_table system entry s)
