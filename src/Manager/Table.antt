-- ===== src/Manager/Table.antt =====
-- updateRtTable and the message of sendRtMessage in candy/src/peer/manager.cc. A round trip time is
-- an integer here; the source's is an int32_t.
use candy.Base.{Bool, true, ◌||◌, List, [], ◌∷◌, Option, none, some, if◌then◌else◌}
use candy.Base.Int.{ℤ, pos, ltb_ℤ, eqb_ℤ, ◌+ℤ◌}
use candy.Base.Map.{Map, lookup, assign, erase}
use candy.Net.Ip4.{Ip4, ip_eq, ip4_eq}
use candy.Peer.State.{rtt_limit}

pub record PeerRouteEntry : Type 0 where
  pub dst : Ip4
  pub next : Ip4
  pub rtt : ℤ

-- What sendRtMessage tells every connected peer.
pub record Announcement : Type 0 where
  pub about : Ip4
  pub delay : ℤ

-- The cost of this client is added, but to a route that is gone.
unfoldable pub announce : ℤ → Ip4 → ℤ → Announcement
announce cost dst rtt = record {
  about = dst;
  delay = if eqb_ℤ rtt rtt_limit then rtt else rtt +ℤ cost;
}

abbrev pub Updated : Type 0
Updated = Map Ip4 PeerRouteEntry × List Announcement

unfoldable pub is_delete : ℤ → Bool
is_delete rtt = ltb_ℤ rtt (pos 0) || ltb_ℤ (pos 1000) rtt

module _ (cost : ℤ) where
  -- The loop that erases every route over a peer.
  unfoldable pub drop_via : Ip4 → Map Ip4 PeerRouteEntry → Updated
  drop_via n [] = ([], [])
  drop_via n ((k, r) ∷ m) =
      let rest = drop_via n m in
      if ip_eq r.next n
      then (rest.0, announce cost r.dst rtt_limit ∷ rest.1)
      else ((k, r) ∷ rest.0, rest.1)

  -- No route yet, a route over the same peer, or a slower one.
  unfoldable pub improves : Option PeerRouteEntry → Ip4 → ℤ → Bool
  improves none n rtt = true
  improves (some old) n rtt = ip_eq old.next n || ltb_ℤ rtt old.rtt

  unfoldable pub offer_route : PeerRouteEntry → Map Ip4 PeerRouteEntry → Updated
  offer_route entry m =
      if improves (lookup entry.dst m) entry.next entry.rtt
      then (assign entry.dst entry m, announce cost entry.dst entry.rtt ∷ [])
      else (m, [])

  unfoldable pub withdraw :
      PeerRouteEntry → Option PeerRouteEntry → Map Ip4 PeerRouteEntry → Updated
  withdraw entry none m = (m, [])
  withdraw entry (some old) m =
      if ip_eq old.next entry.next
      then (erase entry.dst m, announce cost old.dst rtt_limit ∷ [])
      else (m, [])

  -- A route over a peer costs the way to that peer too.
  unfoldable pub extend : PeerRouteEntry → Option PeerRouteEntry → Map Ip4 PeerRouteEntry → Updated
  extend entry none m = (m, [])
  extend entry (some direct) m = offer_route (record entry { rtt = direct.rtt +ℤ entry.rtt }) m

  unfoldable pub update_rt_table : PeerRouteEntry → Map Ip4 PeerRouteEntry → Updated
  update_rt_table entry m =
      if ip_eq entry.dst entry.next
      then (if is_delete entry.rtt then drop_via entry.next m else offer_route entry m)
      else if is_delete entry.rtt
      then withdraw entry (lookup entry.dst m) m
      else extend entry (lookup entry.next m) m
