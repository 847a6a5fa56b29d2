-- ===== src/Manager/TableLaws.antt =====
-- What an update does to the routes that there are.
use candy.Base.{
  ◌≡◌, ◌≢◌, refl, sym, ap, ◌∙◌, subst, inl, inr, true, false, [], ◌∷◌, Option, none, some,
  if◌then◌else◌, arith, Bool-cases,
}
use candy.Base.Int.{ℤ, ◌+ℤ◌, ◌≤ℤ◌}
use candy.Base.Map.{Map, lookup, lookup-assign}
use candy.Net.Ip4.{Ip4, ip_eq, ip_eq_iff, ip4_eq}
use mathlib.Core.Bool.{false≢true}
use candy.Manager.Table.{
  PeerRouteEntry, drop_via, improves, offer_route, extend, update_rt_table, is_delete,
}

module _ (cost : ℤ) where
  -- One entry of the loop.
  drop_via-step :
      (n k j : Ip4) (s : PeerRouteEntry) (m : Map Ip4 PeerRouteEntry)
      → lookup k (drop_via cost n ((j, s) ∷ m)).0 ≡ (
          if ip_eq s.next n
          then lookup k (drop_via cost n m).0
          else if ip_eq j k
          then some s
          else lookup k (drop_via cost n m).0)
  unfolding lookup drop_via
  drop_via-step n k j s m = elim (Bool-cases (ip_eq s.next n)) [
    | inl over ↦ rw over refl
    | inr other ↦ rw other refl
  ]

  lookup-cons :
      (k j : Ip4) (s : PeerRouteEntry) (m : Map Ip4 PeerRouteEntry)
      → lookup k ((j, s) ∷ m) ≡ (if ip_eq j k then some s else lookup k m)
  unfolding lookup
  lookup-cons k j s m = refl

  drop_via-next :
      (n k : Ip4) (r : PeerRouteEntry) (m : Map Ip4 PeerRouteEntry)
      → lookup k (drop_via cost n m).0 ≡ some r
      → ip_eq r.next n ≡ false
  drop_via-next n k r [] h = unfold lookup drop_via in cc
  drop_via-next n k r ((j, s) ∷ m) h = elim (Bool-cases (ip_eq s.next n)) [
    | inl over ↦ drop_via-next n k r m (ground (arith, drop_via-step n k j s m, h, over))
    | inr other ↦ elim (Bool-cases (ip_eq j k)) [
      | inl here ↦
          let e : s ≡ r = ground (arith, drop_via-step n k j s m, h, other, here) in
          ap (λ x. ip_eq x.next n) (sym e) ∙ other
      | inr there ↦ drop_via-next n k r m (ground (arith, drop_via-step n k j s m, h, other, there))
    ]
  ]

  lookup-drop_via :
      (n k : Ip4) (r : PeerRouteEntry) (m : Map Ip4 PeerRouteEntry)
      → lookup k m ≡ some r
      → ip_eq r.next n ≡ false
      → lookup k (drop_via cost n m).0 ≡ some r
  lookup-drop_via n k r [] h ne = unfold lookup in cc
  lookup-drop_via n k r ((j, s) ∷ m) h ne = elim (Bool-cases (ip_eq j k)) [
    | inl here ↦
        let e : s ≡ r = ground (arith, lookup-cons k j s m, h, here) in
        drop_via-step n k j s m ∙ rw (ap (λ x. ip_eq x.next n) e ∙ ne, here) (ap some e)
    | inr there ↦
        let ih = lookup-drop_via n k r m (ground (arith, lookup-cons k j s m, h, there)) ne in
        elim (Bool-cases (ip_eq s.next n)) [
          | inl over ↦ drop_via-step n k j s m ∙ rw over ih
          | inr other ↦ drop_via-step n k j s m ∙ rw (other, there) ih
        ]
  ]

  lost :
      (n : Ip4) (rtt : ℤ) (m : Map Ip4 PeerRouteEntry)
      → is_delete rtt ≡ true
      → update_rt_table cost (record { dst = n; next = n; rtt = rtt }) m ≡ drop_via cost n m
  unfolding update_rt_table
  lost n rtt m h = rw ((ip_eq_iff n n).1 refl, h) refl

  -- When a peer is lost (a direct entry whose time is negative or over 1000), no route of the new
  -- table goes over it.
  pub lost_peer_is_forgotten :
      (n k : Ip4) (rtt : ℤ) (r : PeerRouteEntry) (m : Map Ip4 PeerRouteEntry)
      → is_delete rtt ≡ true
      → lookup k (update_rt_table cost (record { dst = n; next = n; rtt = rtt }) m).0 ≡ some r
      → r.next ≢ n
  lost_peer_is_forgotten n k rtt r m h found same =
      let none_over =
        drop_via-next n k r m (sym (ap (λ u. lookup k u.0) (lost n rtt m h)) ∙ found) in
      absurd (false≢true (sym none_over ∙ (ip_eq_iff r.next n).1 same))

  -- When a peer is lost, a route over another peer stays as it is.
  pub other_routes_stay :
      (n k : Ip4) (rtt : ℤ) (r : PeerRouteEntry) (m : Map Ip4 PeerRouteEntry)
      → is_delete rtt ≡ true
      → lookup k m ≡ some r
      → r.next ≢ n
      → lookup k (update_rt_table cost (record { dst = n; next = n; rtt = rtt }) m).0 ≡ some r
  other_routes_stay n k rtt r m h found ne =
      ap (λ u. lookup k u.0) (lost n rtt m h)
      ∙ lookup-drop_via n k r m found (ground (arith, ip_eq_iff r.next n))

  -- A route that is no slower than `old`.
  abbrev pub NoWorse : Ip4 → PeerRouteEntry → Map Ip4 PeerRouteEntry → Type 0
  NoWorse k old m = (r : PeerRouteEntry) × (lookup k m ≡ some r) × (r.rtt ≤ℤ old.rtt)

  improves_lem :
      (old : PeerRouteEntry) (n : Ip4) (rtt : ℤ)
      → improves cost (some old) n rtt ≡ true
      → ip_eq old.next n ≡ false
      → rtt ≤ℤ old.rtt
  unfolding improves
  improves_lem old n rtt h ne = ground arith

  faster :
      (entry old : PeerRouteEntry) (k : Ip4) (m : Map Ip4 PeerRouteEntry)
      → lookup k m ≡ some old
      → ip_eq old.next entry.next ≡ false
      → ip_eq entry.dst k ≡ true
      → improves cost (lookup entry.dst m) entry.next entry.rtt ≡ true
      → entry.rtt ≤ℤ old.rtt
  faster entry old k m found ne here better =
      improves_lem old entry.next entry.rtt
        (subst (λ o. improves cost o entry.next entry.rtt ≡ true)
          (ap (λ x. lookup x m) ((ip_eq_iff entry.dst k).0 here) ∙ found) better)
        ne

  offer_route-NoWorse :
      (entry old : PeerRouteEntry) (k : Ip4) (m : Map Ip4 PeerRouteEntry)
      → lookup k m ≡ some old
      → ip_eq old.next entry.next ≡ false
      → NoWorse k old (offer_route cost entry m).0
  unfolding offer_route
  offer_route-NoWorse entry old k m found ne =
      elim (Bool-cases (improves cost (lookup entry.dst m) entry.next entry.rtt)) [
        | inr kept ↦ rw kept (old, found, omega arith)
        | inl better ↦ rw better (elim (Bool-cases (ip_eq entry.dst k)) [
          | inl here ↦ (
            entry,
            lookup-assign entry.dst k entry m ∙ rw here refl,
            faster entry old k m found ne here better,
          )
          | inr there ↦ (old, lookup-assign entry.dst k entry m ∙ rw there found, omega arith)
        ])
      ]

  extend-NoWorse :
      (entry old : PeerRouteEntry) (k : Ip4) (o : Option PeerRouteEntry)
      (m : Map Ip4 PeerRouteEntry)
      → lookup k m ≡ some old
      → ip_eq old.next entry.next ≡ false
      → NoWorse k old (extend cost entry o m).0
  unfolding extend
  extend-NoWorse entry old k none m found ne = (old, found, omega arith)
  extend-NoWorse entry old k (some direct) m found ne =
      offer_route-NoWorse (record entry { rtt = direct.rtt +ℤ entry.rtt }) old k m found ne

  -- An entry whose time is between 0 and 1000 leaves every route that goes over another peer than
  -- the entry's: it is in the new table, or a route to the same client that is no slower.
  pub routes_get_no_worse :
      (entry old : PeerRouteEntry) (k : Ip4) (m : Map Ip4 PeerRouteEntry)
      → is_delete entry.rtt ≡ false
      → lookup k m ≡ some old
      → old.next ≢ entry.next
      → (r : PeerRouteEntry) × (lookup k (update_rt_table cost entry m).0 ≡ some r)
        × (r.rtt ≤ℤ old.rtt)
  unfolding update_rt_table
  routes_get_no_worse entry old k m kept found ne = elim (Bool-cases (ip_eq entry.dst entry.next)) [
    | inl direct ↦ rw (direct, kept) (offer_route-NoWorse entry old k m found other)
    | inr over ↦ rw (over, kept) (extend-NoWorse entry old k (lookup entry.next m) m found other)
  ]
    where
      other : ip_eq old.next entry.next ≡ false
      other = ground (arith, ip_eq_iff old.next entry.next)
