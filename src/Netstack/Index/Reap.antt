-- ===== src/Netstack/Index/Reap.antt =====
-- The index of the endpoints in UdpMux.reap of udpmux.cc.
use candy.Base.{
  ℕ, ◌+◌, ◌≡◌, ◌≢◌, ◌⊎◌, refl, sym, ap, ◌∙◌, subst, true, List, [], ◌∷◌, none, some, inl, inr,
  Bool-cases, arith, ◌==◌, ==_iff, nat_eq, ltb,
}
use candy.Base.Buffer.{bytes_eq}
use candy.Base.Map.{Map, lookup, Distinct}
use candy.Netstack.Mux.{OwnerEntry, endpoint_idle, or_empty, unlink, reap_endpoints}
use candy.Netstack.Index.{has, Lists, has-unlink}

absent_cons :
    (k j : ℕ) (e : OwnerEntry) (eo : Map ℕ OwnerEntry)
    → lookup j ((k, e) ∷ eo) ≡ none
    → (k ≢ j) × (lookup j eo ≡ none)
unfolding lookup
absent_cons k j e eo h = ground (arith, ==_iff k j)

pub reap_endpoints-has :
    (now : ℕ) (eo : Map ℕ OwnerEntry) (ix : Map (List ℕ) (List ℕ)) (owner : List ℕ) (j : ℕ)
    → lookup j eo ≡ none
    → has j (or_empty (lookup owner ix)) ≡ true
    → has j (or_empty (lookup owner (reap_endpoints now eo ix).1)) ≡ true
unfolding reap_endpoints lookup
reap_endpoints-has now [] ix owner j absent h = h
reap_endpoints-has now ((k, e) ∷ eo) ix owner j absent h =
    let (ne, absent') = absent_cons k j e eo absent in
    elim (Bool-cases (ltb (e.last_active + endpoint_idle) now)) [
      | inl idle ↦ rw idle (
          reap_endpoints-has now eo (unlink e.owner k (lookup e.owner ix) ix) owner j absent'
            (has-unlink e.owner owner k j ix ne h))
      | inr busy ↦ rw busy (reap_endpoints-has now eo ix owner j absent' h)
    ]

pub reap_endpoints-lookup :
    (now : ℕ) (eo : Map ℕ OwnerEntry) (ix : Map (List ℕ) (List ℕ)) (j : ℕ)
    → lookup j eo ≡ none
    → lookup j (reap_endpoints now eo ix).0 ≡ none
unfolding reap_endpoints lookup
reap_endpoints-lookup now [] ix j absent = refl
reap_endpoints-lookup now ((k, e) ∷ eo) ix j absent =
    let (ne, absent') = absent_cons k j e eo absent in
    elim (Bool-cases (ltb (e.last_active + endpoint_idle) now)) [
      | inl idle ↦
          rw idle (reap_endpoints-lookup now eo (unlink e.owner k (lookup e.owner ix) ix) j absent')
      | inr busy ↦ rw busy (ground (arith, ==_iff k j, reap_endpoints-lookup now eo ix j absent'))
    ]

pub reap_endpoints-Distinct :
    (now : ℕ) (eo : Map ℕ OwnerEntry) (ix : Map (List ℕ) (List ℕ))
    → Distinct eo
    → Distinct (reap_endpoints now eo ix).0
unfolding reap_endpoints
reap_endpoints-Distinct now [] ix d = d
reap_endpoints-Distinct now ((k, e) ∷ eo) ix d =
    elim (Bool-cases (ltb (e.last_active + endpoint_idle) now)) [
      | inl idle ↦
          rw idle (reap_endpoints-Distinct now eo (unlink e.owner k (lookup e.owner ix) ix) d.1)
      | inr busy ↦
          rw busy (reap_endpoints-lookup now eo ix k d.0, reap_endpoints-Distinct now eo ix d.1)
    ]

-- The first entry of a table, or one of the others.
first_or_later :
    (k j : ℕ) (e f : OwnerEntry) (eo : Map ℕ OwnerEntry)
    → lookup j ((k, e) ∷ eo) ≡ some f
    → ((k ≡ j) × (e ≡ f)) ⊎ ((k ≢ j) × (lookup j eo ≡ some f))
unfolding lookup
first_or_later k j e f eo h = elim (Bool-cases (k == j)) [
  | inl here ↦ inl ((==_iff k j).0 here, ground (arith, here))
  | inr there ↦ inr (ground (arith, there, ==_iff k j), ground (arith, there))
]

none_is_not_some : {e : OwnerEntry} → none ≡ some e → ⊥
none_is_not_some h = cc

found_first : (k : ℕ) (e : OwnerEntry) (eo : Map ℕ OwnerEntry) → lookup k ((k, e) ∷ eo) ≡ some e
unfolding lookup
found_first k e eo = ground (arith, ==_iff k k)

later :
    (k j : ℕ) (e f : OwnerEntry) (eo : Map ℕ OwnerEntry)
    → lookup k eo ≡ none
    → lookup j eo ≡ some f
    → (k ≢ j) × (lookup j ((k, e) ∷ eo) ≡ some f)
unfolding lookup
later k j e f eo absent h =
    let ne : k ≢ j =
      λ same_key. none_is_not_some (sym absent ∙ ap (λ i. lookup i eo) same_key ∙ h) in
    (ne, ground (arith, ==_iff k j, ne))

pub reap_endpoints-Lists :
    (now : ℕ) (eo : Map ℕ OwnerEntry) (ix : Map (List ℕ) (List ℕ))
    → Distinct eo
    → Lists eo ix
    → Lists (reap_endpoints now eo ix).0 (reap_endpoints now eo ix).1
unfolding reap_endpoints
reap_endpoints-Lists now [] ix d l = l
reap_endpoints-Lists now ((k, e) ∷ eo) ix d l =
    elim (Bool-cases (ltb (e.last_active + endpoint_idle) now)) [
      | inl idle ↦ rw idle (
          reap_endpoints-Lists now eo (unlink e.owner k (lookup e.owner ix) ix) d.1 (record {
            listed = λ j f h.
                let (ne, found) = later k j e f eo d.0 h in
                has-unlink e.owner f.owner k j ix ne (l.listed j f found);
          }))
      | inr busy ↦
          let rest = reap_endpoints-Lists now eo ix d.1 (record {
            listed = λ j f h. let (ne, found) = later k j e f eo d.0 h in l.listed j f found;
          }) in
          rw busy (record {
            listed = λ j f h. elim (first_or_later k j e f (reap_endpoints now eo ix).0 h) [
              | inl (kj, ef) ↦
                  subst (λ i. has i (or_empty (lookup f.owner (reap_endpoints now eo ix).1)) ≡ true)
                    kj
                    (subst
                      (λ (x : OwnerEntry).
                        has k (or_empty (lookup x.owner (reap_endpoints now eo ix).1)) ≡ true)
                      ef
                      (reap_endpoints-has now eo ix e.owner k d.0
                        (l.listed k e (found_first k e eo))))
              | inr (ne, found) ↦ rest.listed j f found
            ];
          })
    ]
