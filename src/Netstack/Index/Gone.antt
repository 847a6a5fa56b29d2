-- ===== src/Netstack/Index/Gone.antt =====
-- The index through all calls, and what a source leaves behind.
use candy.Base.{
  ℕ, ◌≡◌, ◌≢◌, refl, sym, ap, ◌∙◌, subst, true, List, [], ◌∷◌, Option, none, some, inl, inr,
  Bool-cases, arith, nat_eq, ==_iff,
}
use candy.Base.Buffer.{bytes_eq, same, same_iff}
use candy.Base.Map.{Map, lookup, lookup-erase, Distinct}
use candy.Netstack.Stun.{stun_parse}
use candy.Netstack.Mux.{
  OwnerEntry, UdpMux, or_empty, send_from_source, demux, release, release_all, source_gone,
  on_source_gone, reap, shutdown,
}
use candy.Netstack.Index.{has, Lists, release_all-Thinner, release_all-frees, release_all-Distinct}
use candy.Netstack.Index.Reap.{reap_endpoints-Distinct, reap_endpoints-Lists}
use candy.Netstack.Index.Kept.{IsIndexed, send_from_source-IsIndexed, demux_parsed-IsIndexed}

-- The source's endpoints are gone, and the others are as they were.
pub record Leaves (src : List ℕ) (m n : UdpMux) : Type 0 where
  pub none_left : (k : ℕ) (e : OwnerEntry) → lookup k n.endpoint_owner ≡ some e → e.owner ≢ src
  pub others_stay :
      (k : ℕ) (e : OwnerEntry)
      → e.owner ≢ src
      → lookup k m.endpoint_owner ≡ some e
      → lookup k n.endpoint_owner ≡ some e

owner_or_nobody : Option OwnerEntry → List ℕ
owner_or_nobody none = []
owner_or_nobody (some e) = e.owner

has_nothing : (k : ℕ) → has k [] ≢ true
unfolding has
has_nothing k h = cc

empty-IsIndexed : (m : UdpMux) → m.endpoint_owner ≡ [] → IsIndexed m
unfolding lookup
empty-IsIndexed m e = record {
  distinct = subst Distinct (sym e) tt;
  lists = subst (λ eo. Lists eo m.owner_endpoints) (sym e) (record { listed = λ k f h. cc });
}

release-others :
    (src : List ℕ) (k j : ℕ) (f : Option OwnerEntry) (e : OwnerEntry) (eo : Map ℕ OwnerEntry)
    → lookup k eo ≡ f
    → e.owner ≢ src
    → lookup j eo ≡ some e
    → lookup j (release src k f eo) ≡ some e
unfolding release owner_or_nobody
release-others src k j none e eo at ne h = h
release-others src k j (some o) e eo at ne h = elim (Bool-cases (same o.owner src)) [
  | inl own ↦
      let differ : k ≢ j = λ kj. ne (
        ap owner_or_nobody (sym h ∙ ap (λ i. lookup i eo) (sym kj) ∙ at)
        ∙ (same_iff o.owner src).0 own) in
      ground (arith, own, lookup-erase k j eo, ==_iff k j, differ)
  | inr other ↦ rw other h
]

release_all-others :
    (src : List ℕ) (ks : List ℕ) (j : ℕ) (e : OwnerEntry) (eo : Map ℕ OwnerEntry)
    → e.owner ≢ src
    → lookup j eo ≡ some e
    → lookup j (release_all src ks eo) ≡ some e
unfolding release_all
release_all-others src [] j e eo ne h = h
release_all-others src (k ∷ ks) j e eo ne h =
    release_all-others src ks j e (release src k (lookup k eo) eo) ne
      (release-others src k j (lookup k eo) e eo refl ne h)

source_gone-Leaves :
    (src : List ℕ) (f : Option (List ℕ)) (m : UdpMux)
    → lookup src m.owner_endpoints ≡ f
    → IsIndexed m
    → Leaves src m (source_gone src f m)
unfolding source_gone
source_gone-Leaves src none m at o = record {
  none_left = λ k e h own.
      let listed = o.lists.listed k e h in
      has_nothing k (
        sym (ap (λ f. has k (or_empty f)) (ap (λ i. lookup i m.owner_endpoints) own ∙ at))
        ∙ listed);
  others_stay = λ k e ne h. h;
}
source_gone-Leaves src (some ks) m at o = record {
  none_left = λ k e h own.
      let was = (release_all-Thinner src ks m.endpoint_owner).still k e h in
      let listed = o.lists.listed k e was in
      release_all-frees src ks k e m.endpoint_owner
        (sym (ap (λ f. has k (or_empty f)) (ap (λ i. lookup i m.owner_endpoints) own ∙ at))
          ∙ listed)
        h own;
  others_stay = λ k e ne h. release_all-others src ks k e m.endpoint_owner ne h;
}

source_gone-IsIndexed :
    (src : List ℕ) (f : Option (List ℕ)) (m : UdpMux)
    → lookup src m.owner_endpoints ≡ f
    → IsIndexed m
    → IsIndexed (source_gone src f m)
unfolding source_gone
source_gone-IsIndexed src none m at o = o
source_gone-IsIndexed src (some ks) m at o = record {
  distinct = release_all-Distinct src ks m.endpoint_owner o.distinct;
  lists = record {
    listed = λ k e h.
        let was = (release_all-Thinner src ks m.endpoint_owner).still k e h in
        let listed = o.lists.listed k e was in
        let ne = (source_gone-Leaves src (some ks) m at o).none_left k e h in
        ground (
          arith,
          listed,
          lookup-erase src e.owner m.owner_endpoints,
          same_iff src e.owner,
          λ (own : src ≡ e.owner). ne (sym own),
        );
  };
}

reap-IsIndexed : (now : ℕ) (m : UdpMux) → IsIndexed m → IsIndexed (reap now m)
unfolding reap
reap-IsIndexed now m o = record {
  distinct = reap_endpoints-Distinct now m.endpoint_owner m.owner_endpoints o.distinct;
  lists = reap_endpoints-Lists now m.endpoint_owner m.owner_endpoints o.distinct o.lists;
}

-- All calls of the mux.
pub data MuxCall : Type 0 where
  outward : ℕ → List ℕ → ℕ → ℕ → List ℕ → MuxCall
  inward : ℕ → ℕ → ℕ → List ℕ → MuxCall
  gone : List ℕ → MuxCall
  reaped : ℕ → MuxCall
  ended : MuxCall

pub mux_call : MuxCall → UdpMux → UdpMux
mux_call (outward now src ip port b) m = (send_from_source now src ip port b m).0
mux_call (inward now ip port b) m = (demux now ip port b m).0
mux_call (gone src) m = on_source_gone src m
mux_call (reaped now) m = reap now m
mux_call ended m = shutdown m

pub mux_calls : List MuxCall → UdpMux → UdpMux
mux_calls [] m = m
mux_calls (c ∷ cs) m = mux_calls cs (mux_call c m)

mux_call-IsIndexed : (c : MuxCall) (m : UdpMux) → IsIndexed m → IsIndexed (mux_call c m)
unfolding mux_call send_from_source demux on_source_gone shutdown lookup
mux_call-IsIndexed (outward now src ip port b) m o =
    send_from_source-IsIndexed now src ip port b (stun_parse b) m o
mux_call-IsIndexed (inward now ip port b) m o =
    demux_parsed-IsIndexed now ip port b (stun_parse b) m o
mux_call-IsIndexed (gone src) m o =
    source_gone-IsIndexed src (lookup src m.owner_endpoints) m refl o
mux_call-IsIndexed (reaped now) m o = reap-IsIndexed now m o
mux_call-IsIndexed ended m o = empty-IsIndexed (shutdown m) refl

mux_calls-IsIndexed : (cs : List MuxCall) (m : UdpMux) → IsIndexed m → IsIndexed (mux_calls cs m)
unfolding mux_calls
mux_calls-IsIndexed [] m o = o
mux_calls-IsIndexed (c ∷ cs) m o = mux_calls-IsIndexed cs (mux_call c m) (mux_call-IsIndexed c m o)

-- From a mux without endpoints, whatever packets, replies, reapings, sources that go and ends of the
-- stack come in whatever order and at whatever times: after onSourceGone no endpoint is left to that
-- source, and every endpoint of another source is as it was.
pub gone_source_owns_nothing :
    (m : UdpMux) (cs : List MuxCall) (src : List ℕ)
    → m.endpoint_owner ≡ []
    → Leaves src (mux_calls cs m) (on_source_gone src (mux_calls cs m))
unfolding on_source_gone
gone_source_owns_nothing m cs src fresh =
    let n = mux_calls cs m in
    source_gone-Leaves src (lookup src n.owner_endpoints) n refl
      (mux_calls-IsIndexed cs m (empty-IsIndexed m fresh))
