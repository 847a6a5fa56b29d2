-- ===== src/Netstack/Index/Kept.antt =====
-- The calls of the UdpMux keep the index of the endpoints.
use candy.Base.{ℕ, ◌≡◌, refl, sym, subst, List, Option, none, some, inl, inr, Bool-cases, nat_eq}
use candy.Base.Buffer.{bytes_eq, same}
use candy.Base.Map.{lookup, Distinct, Distinct-assign}
use candy.Netstack.Stun.{StunClass, request, indication, success_resp, error_resp, StunInfo}
use candy.Netstack.Mux.{
  OwnerEntry, TxnEntry, UdpMux, endpoint_key, endpoints_of, keep_alive, note_request, refresh_own,
  claim, claim_or_keep, admit, to_owner, to_requester, is_response, demux_parsed,
}
use candy.Netstack.Index.{Lists, claim_listed, kept_listed}

pub record IsIndexed (m : UdpMux) : Type 0 where
  pub distinct : Distinct m.endpoint_owner
  pub lists : Lists m.endpoint_owner m.owner_endpoints

keep_alive-IsIndexed :
    (now k : ℕ) (e : OwnerEntry) (m : UdpMux)
    → lookup k m.endpoint_owner ≡ some e
    → IsIndexed m
    → IsIndexed (keep_alive now k e m)
unfolding keep_alive
keep_alive-IsIndexed now k e m at o = record {
  distinct = Distinct-assign k (record e { last_active = now }) m.endpoint_owner o.distinct;
  lists =
      kept_listed k e (record e { last_active = now }) m.endpoint_owner m.owner_endpoints at refl
        o.lists;
}

-- The tables of the endpoints are the same.
same_tables :
    (m n : UdpMux)
    → n.endpoint_owner ≡ m.endpoint_owner
    → n.owner_endpoints ≡ m.owner_endpoints
    → IsIndexed m
    → IsIndexed n
same_tables m n e i o = record {
  distinct = subst Distinct (sym e) o.distinct;
  lists =
      subst (λ eo. Lists eo n.owner_endpoints) (sym e)
        (subst (Lists m.endpoint_owner) (sym i) o.lists);
}

claim-IsIndexed :
    (now : ℕ) (src : List ℕ) (k : ℕ) (m : UdpMux) → IsIndexed m → IsIndexed (claim now src k m)
unfolding claim endpoints_of
claim-IsIndexed now src k m o =
    let new : OwnerEntry = record { owner = src; last_active = now } in
    record {
      distinct = Distinct-assign k new m.endpoint_owner o.distinct;
      lists = record {
        listed =
            λ j f h. claim_listed k j src new f m.endpoint_owner m.owner_endpoints refl o.lists h;
      };
    }

module _ (now : ℕ) (src : List ℕ) where
  note_request-IsIndexed :
      (info : StunInfo) (c : StunClass) (m : UdpMux)
      → IsIndexed m
      → IsIndexed (note_request now src info c m)
  unfolding note_request
  note_request-IsIndexed info request m o = same_tables m _ refl refl o
  note_request-IsIndexed info indication m o = o
  note_request-IsIndexed info success_resp m o = o
  note_request-IsIndexed info error_resp m o = o

  refresh_own-IsIndexed :
      (k : ℕ) (f : Option OwnerEntry) (m : UdpMux)
      → lookup k m.endpoint_owner ≡ f
      → IsIndexed m
      → IsIndexed (refresh_own now src k f m)
  unfolding refresh_own
  refresh_own-IsIndexed k none m at o = o
  refresh_own-IsIndexed k (some e) m at o = elim (Bool-cases (same e.owner src)) [
    | inl own ↦ rw own (keep_alive-IsIndexed now k e m at o)
    | inr other ↦ rw other o
  ]

  claim_or_keep-IsIndexed :
      (k : ℕ) (f : Option OwnerEntry) (m : UdpMux)
      → lookup k m.endpoint_owner ≡ f
      → IsIndexed m
      → IsIndexed (claim_or_keep now src k f m).0
  unfolding claim_or_keep
  claim_or_keep-IsIndexed k none m at o = claim-IsIndexed now src k m o
  claim_or_keep-IsIndexed k (some e) m at o = elim (Bool-cases (same e.owner src)) [
    | inl own ↦ rw own (keep_alive-IsIndexed now k e m at o)
    | inr other ↦ rw other (same_tables m _ refl refl o)
  ]

  pub send_from_source-IsIndexed :
      (ip port : ℕ) (b : List ℕ) (f : Option StunInfo) (m : UdpMux)
      → IsIndexed m
      → IsIndexed (admit now src (endpoint_key ip port) f m).0
  unfolding admit
  send_from_source-IsIndexed ip port b none m o =
      claim_or_keep-IsIndexed (endpoint_key ip port)
        (lookup (endpoint_key ip port) m.endpoint_owner) m refl o
  send_from_source-IsIndexed ip port b (some info) m o =
      let m1 = note_request now src info info.klass m in
      refresh_own-IsIndexed (endpoint_key ip port) (lookup (endpoint_key ip port) m1.endpoint_owner)
        m1 refl (note_request-IsIndexed info info.klass m o)

module _ (now ip port : ℕ) (b : List ℕ) where
  to_owner-IsIndexed :
      (f : Option OwnerEntry) (m : UdpMux)
      → lookup (endpoint_key ip port) m.endpoint_owner ≡ f
      → IsIndexed m
      → IsIndexed (to_owner now ip port b f m).0
  unfolding to_owner
  to_owner-IsIndexed none m at o = same_tables m _ refl refl o
  to_owner-IsIndexed (some e) m at o = keep_alive-IsIndexed now (endpoint_key ip port) e m at o

  to_requester-IsIndexed :
      (txid : List ℕ) (t : Option TxnEntry) (m : UdpMux)
      → IsIndexed m
      → IsIndexed (to_requester ip port b txid t m).0
  unfolding to_requester
  to_requester-IsIndexed txid none m o = same_tables m _ refl refl o
  to_requester-IsIndexed txid (some t) m o = same_tables m _ refl refl o

  pub demux_parsed-IsIndexed :
      (f : Option StunInfo) (m : UdpMux)
      → IsIndexed m
      → IsIndexed (demux_parsed now ip port b f m).0
  unfolding demux_parsed
  demux_parsed-IsIndexed none m o =
      to_owner-IsIndexed (lookup (endpoint_key ip port) m.endpoint_owner) m refl o
  demux_parsed-IsIndexed (some info) m o = elim (Bool-cases (is_response info.klass)) [
    | inl answers ↦ rw answers (to_requester-IsIndexed info.txid (lookup info.txid m.stun_txn) m o)
    | inr asks ↦
        rw asks (to_owner-IsIndexed (lookup (endpoint_key ip port) m.endpoint_owner) m refl o)
  ]
