-- ===== src/Netstack/Owners.antt =====
-- Who owns an endpoint: the first source that sent to it.
use candy.Base.{
  ℕ, ◌≡◌, refl, sym, ap, ◌∙◌, List, [], ◌∷◌, Option, none, some, inl, inr, Bool-cases, ◌==◌, ==_iff,
  nat_eq,
}
use candy.Base.Buffer.{bytes_eq, same}
use candy.Base.Map.{lookup, assign, lookup-assign}
use candy.Netstack.Stun.{
  StunClass, request, indication, success_resp, error_resp, StunInfo, stun_parse,
}
use candy.Netstack.Mux.{
  OwnerEntry, TxnEntry, UdpMux, endpoint_key, keep_alive, note_request, refresh_own, claim,
  claim_or_keep, admit, send_from_source, to_owner, to_requester, is_response, demux_parsed, demux,
}

-- The endpoint has an entry of the owner.
pub record Owns (owner : List ℕ) (k : ℕ) (m : UdpMux) : Type 0 where
  pub entry : OwnerEntry
  pub found : lookup k m.endpoint_owner ≡ some entry
  pub owner_is : entry.owner ≡ owner

same_owners :
    (owner : List ℕ) (k : ℕ) (m n : UdpMux)
    → n.endpoint_owner ≡ m.endpoint_owner
    → Owns owner k m
    → Owns owner k n
same_owners owner k m n e o = record {
  entry = o.entry;
  found = ap (lookup k) e ∙ o.found;
  owner_is = o.owner_is;
}

-- An entry that is written for an endpoint with an owner keeps that owner.
assigned :
    (owner : List ℕ) (j k : ℕ) (new : OwnerEntry) (m n : UdpMux)
    → n.endpoint_owner ≡ assign j new m.endpoint_owner
    → (j ≡ k → new.owner ≡ owner)
    → Owns owner k m
    → Owns owner k n
assigned owner j k new m n e keeps o = elim (Bool-cases (j == k)) [
  | inl here ↦ record {
    entry = new;
    found = ap (lookup k) e ∙ lookup-assign j k new m.endpoint_owner ∙ rw here;
    owner_is = keeps ((==_iff j k).0 here);
  }
  | inr there ↦ record {
    entry = o.entry;
    found = ap (lookup k) e ∙ lookup-assign j k new m.endpoint_owner ∙ rw there o.found;
    owner_is = o.owner_is;
  }
]

owner_or_nobody : Option OwnerEntry → List ℕ
owner_or_nobody none = []
owner_or_nobody (some e) = e.owner

none_is_not_some : {e : OwnerEntry} → none ≡ some e → ⊥
none_is_not_some h = cc

module _ (owner : List ℕ) (k : ℕ) (now : ℕ) where
  keep_alive-Owns :
      (j : ℕ) (e : OwnerEntry) (m : UdpMux)
      → lookup j m.endpoint_owner ≡ some e
      → Owns owner k m
      → Owns owner k (keep_alive now j e m)
  unfolding keep_alive
  keep_alive-Owns j e m h o =
      assigned owner j k (record e { last_active = now }) m _ refl
        (λ jk.
          unfold owner_or_nobody in
          ap owner_or_nobody (sym h ∙ ap (λ x. lookup x m.endpoint_owner) jk ∙ o.found)
          ∙ o.owner_is)
        o

  note_request-Owns :
      (src : List ℕ) (info : StunInfo) (c : StunClass) (m : UdpMux)
      → Owns owner k m
      → Owns owner k (note_request now src info c m)
  unfolding note_request
  note_request-Owns src info request m o = same_owners owner k m _ refl o
  note_request-Owns src info indication m o = o
  note_request-Owns src info success_resp m o = o
  note_request-Owns src info error_resp m o = o

  refresh_own-Owns :
      (src : List ℕ) (j : ℕ) (f : Option OwnerEntry) (m : UdpMux)
      → lookup j m.endpoint_owner ≡ f
      → Owns owner k m
      → Owns owner k (refresh_own now src j f m)
  unfolding refresh_own
  refresh_own-Owns src j none m h o = o
  refresh_own-Owns src j (some e) m h o = elim (Bool-cases (same e.owner src)) [
    | inl own ↦ rw own (keep_alive-Owns j e m h o)
    | inr other ↦ rw other o
  ]

  claim_or_keep-Owns :
      (src : List ℕ) (j : ℕ) (f : Option OwnerEntry) (m : UdpMux)
      → lookup j m.endpoint_owner ≡ f
      → Owns owner k m
      → Owns owner k (claim_or_keep now src j f m).0
  unfolding claim_or_keep claim
  claim_or_keep-Owns src j none m h o =
      assigned owner j k (record { owner = src; last_active = now }) m _ refl
        (λ jk. absurd (none_is_not_some (sym h ∙ ap (λ x. lookup x m.endpoint_owner) jk ∙ o.found)))
        o
  claim_or_keep-Owns src j (some e) m h o = elim (Bool-cases (same e.owner src)) [
    | inl own ↦ rw own (keep_alive-Owns j e m h o)
    | inr other ↦ rw other (same_owners owner k m _ refl o)
  ]

  admit-Owns :
      (src : List ℕ) (j : ℕ) (f : Option StunInfo) (m : UdpMux)
      → Owns owner k m
      → Owns owner k (admit now src j f m).0
  unfolding admit
  admit-Owns src j none m o = claim_or_keep-Owns src j (lookup j m.endpoint_owner) m refl o
  admit-Owns src j (some info) m o =
      let m1 = note_request now src info info.klass m in
      refresh_own-Owns src j (lookup j m1.endpoint_owner) m1 refl
        (note_request-Owns src info info.klass m o)

  to_owner-Owns :
      (ip port : ℕ) (b : List ℕ) (f : Option OwnerEntry) (m : UdpMux)
      → lookup (endpoint_key ip port) m.endpoint_owner ≡ f
      → Owns owner k m
      → Owns owner k (to_owner now ip port b f m).0
  unfolding to_owner
  to_owner-Owns ip port b none m h o = same_owners owner k m _ refl o
  to_owner-Owns ip port b (some e) m h o = keep_alive-Owns (endpoint_key ip port) e m h o

  to_requester-Owns :
      (ip port : ℕ) (b txid : List ℕ) (t : Option TxnEntry) (m : UdpMux)
      → Owns owner k m
      → Owns owner k (to_requester ip port b txid t m).0
  unfolding to_requester
  to_requester-Owns ip port b txid none m o = same_owners owner k m _ refl o
  to_requester-Owns ip port b txid (some t) m o = same_owners owner k m _ refl o

  demux_parsed-Owns :
      (ip port : ℕ) (b : List ℕ) (f : Option StunInfo) (m : UdpMux)
      → Owns owner k m
      → Owns owner k (demux_parsed now ip port b f m).0
  unfolding demux_parsed
  demux_parsed-Owns ip port b none m o =
      to_owner-Owns ip port b (lookup (endpoint_key ip port) m.endpoint_owner) m refl o
  demux_parsed-Owns ip port b (some info) m o = elim (Bool-cases (is_response info.klass)) [
    | inl answers ↦
        rw answers (to_requester-Owns ip port b info.txid (lookup info.txid m.stun_txn) m o)
    | inr asks ↦
        rw asks (to_owner-Owns ip port b (lookup (endpoint_key ip port) m.endpoint_owner) m refl o)
  ]

-- Packets of the sources, and messages from the other side.
pub data Traffic : Type 0 where
  outward : ℕ → List ℕ → ℕ → ℕ → List ℕ → Traffic
  inward : ℕ → ℕ → ℕ → List ℕ → Traffic

unfoldable pub carry : List Traffic → UdpMux → UdpMux
carry [] m = m
carry (outward now src ip port b ∷ ts) m = carry ts (send_from_source now src ip port b m).0
carry (inward now ip port b ∷ ts) m = carry ts (demux now ip port b m).0

-- An endpoint that has an owner keeps it, whatever packets all sources send, to whatever endpoints,
-- and whatever comes from the other side, STUN or not, in any order and at any times.
pub owner_keeps_endpoint :
    (owner : List ℕ) (k : ℕ) (ts : List Traffic) (m : UdpMux)
    → Owns owner k m
    → Owns owner k (carry ts m)
unfolding carry send_from_source demux
owner_keeps_endpoint owner k [] m o = o
owner_keeps_endpoint owner k (outward now src ip port b ∷ ts) m o =
    owner_keeps_endpoint owner k ts _
      (admit-Owns owner k now src (endpoint_key ip port) (stun_parse b) m o)
owner_keeps_endpoint owner k (inward now ip port b ∷ ts) m o =
    owner_keeps_endpoint owner k ts _ (demux_parsed-Owns owner k now ip port b (stun_parse b) m o)
