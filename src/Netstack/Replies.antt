-- ===== src/Netstack/Replies.antt =====
-- Where the messages of the other side go.
use candy.Base.{
  ℕ, ◌≡◌, refl, sym, ap, ◌∙◌, subst, true, List, [], ◌∷◌, Option, none, some, arith, nat_eq,
}
use candy.Base.Buffer.{bytes_eq}
use candy.Base.Map.{lookup, erase, lookup-assign_self, lookup-erase, beq_self}
use candy.Netstack.Stun.{request, StunInfo, stun_parse}
use candy.Netstack.Mux.{
  OwnerEntry, TxnEntry, UdpMux, sends, injects, endpoint_key, keep_alive, note_request, refresh_own,
  claim, claim_or_keep, admit, send_from_source, to_owner, to_requester, is_response, demux_parsed,
  demux,
}
use candy.Netstack.Owners.{Owns, Traffic, carry, owner_keeps_endpoint}

module _ (ip port : ℕ) (b : List ℕ) where
  pub to_owner-Owns_out :
      (now : ℕ) (src : List ℕ) (m : UdpMux)
      → stun_parse b ≡ none
      → Owns src (endpoint_key ip port) m
      → (demux now ip port b m).1 ≡ injects src ip port b ∷ []
  unfolding demux demux_parsed to_owner
  to_owner-Owns_out now src m plain o =
      rw (plain, o.found) (ap (λ x. injects x ip port b ∷ []) o.owner_is)

  pub claimed :
      (now : ℕ) (src : List ℕ) (m : UdpMux)
      → stun_parse b ≡ none
      → lookup (endpoint_key ip port) m.endpoint_owner ≡ none
      → send_from_source now src ip port b m
        ≡ (claim now src (endpoint_key ip port) m, sends ip port b ∷ [])
  unfolding send_from_source admit claim_or_keep
  claimed now src m plain free = rw (plain, free)

  pub claim-Owns : (now : ℕ) (src : List ℕ) (k : ℕ) (m : UdpMux) → Owns src k (claim now src k m)
  unfolding claim
  claim-Owns now src k m = record {
    entry = record { owner = src; last_active = now };
    found = lookup-assign_self k _ m.endpoint_owner;
    owner_is = refl;
  }

-- When a source is the first to send data to an endpoint, its packet is sent, and data that comes
-- back from that endpoint is handed to this source and to no other, whatever all sources and the
-- other side have sent in between.
pub reply_reaches_source :
    (now now' ip port : ℕ) (src b b' : List ℕ) (ts : List Traffic) (m : UdpMux)
    → stun_parse b ≡ none
    → stun_parse b' ≡ none
    → lookup (endpoint_key ip port) m.endpoint_owner ≡ none
    → ((send_from_source now src ip port b m).1 ≡ sends ip port b ∷ [])
      × ((demux now' ip port b' (carry ts (send_from_source now src ip port b m).0)).1
          ≡ injects src ip port b' ∷ [])
reply_reaches_source now now' ip port src b b' ts m plain plain' free =
    let k = endpoint_key ip port in
    let sent = claimed ip port b now src m plain free in
    (
      ap (λ r. r.1) sent,
      to_owner-Owns_out ip port b' now' src _ plain' (
          owner_keeps_endpoint src k ts _
            (subst (λ r. Owns src k r.0) (sym sent) (claim-Owns ip port b now src k m))),
    )

refresh_own-txn :
    (now : ℕ) (src : List ℕ) (k : ℕ) (f : Option OwnerEntry) (m : UdpMux)
    → (refresh_own now src k f m).stun_txn ≡ m.stun_txn
unfolding refresh_own keep_alive
refresh_own-txn now src k none m = refl
refresh_own-txn now src k (some e) m = ground arith

-- The table of transactions after a request.
noted :
    (now ip port : ℕ) (src b : List ℕ) (info : StunInfo) (m : UdpMux)
    → stun_parse b ≡ some info
    → info.klass ≡ request
    → lookup info.txid (send_from_source now src ip port b m).0.stun_txn
      ≡ some (record { inner_src = src; created_at = now })
unfolding send_from_source admit note_request
noted now ip port src b info m parsed asks =
    let k = endpoint_key ip port in
    let m1 = note_request now src info info.klass m in
    rw parsed (
      ap (lookup info.txid) (refresh_own-txn now src k (lookup k m1.endpoint_owner) m1)
      ∙ ap (λ c. lookup info.txid (note_request now src info c m).stun_txn) asks
      ∙ lookup-assign_self info.txid _ m.stun_txn)

module _ (now ip port : ℕ) (b : List ℕ) (info : StunInfo) (m : UdpMux)
    (parsed : stun_parse b ≡ some info) (answers : is_response info.klass ≡ true) where
  answered :
      (t : TxnEntry)
      → lookup info.txid m.stun_txn ≡ some t
      → demux now ip port b m
        ≡ (record m { stun_txn = erase info.txid m.stun_txn }, injects t.inner_src ip port b ∷ [])
  unfolding demux demux_parsed to_requester
  answered t h = rw (parsed, answers, h)

  unanswered : lookup info.txid m.stun_txn ≡ none → (demux now ip port b m).1 ≡ []
  unfolding demux demux_parsed to_requester
  unanswered h = rw (parsed, answers, h)

-- A STUN response with the transaction of a source's request is handed to that source, from
-- whatever endpoint it comes; the same transaction answered again is dropped.
pub response_reaches_requester_once :
    (now now' now'' ip port ip' port' : ℕ) (src b b' : List ℕ) (info info' : StunInfo) (m : UdpMux)
    → stun_parse b ≡ some info
    → info.klass ≡ request
    → stun_parse b' ≡ some info'
    → is_response info'.klass ≡ true
    → info'.txid ≡ info.txid
    → let first = demux now' ip' port' b' (send_from_source now src ip port b m).0 in
      (first.1 ≡ injects src ip' port' b' ∷ []) × ((demux now'' ip' port' b' first.0).1 ≡ [])
response_reaches_requester_once now now' now'' ip port ip' port' src b b' info info' m parsed asks
      parsed' answers same_txn =
    let m1 = (send_from_source now src ip port b m).0 in
    let known =
      ap (λ t. lookup t m1.stun_txn) same_txn ∙ noted now ip port src b info m parsed asks in
    let first = answered now' ip' port' b' info' m1 parsed' answers _ known in
    (
      ap (λ r. r.1) first,
      ap (λ r. (demux now'' ip' port' b' r.0).1) first
          ∙ unanswered now'' ip' port' b' info' _ parsed' answers
              (lookup-erase info'.txid info'.txid m1.stun_txn ∙ rw (beq_self info'.txid)),
    )
