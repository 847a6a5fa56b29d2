-- ===== src/Netstack/Index.antt =====
-- The index of the owners' endpoints, and a source that is gone.
mod Kept
pub mod Gone
mod Reap
use candy.Base.{
  ℕ, ◌+◌, ◌≡◌, ◌≢◌, ◌⊎◌, refl, sym, ap, ◌∙◌, subst, Bool, true, false, ◌||◌, List, [], ◌∷◌, ◌++◌,
  Option, none, some, inl, inr, Bool-cases, arith, ◌==◌, ==_iff, nat_eq, if◌then◌else◌, ltb,
}
use candy.Base.Buffer.{bytes_eq, same, same_iff}
use candy.Base.Map.{
  Map, lookup, assign, erase, lookup-assign, lookup-erase, Distinct, Distinct-assign,
  Distinct-erase,
}
use candy.Netstack.Stun.{
  StunClass, request, indication, success_resp, error_resp, StunInfo, stun_parse,
}
use candy.Netstack.Mux.{
  OwnerEntry, TxnEntry, UdpMux, endpoint_key, endpoint_idle, insert, remove, or_empty, endpoints_of,
  keep_alive, note_request, refresh_own, claim, claim_or_keep, admit, send_from_source, to_owner,
  to_requester, is_response, demux_parsed, demux, release, release_all, source_gone, on_source_gone,
  left_with, unlink, reap_endpoints, reap, shutdown,
}

pub has : ℕ → List ℕ → Bool
has k [] = false
has k (j ∷ ks) = j == k || has k ks

has-insert_self : (k : ℕ) (ks : List ℕ) → has k (insert k ks) ≡ true
unfolding has insert
has-insert_self k [] = ground arith
has-insert_self k (j ∷ ks) = ground (arith, has-insert_self k ks)

has-insert : (j k : ℕ) (ks : List ℕ) → has j ks ≡ true → has j (insert k ks) ≡ true
unfolding has insert
has-insert j k [] h = ground arith
has-insert j k (i ∷ ks) h = ground (arith, has-insert j k ks)

has-remove : (j k : ℕ) (ks : List ℕ) → k ≢ j → has j ks ≡ true → has j (remove k ks) ≡ true
unfolding has remove
has-remove j k [] ne h = ground arith
has-remove j k (i ∷ ks) ne h = ground (arith, has-remove j k ks ne)

-- The index has each endpoint of the table under its owner.
pub record Lists (eo : Map ℕ OwnerEntry) (ix : Map (List ℕ) (List ℕ)) : Type 0 where
  pub listed :
      (k : ℕ) (e : OwnerEntry) → lookup k eo ≡ some e → has k (or_empty (lookup e.owner ix)) ≡ true

claim_listed :
    (k j : ℕ) (src : List ℕ) (new f : OwnerEntry) (eo : Map ℕ OwnerEntry)
    (ix : Map (List ℕ) (List ℕ))
    → new.owner ≡ src
    → Lists eo ix
    → lookup j (assign k new eo) ≡ some f
    → has j (or_empty (lookup f.owner (assign src (insert k (or_empty (lookup src ix))) ix))) ≡ true
claim_listed k j src new f eo ix own l h = elim (Bool-cases (k == j)) [
  | inl here ↦
      let e : f ≡ new = ground (arith, lookup-assign k j new eo, here) in
      ground (
        arith,
        ap (λ (x : OwnerEntry). x.owner) e,
        (==_iff k j).0 here,
        lookup-assign src f.owner (insert k (or_empty (lookup src ix))) ix,
        same_iff src f.owner,
        has-insert_self k (or_empty (lookup src ix)),
      )
  | inr there ↦
      let old : lookup j eo ≡ some f = ground (arith, lookup-assign k j new eo, there) in
      let was = l.listed j f old in
      ground (
        arith,
        was,
        lookup-assign src f.owner (insert k (or_empty (lookup src ix))) ix,
        same_iff src f.owner,
        has-insert j k (or_empty (lookup src ix)),
      )
]

-- An entry of the same owner in place of one.
kept_listed :
    (k : ℕ) (e new : OwnerEntry) (eo : Map ℕ OwnerEntry) (ix : Map (List ℕ) (List ℕ))
    → lookup k eo ≡ some e
    → new.owner ≡ e.owner
    → Lists eo ix
    → Lists (assign k new eo) ix
kept_listed k e new eo ix was own l = record {
  listed = λ j f h. elim (Bool-cases (k == j)) [
    | inl here ↦
        let f_is : f ≡ new = ground (arith, lookup-assign k j new eo, here) in
        ground (arith, ap (λ (x : OwnerEntry). x.owner) f_is, (==_iff k j).0 here, l.listed k e was)
    | inr there ↦ l.listed j f (ground (arith, lookup-assign k j new eo, there))
  ];
}

-- Less entries.
record Thinner (eo eo' : Map ℕ OwnerEntry) : Type 0 where
  still : (k : ℕ) (e : OwnerEntry) → lookup k eo' ≡ some e → lookup k eo ≡ some e

release-Thinner :
    (src : List ℕ) (k : ℕ) (f : Option OwnerEntry) (eo : Map ℕ OwnerEntry)
    → Thinner eo (release src k f eo)
unfolding release
release-Thinner src k none eo = record { still = λ j e h. h }
release-Thinner src k (some o) eo = record { still = λ j e h. ground (arith, lookup-erase k j eo) }

release_all-Thinner :
    (src : List ℕ) (ks : List ℕ) (eo : Map ℕ OwnerEntry) → Thinner eo (release_all src ks eo)
unfolding release_all
release_all-Thinner src [] eo = record { still = λ k e h. h }
release_all-Thinner src (k ∷ ks) eo =
    let one = release-Thinner src k (lookup k eo) eo in
    let more = release_all-Thinner src ks (release src k (lookup k eo) eo) in
    record { still = λ j e h. one.still j e (more.still j e h) }

release_here :
    (src : List ℕ) (k : ℕ) (f : Option OwnerEntry) (e : OwnerEntry) (eo : Map ℕ OwnerEntry)
    → lookup k eo ≡ f
    → lookup k (release src k f eo) ≡ some e
    → e.owner ≢ src
unfolding release
release_here src k none e eo at h = ground arith
release_here src k (some o) e eo at h = elim (Bool-cases (same o.owner src)) [
  | inl own ↦ ground (arith, own, lookup-erase k k eo, ==_iff k k)
  | inr other ↦
      let f_is : o ≡ e = ground (arith, other) in
      ground (arith, other, same_iff o.owner src, ap (λ (x : OwnerEntry). x.owner) f_is)
]

-- The source has none of the endpoints any more.
release_all-frees :
    (src : List ℕ) (ks : List ℕ) (k : ℕ) (e : OwnerEntry) (eo : Map ℕ OwnerEntry)
    → has k ks ≡ true
    → lookup k (release_all src ks eo) ≡ some e
    → e.owner ≢ src
unfolding has release_all
release_all-frees src [] k e eo i h = ground arith
release_all-frees src (j ∷ ks) k e eo i h = elim (Bool-cases (j == k)) [
  | inl here ↦
      let jk = (==_iff j k).0 here in
      let left = release src j (lookup j eo) eo in
      let h' : lookup j left ≡ some e =
        ap (λ i. lookup i left) jk ∙ (release_all-Thinner src ks left).still k e h in
      release_here src j (lookup j eo) e eo refl h'
  | inr there ↦
      release_all-frees src ks k e (release src j (lookup j eo) eo) (ground (arith, there)) h
]

release-Distinct :
    (src : List ℕ) (k : ℕ) (f : Option OwnerEntry) (eo : Map ℕ OwnerEntry)
    → Distinct eo
    → Distinct (release src k f eo)
unfolding release
release-Distinct src k none eo d = d
release-Distinct src k (some o) eo d = elim (Bool-cases (same o.owner src)) [
  | inl own ↦ rw own (Distinct-erase k eo d)
  | inr other ↦ rw other d
]

release_all-Distinct :
    (src : List ℕ) (ks : List ℕ) (eo : Map ℕ OwnerEntry)
    → Distinct eo
    → Distinct (release_all src ks eo)
unfolding release_all
release_all-Distinct src [] eo d = d
release_all-Distinct src (k ∷ ks) eo d =
    release_all-Distinct src ks (release src k (lookup k eo) eo)
      (release-Distinct src k (lookup k eo) eo d)

false_is_not_true : false ≡ true → ⊥
false_is_not_true h = cc

left_over :
    (src owner : List ℕ) (j : ℕ) (rest ks : List ℕ) (ix : Map (List ℕ) (List ℕ))
    → lookup src ix ≡ some ks
    → (has j ks ≡ true → has j rest ≡ true)
    → has j (or_empty (lookup owner ix)) ≡ true
    → has j (or_empty (lookup owner (left_with src rest ix))) ≡ true
unfolding has
left_over src owner j [] ks ix at keeps h = elim (Bool-cases (same src owner)) [
  | inl own ↦
      let e = (same_iff src owner).0 own in
      let h' : has j ks ≡ true =
        ap (λ o. has j (or_empty o)) (sym at) ∙ ap (λ o. has j (or_empty (lookup o ix))) e ∙ h in
      absurd (false_is_not_true (keeps h'))
  | inr other ↦ ground (arith, lookup-erase src owner ix, other)
]
left_over src owner j (i ∷ rest) ks ix at keeps h = elim (Bool-cases (same src owner)) [
  | inl own ↦
      let e = (same_iff src owner).0 own in
      let h' : has j ks ≡ true =
        ap (λ o. has j (or_empty o)) (sym at) ∙ ap (λ o. has j (or_empty (lookup o ix))) e ∙ h in
      let now : lookup owner (assign src (i ∷ rest) ix) ≡ some (i ∷ rest) =
        ground (arith, lookup-assign src owner (i ∷ rest) ix, own) in
      ap (λ o. has j (or_empty o)) now ∙ keeps h'
  | inr other ↦
      let now : lookup owner (assign src (i ∷ rest) ix) ≡ lookup owner ix =
        ground (arith, lookup-assign src owner (i ∷ rest) ix, other) in
      ap (λ o. has j (or_empty o)) now ∙ h
]

unlinked :
    (src owner : List ℕ) (k j : ℕ) (f : Option (List ℕ)) (ix : Map (List ℕ) (List ℕ))
    → lookup src ix ≡ f
    → k ≢ j
    → has j (or_empty (lookup owner ix)) ≡ true
    → has j (or_empty (lookup owner (unlink src k f ix))) ≡ true
unfolding unlink
unlinked src owner k j none ix at ne h = h
unlinked src owner k j (some ks) ix at ne h =
    left_over src owner j (remove k ks) ks ix at (has-remove j k ks ne) h

-- Reaping an endpoint leaves the other endpoints in the index.
pub has-unlink :
    (src owner : List ℕ) (k j : ℕ) (ix : Map (List ℕ) (List ℕ))
    → k ≢ j
    → has j (or_empty (lookup owner ix)) ≡ true
    → has j (or_empty (lookup owner (unlink src k (lookup src ix) ix))) ≡ true
has-unlink src owner k j ix ne h = unlinked src owner k j (lookup src ix) ix refl ne h
