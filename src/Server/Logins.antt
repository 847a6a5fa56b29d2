-- ===== src/Server/Logins.antt =====
-- The map from addresses to connections: what a login does to it, and when it names live ones only.
use candy.Base.{
  ℕ, ◌≡◌, ◌≢◌, refl, sym, ap, ◌∙◌, subst, Bool, true, false, not, List, Option, none, some, ◌==◌,
  ltb, inl, inr, arith, Bool-cases, ==_iff, length, get_or,
}
use candy.Base.Buffer.{slice-put_before}
use candy.Base.Map.{lookup, assign, lookup-assign, lookup-assign_ne}
use candy.Net.Ip4.{Ip4, of_raw, ip_eq, ip_eq_iff, ip4_eq}
use candy.Message.Kind
use candy.Message.Layout.{ip_at, auth_size}
use candy.Message.Hash.{check_auth, update_auth}
use candy.Server.State.{Env, Server, Outcome, set_ctx, set_buffer}
use candy.Server.Routes.{update_sys_route}
use candy.Server.Handlers.{reject_if, replace_old, log_in, checked_auth, handle_auth_msg}
use candy.Server.Serve.{handle_msg}
use candy.Server.Keeps.{
  Keeps, Keeps-if, Keeps-refl, Keeps-refuse, Keeps-set_buffer, Keeps-update_sys_route,
  Keeps-handle_forward_msg, Keeps-handle_expt_tun_msg, Keeps-handle_udp4_conn_msg,
  Keeps-handle_vmac_msg, Keeps-handle_discovery_msg, Keeps-handle_general_msg,
}

-- Every entry of the map names a connection that exists and whose address is the entry's key.
pub record IsConsistent (s : Server) : Type 0 where
  pub owner :
      (ip : Ip4) (j : ℕ)
      → lookup ip s.ip_ctx_map ≡ some j
      → (s.live j ≡ true) × ((s.ctxs j).ip ≡ ip)

pub Keeps-IsConsistent : {s t : Server} → Keeps s t → IsConsistent s → IsConsistent t
Keeps-IsConsistent k v = record {
  owner = λ ip j h.
      let o = v.owner ip j (sym (ap (lookup ip) k.map_same) ∙ h) in
      (ap (λ f. f j) k.live_same ∙ o.0, k.ip_same j ∙ o.1);
}

Keeps-replace_old : (o : Option ℕ) (s : Server) → Keeps s (replace_old o s)
unfolding replace_old
Keeps-replace_old none s = Keeps-refl s
Keeps-replace_old (some old) s = Keeps-refuse old s

-- After a login: one entry, one context's address.
pub record LoggedIn (i : ℕ) (ip : Ip4) (s t : Server) : Type 0 where
  pub map_is : t.ip_ctx_map ≡ assign ip i s.ip_ctx_map
  pub live_is : t.live ≡ s.live
  pub own_ip : (t.ctxs i).ip ≡ ip
  pub other_ip : (j : ℕ) → i ≢ j → (t.ctxs j).ip ≡ (s.ctxs j).ip

pub log_in-LoggedIn : (i : ℕ) (ip : Ip4) (s : Server) → LoggedIn i ip s (log_in i ip s).0
unfolding log_in
log_in-LoggedIn i ip s = record {
  map_is = routed.map_same ∙ ap (assign ip i) kept.map_same;
  live_is = routed.live_same ∙ kept.live_same;
  own_ip = routed.ip_same i ∙ kept.ip_same i ∙ rw (==-self);
  other_ip = λ j ne. routed.ip_same j ∙ kept.ip_same j ∙ rw (==-other j ne);
}
  where
    s1 : Server
    s1 = set_ctx i (record (s.ctxs i) { ip = ip }) s

    s2 : Server
    s2 = replace_old (lookup ip s1.ip_ctx_map) s1

    kept : Keeps s1 s2
    kept = Keeps-replace_old (lookup ip s1.ip_ctx_map) s1

    routed :
        Keeps
          (record s2 { ip_ctx_map = assign ip i s2.ip_ctx_map })
          (update_sys_route i (record s2 { ip_ctx_map = assign ip i s2.ip_ctx_map })).0
    routed = Keeps-update_sys_route i (record s2 { ip_ctx_map = assign ip i s2.ip_ctx_map })

    ==-self : (i == i) ≡ true
    ==-self = (==_iff i i).1 refl

    ==-other : (j : ℕ) → i ≢ j → (i == j) ≡ false
    ==-other j ne = ground (arith, ==_iff i j)

-- A connection that has an entry logs in again under the same address only.
abbrev pub KeepsAddress : ℕ → Ip4 → Server → Type 0
KeepsAddress i ip s = lookup (s.ctxs i).ip s.ip_ctx_map ≡ some i → ip ≡ (s.ctxs i).ip

pub KeepsAddress-set_buffer :
    (i : ℕ) (ip : Ip4) (b : List ℕ) (s : Server)
    → KeepsAddress i ip s
    → KeepsAddress i ip (set_buffer i b s)
KeepsAddress-set_buffer i ip b s one h =
    let k = Keeps-set_buffer i b s in
    one (ap (λ x. lookup x s.ip_ctx_map) (sym (k.ip_same i)) ∙ h) ∙ sym (k.ip_same i)

LoggedIn-IsConsistent :
    (i : ℕ) (ip : Ip4) (s t : Server)
    → LoggedIn i ip s t
    → s.live i ≡ true
    → KeepsAddress i ip s
    → IsConsistent s
    → IsConsistent t
LoggedIn-IsConsistent i ip s t l live one v = record { owner = owner }
  where
    alive : (j : ℕ) → s.live j ≡ true → t.live j ≡ true
    alive j h = ap (λ f. f j) l.live_is ∙ h

    older :
        (k : Ip4) (j : ℕ)
        → ip ≢ k
        → lookup k s.ip_ctx_map ≡ some j
        → (t.live j ≡ true) × ((t.ctxs j).ip ≡ k)
    older k j ne h = elim (Bool-cases (i == j)) [
      | inl same ↦
          let e : i ≡ j = (==_iff i j).0 same in
          let h' : lookup k s.ip_ctx_map ≡ some i = h ∙ ap some (sym e) in
          let k_is = (v.owner k i h').1 in
          absurd (ne (one (ap (λ x. lookup x s.ip_ctx_map) k_is ∙ h') ∙ k_is))
      | inr other ↦
          let o = v.owner k j h in (alive j o.0, l.other_ip j (λ e. cc ((==_iff i j).1 e)) ∙ o.1)
    ]

    owner :
        (k : Ip4) (j : ℕ) → lookup k t.ip_ctx_map ≡ some j → (t.live j ≡ true) × ((t.ctxs j).ip ≡ k)
    owner k j h = elim (Bool-cases (ip_eq ip k)) [
      | inl same ↦
          let e : ip ≡ k = (ip_eq_iff ip k).0 same in
          let ij : i ≡ j = ground (arith, h, l.map_is, lookup-assign ip k i s.ip_ctx_map) in
          (
            subst (λ x. t.live x ≡ true) ij (alive i live),
            ap (λ x. (t.ctxs x).ip) (sym ij) ∙ l.own_ip ∙ e,
          )
      | inr other ↦
          let ne : ip ≢ k = (λ e. cc ((ip_eq_iff ip k).1 e)) in
          older k j ne
            (sym (lookup-assign_ne ip k i s.ip_ctx_map ne) ∙ ap (lookup k) (sym l.map_is) ∙ h)
    ]

-- What the check returns has the sender's address where it was.
pub ip_at-check_auth :
    (sha256 : List ℕ → List ℕ) (password b : List ℕ)
    → ip_at 1 (check_auth sha256 password b).1 ≡ ip_at 1 b
unfolding check_auth update_auth
ip_at-check_auth sha256 password b = ap of_raw (slice-put_before 1 4 13 _ b (omega arith))

reject_if-IsConsistent :
    (b : Bool) (i : ℕ) (t : Server) (r : Server × Outcome)
    → IsConsistent t
    → IsConsistent r.0
    → IsConsistent (reject_if b i t r).0
unfolding reject_if
reject_if-IsConsistent true i t r v w = Keeps-IsConsistent (Keeps-refuse i t) v
reject_if-IsConsistent false i t r v w = w

module _ (env : Env) (i : ℕ) (s : Server) (live : s.live i ≡ true) (v : IsConsistent s) where
  checked_auth-IsConsistent :
      (r : Bool × List ℕ) → KeepsAddress i (ip_at 1 r.1) s → IsConsistent (checked_auth i r s).0
  unfolding checked_auth
  checked_auth-IsConsistent (accepted, b) one =
      let k = Keeps-set_buffer i b s in
      let v' = Keeps-IsConsistent k v in
      reject_if-IsConsistent (not accepted) i (set_buffer i b s) _ v' (
        LoggedIn-IsConsistent i (ip_at 1 b) (set_buffer i b s) _
          (log_in-LoggedIn i (ip_at 1 b) (set_buffer i b s)) live
          (KeepsAddress-set_buffer i (ip_at 1 b) b s one) v')

  handle_auth_msg-IsConsistent :
      KeepsAddress i (ip_at 1 (s.ctxs i).buffer) s → IsConsistent (handle_auth_msg env i s).0
  unfolding handle_auth_msg
  handle_auth_msg-IsConsistent one =
      reject_if-IsConsistent (ltb (length (s.ctxs i).buffer) auth_size) i s _ v (
        checked_auth-IsConsistent (check_auth env.sha256 s.password (s.ctxs i).buffer) (
          subst (λ x. KeepsAddress i x s)
            (sym (ip_at-check_auth env.sha256 s.password (s.ctxs i).buffer)) one))

pub Keeps-handle_msg :
    (env : Env) (i : ℕ) (s : Server)
    → (get_or (s.ctxs i).buffer 0 0 == Kind.auth) ≡ false
    → Keeps s (handle_msg env i s).0
unfolding handle_msg
Keeps-handle_msg env i s other =
    let kind = get_or (s.ctxs i).buffer 0 0 in
    rw other (
      Keeps-if (kind == Kind.forward) s _ _ (Keeps-handle_forward_msg env i s) (
        Keeps-if (kind == Kind.expt_tun) s _ _ (Keeps-handle_expt_tun_msg env i s) (
          Keeps-if (kind == Kind.udp4_conn) s _ _ (Keeps-handle_udp4_conn_msg env i s) (
            Keeps-if (kind == Kind.vmac) s _ _ (Keeps-handle_vmac_msg env i s) (
              Keeps-if (kind == Kind.discovery) s _ _ (Keeps-handle_discovery_msg env i s) (
                Keeps-if (kind == Kind.general) s _ _ (Keeps-handle_general_msg env i s)
                  (Keeps-refl s)))))))

pub handle_msg-IsConsistent :
    (env : Env) (i : ℕ) (s : Server)
    → s.live i ≡ true
    → IsConsistent s
    → ((get_or (s.ctxs i).buffer 0 0 == Kind.auth) ≡ true
        → KeepsAddress i (ip_at 1 (s.ctxs i).buffer) s)
    → IsConsistent (handle_msg env i s).0
unfolding handle_msg
handle_msg-IsConsistent env i s live v one =
    elim (Bool-cases (get_or (s.ctxs i).buffer 0 0 == Kind.auth)) [
      | inl login ↦ rw login (handle_auth_msg-IsConsistent env i s live v (one login))
      | inr other ↦ Keeps-IsConsistent (Keeps-handle_msg env i s other) v
    ]
