-- ===== src/Server/SecondLogin.antt =====
-- A second login of one connection under another address.
use candy.Base.{
  ℕ, ◌≡◌, ◌≢◌, ◌≤◌, refl, sym, ap, ap₂, ◌∙◌, subst, Bool, true, false, List, some, arith, ==_iff,
  length,
}
use candy.Base.Map.{Map, lookup, assign, lookup-assign, lookup-assign_self, lookup-erase}
use candy.Net.Ip4.{Ip4, ip_eq_iff, ip4_eq}
use candy.Message.Layout.{ip_at, auth_size}
use candy.Message.Hash.{check_auth}
use candy.Server.State.{Env, Server, set_buffer}
use candy.Server.Handlers.{reject_if, log_in, checked_auth, handle_auth_msg}
use candy.Server.Serve.{without, disconnect}
use candy.Server.Logins.{LoggedIn, log_in-LoggedIn, ip_at-check_auth}

still_there :
    (i : ℕ) (old ip : Ip4) (m : Map Ip4 ℕ)
    → lookup old m ≡ some i
    → old ≢ ip
    → lookup old (without i ip (some i) (assign ip i m)) ≡ some i
unfolding without
still_there i old ip m h ne =
    ground
      (arith, h, lookup-erase ip old (assign ip i m), lookup-assign ip old i m, ip_eq_iff ip old)

-- The entry under another address than the last login's outlives the connection.
disconnect_leaves :
    (i : ℕ) (s t : Server) (old ip : Ip4)
    → LoggedIn i ip s t
    → lookup old s.ip_ctx_map ≡ some i
    → old ≢ ip
    → (lookup old (disconnect i t).ip_ctx_map ≡ some i) × ((disconnect i t).live i ≡ false)
unfolding disconnect
disconnect_leaves i s t old ip l h ne = (
  ap₂ (λ x m. lookup old (without i x (lookup x m) m)) l.own_ip l.map_is
      ∙ ap (λ o. lookup old (without i ip o (assign ip i s.ip_ctx_map)))
          (lookup-assign_self ip i s.ip_ctx_map)
      ∙ still_there i old ip s.ip_ctx_map h ne,
  rw ((==_iff i i).1 refl),
)

module _ (env : Env) (i : ℕ) (s : Server) where
  abbrev checked : Bool × List ℕ
  checked = check_auth env.sha256 s.password (s.ctxs i).buffer

  pub handle_auth_msg_accepted :
      auth_size ≤ length (s.ctxs i).buffer
      → checked.0 ≡ true
      → handle_auth_msg env i s ≡ log_in i (ip_at 1 checked.1) (set_buffer i checked.1 s)
  unfolding handle_auth_msg checked_auth reject_if
  handle_auth_msg_accepted long ok = ground arith

  -- When a connection that is in the map under one address has a valid AUTH message accepted for
  -- another one and then ends, the first address still leads to it, although its context is gone.
  pub second_login_dangles :
      (old : Ip4)
      → lookup old s.ip_ctx_map ≡ some i
      → auth_size ≤ length (s.ctxs i).buffer
      → (check_auth env.sha256 s.password (s.ctxs i).buffer).0 ≡ true
      → old ≢ ip_at 1 (s.ctxs i).buffer
      → let t = disconnect i (handle_auth_msg env i s).0 in
        (lookup old t.ip_ctx_map ≡ some i) × (t.live i ≡ false)
  second_login_dangles old h long ok ne =
      let sent_ip = ip_at-check_auth env.sha256 s.password (s.ctxs i).buffer in
      subst
        (λ r.
          (lookup old (disconnect i r.0).ip_ctx_map ≡ some i) × ((disconnect i r.0).live i ≡ false))
        (sym (handle_auth_msg_accepted long ok))
        (disconnect_leaves i (set_buffer i checked.1 s)
          (log_in i (ip_at 1 checked.1) (set_buffer i checked.1 s)).0 old (ip_at 1 checked.1)
          (log_in-LoggedIn i (ip_at 1 checked.1) (set_buffer i checked.1 s)) h
          (λ e. ne (e ∙ sent_ip)))
