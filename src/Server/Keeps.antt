-- ===== src/Server/Keeps.antt =====
-- What no handler but the login changes: the map, the set of connections, their addresses.
use candy.Base.{
  ℕ, ◌≡◌, refl, ap, ◌∙◌, Bool, true, false, List, [], ◌∷◌, Option, none, some, ◌==◌, if◌then◌else◌,
  inl, inr, Bool-cases, Option-cases, ==_iff,
}
use candy.Base.Map.{Map, lookup}
use candy.Net.Ip4.{Ip4, ip4_eq}
use candy.Net.Address.{Address}
use candy.Net.Cidr.{Parsed, returns, overrun}
use candy.Server.State.{
  Env, WsCtx, SysRoute, Server, Outcome, finished, thrown, undefined, Act, ◌>>=◌, set_ctx,
  set_buffer, refuse, send_frame, send_each,
}
use candy.Server.Routes.{
  flush_full, restart, send_routes, update_sys_route, concerns, buffer_of, add_entry,
}
use candy.Server.Alloc.{Choice, found, exhausted, no_fuel}
use candy.Server.Handlers.{
  handle_forward_msg, handle_expt_tun_msg, handle_udp4_conn_msg, handle_vmac_msg,
  handle_discovery_msg, handle_general_msg, reject_if, checked_expt_tun, checked_vmac, deliver,
  spread, offer, offer_chosen, offer_parsed, forward_to, send_expt_tun,
}

pub record Keeps (s t : Server) : Type 0 where
  pub map_same : t.ip_ctx_map ≡ s.ip_ctx_map
  pub live_same : t.live ≡ s.live
  pub ip_same : (j : ℕ) → (t.ctxs j).ip ≡ (s.ctxs j).ip

pub Keeps-refl : (s : Server) → Keeps s s
Keeps-refl s = record { map_same = refl; live_same = refl; ip_same = λ j. refl }

pub Keeps-trans : {s t u : Server} → Keeps s t → Keeps t u → Keeps s u
Keeps-trans k l = record {
  map_same = l.map_same ∙ k.map_same;
  live_same = l.live_same ∙ k.live_same;
  ip_same = λ j. l.ip_same j ∙ k.ip_same j;
}

pub Keeps-bind :
    (s : Server) (m : Server × Outcome) (f : Act)
    → Keeps s m.0
    → ((t : Server) → Keeps t (f t).0)
    → Keeps s (m >>= f).0
Keeps-bind s (t, finished) f k h = Keeps-trans k (h t)
Keeps-bind s (t, thrown) f k h = k
Keeps-bind s (t, undefined) f k h = k

-- A context may change, but for its address.
pub Keeps-set_ctx :
    (i : ℕ) (c : WsCtx) (s : Server) → c.ip ≡ (s.ctxs i).ip → Keeps s (set_ctx i c s)
Keeps-set_ctx i c s e = record {
  map_same = refl;
  live_same = refl;
  ip_same = λ j. elim (Bool-cases (i == j)) [
    | inl same ↦ rw same (e ∙ ap (λ k. (s.ctxs k).ip) ((==_iff i j).0 same))
    | inr other ↦ rw other
  ];
}

pub Keeps-send_frame : (j : ℕ) (b : List ℕ) (s : Server) → Keeps s (send_frame j b s).0
unfolding send_frame
Keeps-send_frame j b s = elim (Bool-cases (s.broken j)) [
  | inl bad ↦ rw bad (Keeps-refl s)
  | inr good ↦ rw good (record { map_same = refl; live_same = refl; ip_same = λ j. refl })
]

-- Either branch of a test.
pub Keeps-if :
    (b : Bool) (s : Server) (x y : Server × Outcome)
    → Keeps s x.0
    → Keeps s y.0
    → Keeps s (if b then x else y).0
Keeps-if true s x y k l = k
Keeps-if false s x y k l = l

Keeps-pick : (b : Bool) (s t u : Server) → Keeps s t → Keeps s u → Keeps s (if b then t else u)
Keeps-pick true s t u k l = k
Keeps-pick false s t u k l = l

pub Keeps-refuse : (i : ℕ) (s : Server) → Keeps s (refuse i s)
Keeps-refuse i s = Keeps-set_ctx i _ s refl

pub Keeps-reject_if :
    (b : Bool) (i : ℕ) {s t : Server} (r : Server × Outcome)
    → Keeps s t
    → Keeps s r.0
    → Keeps s (reject_if b i t r).0
unfolding reject_if
Keeps-reject_if true i {t = t} r k l = Keeps-trans k (Keeps-refuse i t)
Keeps-reject_if false i r k l = l

pub Keeps-set_buffer : (i : ℕ) (b : List ℕ) (s : Server) → Keeps s (set_buffer i b s)
Keeps-set_buffer i b s = Keeps-set_ctx i _ s refl

pub Keeps-send_each :
    (test : Ip4 → ℕ → Bool) (b : List ℕ) (m : Map Ip4 ℕ) (s : Server)
    → Keeps s (send_each test b m s).0
unfolding send_each
Keeps-send_each test b [] s = Keeps-refl s
Keeps-send_each test b ((ip, j) ∷ m) s =
    Keeps-bind s (if test ip j then send_frame j b s else (s, finished)) (send_each test b m)
      (Keeps-if (test ip j) s _ _ (Keeps-send_frame j b s) (Keeps-refl s))
      (Keeps-send_each test b m)

pub Keeps-deliver : (ip : Ip4) (b : List ℕ) (s : Server) → Keeps s (deliver ip b s).0
unfolding deliver
Keeps-deliver ip b s = elim (Option-cases (lookup ip s.ip_ctx_map)) [
  | inl e ↦ rw (e, deliver) (Keeps-refl s)
  | inr (j, e) ↦ rw (e, deliver) (Keeps-send_frame j b s)
]

pub Keeps-spread : (src dst : Ip4) (b : List ℕ) (s : Server) → Keeps s (spread src dst b s).0
unfolding spread
Keeps-spread src dst b s =
    Keeps-if _ s _ _ (Keeps-send_each _ b s.ip_ctx_map s) (Keeps-deliver dst b s)

Keeps-flush_full : (i : ℕ) (s : Server) → Keeps s (flush_full i s).0
unfolding flush_full restart
Keeps-flush_full i s =
    Keeps-if _ s _ _
      (Keeps-bind s (send_frame i (buffer_of i s) s) (restart i)
        (Keeps-send_frame i (buffer_of i s) s) (λ t. Keeps-set_buffer i _ t))
      (Keeps-refl s)

Keeps-send_routes : (i : ℕ) (rts : List SysRoute) (s : Server) → Keeps s (send_routes i rts s).0
unfolding send_routes
Keeps-send_routes i [] s = Keeps-if _ s _ _ (Keeps-send_frame i (buffer_of i s) s) (Keeps-refl s)
Keeps-send_routes i (rt ∷ rts) s =
    Keeps-bind s (flush_full i (added rt)) (send_routes i rts)
      (Keeps-trans (Keeps-added rt) (Keeps-flush_full i (added rt))) (Keeps-send_routes i rts)
  where
    added : SysRoute → Server
    added rt =
        if concerns (s.ctxs i).ip rt then set_buffer i (add_entry rt (buffer_of i s)) s else s

    Keeps-added : (rt : SysRoute) → Keeps s (added rt)
    Keeps-added rt = Keeps-pick _ s _ _ (Keeps-set_buffer i _ s) (Keeps-refl s)

pub Keeps-update_sys_route : (i : ℕ) (s : Server) → Keeps s (update_sys_route i s).0
unfolding update_sys_route
Keeps-update_sys_route i s = Keeps-trans (Keeps-set_buffer i _ s) (Keeps-send_routes i s.routes _)

Keeps-send_expt_tun :
    (env : Env) (i : ℕ) (a : Address) (s : Server) → Keeps s (send_expt_tun env i a s).0
unfolding send_expt_tun
Keeps-send_expt_tun env i a s = Keeps-trans (Keeps-set_buffer i _ s) (Keeps-send_frame i _ _)

Keeps-set_dhcp : (a : Address) (s : Server) → Keeps s (record s { dhcp = a })
Keeps-set_dhcp a s = record { map_same = refl; live_same = refl; ip_same = λ j. refl }

Keeps-offer_chosen :
    (env : Env) (i : ℕ) (c : Choice) (s : Server) → Keeps s (offer_chosen env i c s).0
unfolding offer_chosen
Keeps-offer_chosen env i (found a) s =
    Keeps-trans (Keeps-set_dhcp a s) (Keeps-send_expt_tun env i a _)
Keeps-offer_chosen env i exhausted s = Keeps-refuse i s
Keeps-offer_chosen env i no_fuel s = Keeps-refl s

Keeps-offer_parsed :
    (env : Env) (i : ℕ) (r : Parsed) (s : Server) → Keeps s (offer_parsed env i r s).0
unfolding offer_parsed offer
Keeps-offer_parsed env i (returns a status) s =
    Keeps-reject_if _ i _ (Keeps-refl s)
      (Keeps-if _ s _ _ (Keeps-send_expt_tun env i a s) (Keeps-offer_chosen env i _ s))
Keeps-offer_parsed env i overrun s = Keeps-refl s

Keeps-forward_to :
    (env : Env) (i : ℕ) (o : Option ℕ) (s : Server) → Keeps s (forward_to env i o s).0
unfolding forward_to
Keeps-forward_to env i (some j) s = Keeps-send_frame j _ s
Keeps-forward_to env i none s = Keeps-if _ s _ _ (Keeps-send_each _ _ s.ip_ctx_map s) (Keeps-refl s)

module _ (env : Env) (i : ℕ) (s : Server) where
  pub Keeps-handle_forward_msg : Keeps s (handle_forward_msg env i s).0
  unfolding handle_forward_msg
  Keeps-handle_forward_msg =
      Keeps-reject_if _ i _ (Keeps-refl s)
        (Keeps-reject_if _ i _ (Keeps-refl s) (Keeps-forward_to env i _ s))

  Keeps-checked_expt_tun : (r : Bool × List ℕ) → Keeps s (checked_expt_tun env i r s).0
  unfolding checked_expt_tun
  Keeps-checked_expt_tun (accepted, b) =
      let k = Keeps-set_buffer i b s in
      Keeps-reject_if _ i _ k
        (Keeps-reject_if _ i _ k (Keeps-trans k (Keeps-offer_parsed env i _ _)))

  pub Keeps-handle_expt_tun_msg : Keeps s (handle_expt_tun_msg env i s).0
  unfolding handle_expt_tun_msg
  Keeps-handle_expt_tun_msg = Keeps-reject_if _ i _ (Keeps-refl s) (Keeps-checked_expt_tun _)

  Keeps-checked_vmac : (r : Bool × List ℕ) → Keeps s (checked_vmac i r s).0
  unfolding checked_vmac
  Keeps-checked_vmac (accepted, b) =
      Keeps-reject_if _ i _ (Keeps-set_buffer i b s) (Keeps-set_ctx i _ s refl)

  pub Keeps-handle_vmac_msg : Keeps s (handle_vmac_msg env i s).0
  unfolding handle_vmac_msg
  Keeps-handle_vmac_msg = Keeps-reject_if _ i _ (Keeps-refl s) (Keeps-checked_vmac _)

  -- A message that is relayed behind three checks.
  Keeps-checked :
      (b c d : Bool) (r : Server × Outcome)
      → Keeps s r.0
      → Keeps s (reject_if b i s (reject_if c i s (reject_if d i s r))).0
  Keeps-checked b c d r k =
      let h = Keeps-refl s in
      Keeps-reject_if b i _ h (Keeps-reject_if c i _ h (Keeps-reject_if d i _ h k))

  pub Keeps-handle_udp4_conn_msg : Keeps s (handle_udp4_conn_msg i s).0
  unfolding handle_udp4_conn_msg
  Keeps-handle_udp4_conn_msg = Keeps-checked _ _ _ _ (Keeps-deliver _ _ s)

  pub Keeps-handle_discovery_msg : Keeps s (handle_discovery_msg i s).0
  unfolding handle_discovery_msg
  Keeps-handle_discovery_msg = Keeps-checked _ _ _ _ (Keeps-spread _ _ _ s)

  pub Keeps-handle_general_msg : Keeps s (handle_general_msg i s).0
  unfolding handle_general_msg
  Keeps-handle_general_msg = Keeps-checked _ _ _ _ (Keeps-spread _ _ _ s)
