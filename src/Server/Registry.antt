-- ===== src/Server/Registry.antt =====
-- What the server promises about its address map, apart from how the map is stored: a registry of
-- who owns which address.
use candy.Base.{
  ℕ, ◌≡◌, ◌≢◌, ◌⊎◌, refl, sym, ap, ◌∙◌, subst, Bool, true, ◌&&◌, List, ◌∷◌, Option, none, some,
  ◌==◌, inl, inr, arith, Bool-cases, ==_iff, get_or, length, ltb,
}
use candy.Base.Int.{eqb_ℤ, pos}
use candy.Base.Map.{lookup, assign, lookup-assign_self, lookup-assign_ne, lookup-erase, beq_self}
use candy.Net.Ip4.{Ip4, ip_eq_iff, ip4_eq}
use candy.Message.Kind
use candy.Message.Layout.{ip_at, auth_size}
use candy.Message.Hash.{check_auth}
use candy.Server.State.{Env, Server, Outcome, finished, thrown, undefined, send_frame, set_buffer}
use candy.Server.Handlers.{reject_if, checked_auth, handle_auth_msg}
use candy.Server.Serve.{
  handle_msg, Event, ping, close, binary, other_frame, timeout, failure, without, disconnect, after,
  handle_event, serve,
}
use candy.Server.Keeps.{
  Keeps, Keeps-refl, Keeps-trans, Keeps-set_buffer, Keeps-send_frame, Keeps-refuse,
}
use candy.Server.Logins.{log_in-LoggedIn, ip_at-check_auth, Keeps-handle_msg}
use candy.Server.SecondLogin.{handle_auth_msg_accepted}

abbrev pub Registry : Type 0
Registry = Ip4 → Option ℕ

abbrev pub registry : Server → Registry
registry s ip = lookup ip s.ip_ctx_map

abbrev SameBut : Ip4 → Registry → Registry → Type 0
SameBut ip r u = (k : Ip4) → ip ≢ k → u k ≡ r k

-- The first half of a step of connection `i`: nothing changes, or an AUTH message that the password
-- confirms gives the address in it to the connection.
pub data Login (env : Env) (password : List ℕ) (i : ℕ) (ev : Event) (r u : Registry) : Type 0 where
  nobody : ((k : Ip4) → u k ≡ r k) → Login env password i ev r u
  claims :
      (b : List ℕ)
      → ev ≡ binary Kind.auth b
      → (check_auth env.sha256 password (Kind.auth ∷ b)).0 ≡ true
      → u (ip_at 1 (Kind.auth ∷ b)) ≡ some i
      → SameBut (ip_at 1 (Kind.auth ∷ b)) r u
      → Login env password i ev r u

-- The second half: nothing changes, or an address that the connection owns is given back.
pub data Leave (i : ℕ) (r u : Registry) : Type 0 where
  stays : ((k : Ip4) → u k ≡ r k) → Leave i r u
  leaves : (ip : Ip4) → r ip ≡ some i → u ip ≡ none → SameBut ip r u → Leave i r u

pub record Refined (env : Env) (password : List ℕ) (i : ℕ) (ev : Event) (r u : Registry)
    : Type 0 where
  pub between : Registry
  pub login : Login env password i ev r between
  pub leave : Leave i between u

same_registry : {s t : Server} → Keeps s t → (k : Ip4) → registry t k ≡ registry s k
same_registry kept k = ap (lookup k) kept.map_same

module _ (i : ℕ) (s : Server) where
  abbrev own : Ip4
  own = (s.ctxs i).ip

  -- The map behind the end of connection `i`.
  disconnect_leaves :
      (o : Option ℕ)
      → lookup own s.ip_ctx_map ≡ o
      → Leave i (registry s) (λ k. lookup k (without i own o s.ip_ctx_map))
  unfolding without
  disconnect_leaves none e = stays (λ k. refl)
  disconnect_leaves (some j) e = elim (Bool-cases (j == i)) [
    | inl same ↦
        leaves own (e ∙ ap some ((==_iff j i).0 same))
          (rw same (ground (arith, lookup-erase own own s.ip_ctx_map, beq_self own)))
          (λ k ne. rw same (ground (arith, lookup-erase own k s.ip_ctx_map, ip_eq_iff own k, ne)))
    | inr other ↦ stays (λ k. rw other)
  ]

  pub Leave-disconnect : Leave i (registry s) (registry (disconnect i s))
  unfolding disconnect
  Leave-disconnect = disconnect_leaves (lookup own s.ip_ctx_map) refl

module _ (env : Env) (i : ℕ) (ev : Event) (s : Server) where
  -- A round that logs nobody in, and then may end the connection.
  abbrev Meets : Server → Type 0
  Meets t = Refined env s.password i ev (registry s) (registry t)

  kept-Meets : (t : Server) → Keeps s t → Meets t
  kept-Meets t k = record {
    between = registry t;
    login = nobody (same_registry k);
    leave = stays (λ k. refl);
  }

  left-Meets :
      (t : Server) → Login env s.password i ev (registry s) (registry t) → Meets (disconnect i t)
  left-Meets t l = record { between = registry t; login = l; leave = Leave-disconnect i t }

  after-Meets :
      (r : Server × Outcome)
      → Login env s.password i ev (registry s) (registry r.0)
      → Meets (after i r)
  after-Meets (t, finished) l = record {
    between = registry t;
    login = l;
    leave = stays (λ k. refl);
  }
  after-Meets (t, thrown) l = left-Meets t l
  after-Meets (t, undefined) l = record {
    between = registry t;
    login = l;
    leave = stays (λ k. refl);
  }

-- What an AUTH message does to the map, with what is true of a message that is accepted.
module _ (env : Env) (i : ℕ) (s : Server) where
  abbrev received : List ℕ
  received = (s.ctxs i).buffer

  abbrev checked : Bool × List ℕ
  checked = check_auth env.sha256 s.password received

  abbrev Entered : Server → Type 0
  Entered t = (checked.0 ≡ true) × (t.ip_ctx_map ≡ assign (ip_at 1 received) i s.ip_ctx_map)

  handle_auth_msg_cases : Keeps s (handle_auth_msg env i s).0 ⊎ Entered (handle_auth_msg env i s).0
  handle_auth_msg_cases = elim (Bool-cases (ltb (length received) auth_size)) [
    | inl short ↦ inl (unfold handle_auth_msg reject_if in rw short (Keeps-refuse i s))
    | inr long ↦ elim (Bool-cases checked.0) [
      | inr bad ↦ inl (
          unfold handle_auth_msg checked_auth reject_if in
          rw (long, bad)
            (Keeps-trans (Keeps-set_buffer i checked.1 s)
              (Keeps-refuse i (set_buffer i checked.1 s))))
      | inl ok ↦
          let l = log_in-LoggedIn i (ip_at 1 checked.1) (set_buffer i checked.1 s) in
          inr (
            ok,
            ap (λ r. r.0.ip_ctx_map) (handle_auth_msg_accepted env i s (ground (arith, long)) ok)
                ∙ l.map_is
                ∙ ap (λ ip. assign ip i s.ip_ctx_map)
                    (ip_at-check_auth env.sha256 s.password received),
          )
    ]
  ]

module _ (env : Env) (i : ℕ) (s : Server) (c : ℕ) (b : List ℕ) where
  abbrev s1 : Server
  s1 = set_buffer i (c ∷ b) s

  buffer_is : (s1.ctxs i).buffer ≡ c ∷ b
  buffer_is = rw ((==_iff i i).1 refl)

  abbrev LoginBy : Server → Type 0
  LoginBy t = Login env s.password i (binary c b) (registry s) (registry t)

  nobody_in : (t : Server) → Keeps s1 t → LoginBy t
  nobody_in t k = nobody (λ ip. same_registry k ip)

  claimed : c ≡ Kind.auth → (t : Server) → Entered env i s1 t → LoginBy t
  claimed kind t e =
      let ip = ip_at 1 (c ∷ b) in
      let map_is : t.ip_ctx_map ≡ assign ip i s.ip_ctx_map =
        e.1 ∙ ap (λ x. assign (ip_at 1 x) i s.ip_ctx_map) buffer_is in
      claims b (ap (λ k. binary k b) kind)
        (ap (λ x. (check_auth env.sha256 s.password x).0)
            (ap (λ k. k ∷ b) (sym kind) ∙ sym buffer_is)
          ∙ e.0)
        (ap (lookup ip) map_is ∙ lookup-assign_self ip i s.ip_ctx_map)
        (λ k ne. ap (lookup k) map_is ∙ lookup-assign_ne ip k i s.ip_ctx_map ne)

  message-Login : LoginBy (handle_msg env i s1).0
  message-Login = elim (Bool-cases (get_or (s1.ctxs i).buffer 0 0 == Kind.auth)) [
    | inr other ↦ nobody_in _ (Keeps-handle_msg env i s1 other)
    | inl login ↦
        let is_auth : (c == Kind.auth) ≡ true =
          sym (ap (λ x. get_or x 0 0 == Kind.auth) buffer_is) ∙ login in
        let kind = (==_iff c Kind.auth).0 is_auth in
        let handled : handle_msg env i s1 ≡ handle_auth_msg env i s1 =
          unfold handle_msg in rw login in
        subst (λ r. LoginBy r.0) (sym handled)
          (elim (handle_auth_msg_cases env i s1) [
            | inl k ↦ nobody_in (handle_auth_msg env i s1).0 k
            | inr e ↦ claimed kind (handle_auth_msg env i s1).0 e
          ])
  ]

module _ (env : Env) (i : ℕ) (s : Server) where
  handle_event-Meets : (ev : Event) → Meets env i ev s (handle_event env i ev s)
  unfolding handle_event
  handle_event-Meets (ping b) =
      after-Meets env i (ping b) s (send_frame i b s)
        (nobody (same_registry (Keeps-send_frame i b s)))
  handle_event-Meets close = left-Meets env i close s s (nobody (λ k. refl))
  handle_event-Meets (binary c b) = after-Meets env i (binary c b) s _ (message-Login env i s c b)
  handle_event-Meets other_frame = kept-Meets env i other_frame s s (Keeps-refl s)
  handle_event-Meets timeout = kept-Meets env i timeout s s (Keeps-refl s)
  handle_event-Meets failure = left-Meets env i failure s s (nobody (λ k. refl))

  -- Every round of a connection's loop, whatever its event and its state, does to the registry of
  -- addresses at most two things: an AUTH message that Auth::check accepts gives the address in it
  -- to the connection, and then an address of the connection itself is given back. Nothing
  -- else in the registry changes.
  pub serve_refines_registry :
      (ev : Event) → Refined env s.password i ev (registry s) (registry (serve env i ev s))
  unfolding serve
  serve_refines_registry ev = elim (Bool-cases (s.running && eqb_ℤ (s.ctxs i).status (pos 0))) [
    | inl go ↦ rw go (handle_event-Meets ev)
    | inr stop ↦ rw stop (left-Meets env i ev s s (nobody (λ k. refl)))
  ]
