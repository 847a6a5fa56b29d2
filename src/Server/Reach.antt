-- ===== src/Server/Reach.antt =====
-- The threads of all connections in any order: the map names live connections only, unless one
-- connection logs in twice.
use candy.Base.{
  ℕ, ◌≡◌, refl, sym, ap, ◌∙◌, Bool, true, false, ◌&&◌, List, ◌∷◌, Option, none, some, ◌==◌,
  if◌then◌else◌, inl, inr, arith, Bool-cases, ==_iff, get_or,
}
use mathlib.Core.Bool.{false≢true}
use candy.Base.Int.{eqb_ℤ, pos}
use candy.Base.Map.{Map, lookup, lookup-erase, beq_self}
use candy.Net.Ip4.{Ip4, ip4_eq}
use candy.Message.Kind
use candy.Message.Layout.{ip_at}
use candy.Server.State.{Env, Server, Outcome, finished, thrown, undefined, set_buffer}
use candy.Server.Serve.{
  handle_msg, Event, ping, close, binary, other_frame, timeout, failure, without, disconnect, after,
  handle_event, serve, connect, shutdown,
}
use candy.Server.Keeps.{Keeps-set_buffer, Keeps-send_frame}
use candy.Server.Logins.{
  IsConsistent, Keeps-IsConsistent, KeepsAddress, KeepsAddress-set_buffer, handle_msg-IsConsistent,
}

lookup-without :
    (i : ℕ) (ip k : Ip4) (o : Option ℕ) (m : Map Ip4 ℕ) (j : ℕ)
    → lookup k (without i ip o m) ≡ some j
    → lookup k m ≡ some j
unfolding without
lookup-without i ip k none m j h = h
lookup-without i ip k (some x) m j h = ground (arith, h, lookup-erase ip k m)

-- The entry of the connection itself goes.
lookup-without_self :
    (i : ℕ) (ip : Ip4) (m : Map Ip4 ℕ)
    → lookup ip m ≡ some i
    → lookup ip (without i ip (lookup ip m) m) ≡ none
unfolding without
lookup-without_self i ip m h = ground (arith, h, lookup-erase ip ip m, beq_self ip)

disconnect-IsConsistent : (i : ℕ) (s : Server) → IsConsistent s → IsConsistent (disconnect i s)
unfolding disconnect
disconnect-IsConsistent i s v = record { owner = owner }
  where
    m : Map Ip4 ℕ
    m = s.ip_ctx_map

    owner :
        (ip : Ip4) (j : ℕ)
        → lookup ip (without i (s.ctxs i).ip (lookup (s.ctxs i).ip m) m) ≡ some j
        → ((if i == j then false else s.live j) ≡ true) × ((s.ctxs j).ip ≡ ip)
    owner ip j h =
        let before = lookup-without i (s.ctxs i).ip ip (lookup (s.ctxs i).ip m) m j h in
        let o = v.owner ip j before in
        elim (Bool-cases (i == j)) [
          | inl same ↦
              let e : i ≡ j = (==_iff i j).0 same in
              let k : (s.ctxs i).ip ≡ ip = ap (λ x. (s.ctxs x).ip) e ∙ o.1 in
              let gone =
                lookup-without_self i (s.ctxs i).ip m
                  (ap (λ x. lookup x m) k ∙ before ∙ ap some (sym e)) in
              let h' : lookup (s.ctxs i).ip (without i (s.ctxs i).ip (lookup (s.ctxs i).ip m) m)
                  ≡ some j =
                ap (λ x. lookup x (without i (s.ctxs i).ip (lookup (s.ctxs i).ip m) m)) k ∙ h in
              cc
          | inr other ↦ (rw other o.0, o.1)
        ]

connect-IsConsistent :
    (i : ℕ) (s : Server) → s.live i ≡ false → IsConsistent s → IsConsistent (connect i s)
unfolding connect
connect-IsConsistent i s new v = record {
  owner = λ ip j h.
      let o = v.owner ip j h in
      elim (Bool-cases (i == j)) [
        | inl same ↦ absurd (false≢true (sym new ∙ ap s.live ((==_iff i j).0 same) ∙ o.0))
        | inr other ↦ (rw other o.0, rw other o.1)
      ];
}

-- What the theorem asks of an event: an AUTH message on a connection that has an entry carries
-- the address of that entry.
abbrev pub LogsInOnce : ℕ → Event → Server → Type 0
LogsInOnce i ev s =
    (c : ℕ) (b : List ℕ) → ev ≡ binary c b → c ≡ Kind.auth → KeepsAddress i (ip_at 1 (c ∷ b)) s

after-IsConsistent : (i : ℕ) (r : Server × Outcome) → IsConsistent r.0 → IsConsistent (after i r)
after-IsConsistent i (s, finished) v = v
after-IsConsistent i (s, thrown) v = disconnect-IsConsistent i s v
after-IsConsistent i (s, undefined) v = v

module _ (env : Env) (i : ℕ) (s : Server) (live : s.live i ≡ true) (v : IsConsistent s) where
  binary-IsConsistent :
      (c : ℕ) (b : List ℕ)
      → (c ≡ Kind.auth → KeepsAddress i (ip_at 1 (c ∷ b)) s)
      → IsConsistent (handle_msg env i (set_buffer i (c ∷ b) s)).0
  binary-IsConsistent c b one =
      handle_msg-IsConsistent env i (set_buffer i (c ∷ b) s) live
        (Keeps-IsConsistent (Keeps-set_buffer i (c ∷ b) s) v)
        (λ login.
          let buffer : ((set_buffer i (c ∷ b) s).ctxs i).buffer ≡ c ∷ b =
            rw ((==_iff i i).1 refl) in
          let is_auth : (c == Kind.auth) ≡ true =
            sym (ap (λ x. get_or x 0 0 == Kind.auth) buffer) ∙ login in
          rw buffer (
            KeepsAddress-set_buffer i (ip_at 1 (c ∷ b)) (c ∷ b) s
              (one ((==_iff c Kind.auth).0 is_auth))))

  handle_event-IsConsistent :
      (ev : Event) → LogsInOnce i ev s → IsConsistent (handle_event env i ev s)
  unfolding handle_event
  handle_event-IsConsistent (ping b) one =
      after-IsConsistent i _ (Keeps-IsConsistent (Keeps-send_frame i b s) v)
  handle_event-IsConsistent close one = disconnect-IsConsistent i s v
  handle_event-IsConsistent (binary c b) one =
      after-IsConsistent i _ (binary-IsConsistent c b (one c b refl))
  handle_event-IsConsistent other_frame one = v
  handle_event-IsConsistent timeout one = v
  handle_event-IsConsistent failure one = disconnect-IsConsistent i s v

  serve-IsConsistent : (ev : Event) → LogsInOnce i ev s → IsConsistent (serve env i ev s)
  unfolding serve
  serve-IsConsistent ev one = elim (Bool-cases (s.running && eqb_ℤ (s.ctxs i).status (pos 0))) [
    | inl go ↦ rw go (handle_event-IsConsistent ev one)
    | inr stop ↦ rw stop (disconnect-IsConsistent i s v)
  ]

-- The steps: a new connection, a round of one that exists, shutdown, and sockets that begin or
-- cease to fail.
pub data Step : Server → Server → Type 0 where
  joins : {s : Server} (i : ℕ) → s.live i ≡ false → Step s (connect i s)
  serves :
      {s : Server} (env : Env) (i : ℕ) (ev : Event)
      → s.live i ≡ true
      → LogsInOnce i ev s
      → Step s (serve env i ev s)
  stops : {s : Server} → Step s (shutdown s)
  fails : {s : Server} (broken : ℕ → Bool) → Step s (record s { broken = broken })

pub data Reach (s : Server) : Server → Type 0 where
  here : Reach s s
  next : {t u : Server} → Reach s t → Step t u → Reach s u

Step-IsConsistent : {s t : Server} → Step s t → IsConsistent s → IsConsistent t
Step-IsConsistent (joins {s} i new) v = connect-IsConsistent i s new v
Step-IsConsistent (serves {s} env i ev live one) v = serve-IsConsistent env i s live v ev one
Step-IsConsistent stops v = unfold shutdown in record { owner = v.owner }
Step-IsConsistent (fails broken) v = record { owner = v.owner }

-- From a server whose map names only live connections, each under its own address, every order of
-- steps of all connections leads to such a server again, provided that a connection which has an
-- entry sends AUTH again only for the address of that entry.
pub Reach-IsConsistent : {s t : Server} → IsConsistent s → Reach s t → IsConsistent t
Reach-IsConsistent v here = v
Reach-IsConsistent v (next r st) = Step-IsConsistent st (Reach-IsConsistent v r)
