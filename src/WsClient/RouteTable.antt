-- ===== src/WsClient/RouteTable.antt =====
-- The routes that the server tells a client: the batches, put together again.
use candy.Base.{
  ℕ, ◌≤◌, ◌<◌, ◌≡◌, refl, sym, ap, ap₂, ◌∙◌, true, false, List, [], ◌∷◌, ◌++◌, Option, some, arith,
  length, if◌then◌else◌, Bool-cases, inl, inr, ltb, map, drop, take, length-append, ==_iff,
  append-nil, append_assoc,
}
use candy.Base.Buffer.{put}
use candy.Base.Results.{◌>>=◌}
use candy.Message.Kind
use candy.Message.Layout.{sys_route_entry_size}
use candy.Net.Ip4.{Ip4}
use candy.Server.State.{SysRoute, Server, Frame, finished, set_buffer, send_frame}
use candy.Server.Routes.{
  entry, concerns, size_of, add_entry, buffer_of, flush_full, restart, send_routes,
  update_sys_route,
}
use candy.Core.Message.{sys_rt}
use candy.WsClient.State.{Effect, to_tun, to_peers}
use candy.WsClient.Handlers.{route_entry, route_entries, handle_route_msg}

-- What a client is to learn: each route goes to the TUN, and the peers hear that there is one.
pub told : List SysRoute → List Effect
told [] = []
told (rt ∷ rts) = to_tun (sys_rt (entry rt)) ∷ (to_peers (sys_rt []) ∷ told rts)

pub concerned : Ip4 → List SysRoute → List SysRoute
concerned ip [] = []
concerned ip (rt ∷ rts) = if concerns ip rt then rt ∷ concerned ip rts else concerned ip rts

entries : List SysRoute → List ℕ
entries [] = []
entries (rt ∷ rts) = entry rt ++ entries rts

-- The message of some routes.
batch : List SysRoute → List ℕ
batch rts = Kind.route ∷ (length rts ∷ (0 ∷ (0 ∷ entries rts)))

-- What a client does with some messages, one after the other.
pub learn : List (List ℕ) → Option (List Effect)
learn [] = some []
learn (b ∷ bs) = handle_route_msg b >>= λ out. learn bs >>= λ rest. some (out ++ rest)

route_entry-entry :
    (rt : SysRoute) (more : List ℕ)
    → route_entry (entry rt ++ more)
      ≡ some (to_tun (sys_rt (entry rt)) ∷ (to_peers (sys_rt []) ∷ []))
unfolding route_entry entry
route_entry-entry rt more = ground arith

drop-entry : (rt : SysRoute) (more : List ℕ) → drop sys_route_entry_size (entry rt ++ more) ≡ more
unfolding entry
drop-entry rt more = refl

route_entries-entries :
    (rts : List SysRoute) → route_entries (length rts) (entries rts) ≡ some (told rts)
unfolding route_entries entries told
route_entries-entries [] = refl
route_entries-entries (rt ∷ rts) =
    rw (route_entry-entry rt (entries rts), drop-entry rt (entries rts), route_entries-entries rts)

handle_route_msg-batch : (rts : List SysRoute) → handle_route_msg (batch rts) ≡ some (told rts)
unfolding handle_route_msg batch
handle_route_msg-batch rts = ground (arith, route_entries-entries rts)

entries-append :
    (rts : List SysRoute) (rt : SysRoute) → entries (rts ++ rt ∷ []) ≡ entries rts ++ entry rt
unfolding entries
entries-append [] rt = append-nil (entry rt)
entries-append (r ∷ rts) rt =
    ap (λ t. entry r ++ t) (entries-append rts rt)
    ∙ sym (append_assoc (entry r) (entries rts) (entry rt))

add_entry-batch :
    (rts : List SysRoute) (rt : SysRoute)
    → length rts < 255
    → add_entry rt (batch rts) ≡ batch (rts ++ rt ∷ [])
unfolding batch
add_entry-batch rts rt short =
    ap₂ (λ n t. Kind.route ∷ (n ∷ (0 ∷ (0 ∷ t)))) (omega (arith, length-append rts (rt ∷ [])))
      (sym (entries-append rts rt))

told-append : (xs ys : List SysRoute) → told (xs ++ ys) ≡ told xs ++ told ys
unfolding told
told-append [] ys = refl
told-append (x ∷ xs) ys =
    ap (λ t. to_tun (sys_rt (entry x)) ∷ (to_peers (sys_rt []) ∷ t)) (told-append xs ys)

-- The server between two rounds of the loop, with the routes that wait in the buffer.
record IsCollecting (i : ℕ) (ip : Ip4) (waiting : List SysRoute) (s : Server) : Type 0 where
  buffer_holds : (s.ctxs i).buffer ≡ batch waiting
  own_ip : (s.ctxs i).ip ≡ ip
  works : s.broken i ≡ false

abbrev to_connection : ℕ → List ℕ → Frame
to_connection i b = record { receiver = i; payload = b }

-- What a call sent to connection `i`, and that its messages teach `out`.
pub record Teaches (i : ℕ) (out : List SysRoute) (before after : List Frame) : Type 0 where
  pub batches : List (List ℕ)
  pub sent_is : after ≡ before ++ map (to_connection i) batches
  pub learnt : learn batches ≡ some (told out)

set_buffer-IsCollecting :
    (i : ℕ) (ip : Ip4) (s : Server) (next : List SysRoute)
    → (s.ctxs i).ip ≡ ip
    → s.broken i ≡ false
    → IsCollecting i ip next (set_buffer i (batch next) s)
set_buffer-IsCollecting i ip s next own works = record {
  buffer_holds = rw ((==_iff i i).1 refl);
  own_ip = rw ((==_iff i i).1 refl) own;
  works = works;
}

module _ (i : ℕ) (ip : Ip4) (s : Server) (waiting : List SysRoute)
    (c : IsCollecting i ip waiting s) where
  flush_short : length waiting ≤ 100 → flush_full i s ≡ (s, finished)
  unfolding flush_full batch
  flush_short short = rw (c.buffer_holds) (ground arith)

  flushed : Server
  flushed = record s { sent = s.sent ++ to_connection i (batch waiting) ∷ [] }

  restart-flushed : restart i flushed ≡ (set_buffer i (batch []) flushed, finished)
  unfolding restart batch flushed entries
  restart-flushed =
      ap (λ b. (set_buffer i (put 1 (0 ∷ []) (take 4 b)) flushed, finished)) c.buffer_holds

  send_waiting : send_frame i (buffer_of i s) s ≡ (flushed, finished)
  unfolding send_frame flushed
  send_waiting = ap (λ b. send_frame i b s) c.buffer_holds ∙ rw (c.works, send_frame)

  size_is : size_of (buffer_of i s) ≡ length waiting
  unfolding batch
  size_is = ap size_of c.buffer_holds

  flush_long : 100 < length waiting → flush_full i s ≡ (set_buffer i (batch []) flushed, finished)
  unfolding flush_full
  flush_long long = rw (size_is, send_waiting, restart-flushed) (ground arith)

  flushed-IsCollecting : IsCollecting i ip [] (set_buffer i (batch []) flushed)
  unfolding flushed
  flushed-IsCollecting = set_buffer-IsCollecting i ip flushed [] c.own_ip c.works

  send_none : length waiting ≡ 0 → send_routes i [] s ≡ (s, finished)
  unfolding send_routes
  send_none e = rw (size_is, e)

  send_some : 0 < length waiting → send_routes i [] s ≡ (flushed, finished)
  unfolding send_routes
  send_some h = rw (size_is, send_waiting) (ground arith)

  -- One message of the waiting routes, and what comes after it.
  one_more :
      (out : List SysRoute) (end : List Frame)
      → Teaches i out flushed.sent end
      → Teaches i (waiting ++ out) s.sent end
  unfolding learn flushed
  one_more out end r = record {
    batches = batch waiting ∷ r.batches;
    sent_is =
        r.sent_is
        ∙ append_assoc s.sent (to_connection i (batch waiting) ∷ [])
            (map (to_connection i) r.batches);
    learnt = rw (handle_route_msg-batch waiting, r.learnt, told-append waiting out);
  }

nothing_sent : (i : ℕ) (sent : List Frame) → Teaches i [] sent sent
unfolding told learn
nothing_sent i sent = record { batches = []; sent_is = sym (append-nil sent); learnt = refl }

-- The end of the loop.
send_last :
    (i : ℕ) (ip : Ip4) (s : Server) (waiting : List SysRoute)
    → IsCollecting i ip waiting s
    → Teaches i (waiting ++ []) s.sent (send_routes i [] s).0.sent
send_last i ip s [] c = rw (send_none i ip s [] c refl) (nothing_sent i s.sent)
send_last i ip s (w ∷ ws) c =
    rw (send_some i ip s (w ∷ ws) c (omega arith))
      (one_more i ip s (w ∷ ws) c [] _ (nothing_sent i _))

send_cons :
    (i : ℕ) (rt : SysRoute) (rts : List SysRoute) (s s1 : Server)
    → flush_full i
        (if concerns (s.ctxs i).ip rt then set_buffer i (add_entry rt (buffer_of i s)) s else s)
      ≡ (s1, finished)
    → send_routes i (rt ∷ rts) s ≡ send_routes i rts s1
unfolding send_routes
send_cons i rt rts s s1 e = rw e

-- The loop over the routes, the waiting ones at first among what is sent.
send_all :
    (i : ℕ) (ip : Ip4) (rts : List SysRoute) (s : Server) (waiting : List SysRoute)
    → IsCollecting i ip waiting s
    → length waiting ≤ 100
    → Teaches i (waiting ++ concerned ip rts) s.sent (send_routes i rts s).0.sent
unfolding concerned
send_all i ip [] s waiting c short = send_last i ip s waiting c
send_all i ip (rt ∷ rts) s waiting c short = elim (Bool-cases (concerns ip rt)) [
  | inr other ↦
      rw (other, send_cons i rt rts s s (rw (c.own_ip, other) (flush_short i ip s waiting c short)))
        (send_all i ip rts s waiting c short)
  | inl own ↦
      let next = waiting ++ rt ∷ [] in
      let s1 = set_buffer i (batch next) s in
      let c1 = set_buffer-IsCollecting i ip s next c.own_ip c.works in
      let own' : concerns (s.ctxs i).ip rt ≡ true = ap (λ x. concerns x rt) c.own_ip ∙ own in
      let added : (if concerns (s.ctxs i).ip rt
            then set_buffer i (add_entry rt (buffer_of i s)) s
            else s)
          ≡ s1 =
        rw own' (
          ap (λ b. set_buffer i b s)
            (ap (add_entry rt) c.buffer_holds ∙ add_entry-batch waiting rt (omega arith))) in
      rw (own, ← append_assoc waiting (rt ∷ []) (concerned ip rts))
        (elim (Bool-cases (ltb 100 (length next))) [
          | inl long ↦
              let h : 100 < length next = ground (arith, long) in
              rw (send_cons i rt rts s _ (ap (flush_full i) added ∙ flush_long i ip s1 next c1 h)) (
                one_more i ip s1 next c1 _ _
                  (send_all i ip rts _ [] (flushed-IsCollecting i ip s1 next c1) (omega arith)))
          | inr fits ↦
              let h : length next ≤ 100 = ground (arith, fits) in
              rw (send_cons i rt rts s s1 (ap (flush_full i) added ∙ flush_short i ip s1 next c1 h))
                (send_all i ip rts s1 next c1 h)
        ])
]

-- updateSysRoute on a socket that takes frames, and handleRouteMsg: the messages that are sent go to
-- the one connection, and a client that handles them in order hands on exactly the routes that
-- concern the connection's address, in the order of the server's list, however many there are.
pub routes_reach_client :
    (i : ℕ) (s : Server)
    → s.broken i ≡ false
    → Teaches i (concerned (s.ctxs i).ip s.routes) s.sent (update_sys_route i s).0.sent
unfolding update_sys_route batch entries
routes_reach_client i s works =
    send_all i (s.ctxs i).ip s.routes (set_buffer i (batch []) s) []
      (set_buffer-IsCollecting i (s.ctxs i).ip s [] refl works) (omega arith)
