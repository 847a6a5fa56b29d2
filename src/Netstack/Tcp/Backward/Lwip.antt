-- ===== src/Netstack/Tcp/Backward/Lwip.antt =====
-- The calls of the stack thread that write to lwIP keep the sizes.
use candy.Base.{
  ℕ, ◌≡◌, refl, sym, ap, ◌∙◌, Bool, true, List, [], ◌∷◌, ◌++◌, Option, none, some, arith, length,
  take, drop, length-append, length-drop, take-append-drop, append-nil, append_assoc,
}
use candy.Netstack.Tcp.State.{StackTask, write, SessionTcp, Answers}
use candy.Netstack.Tcp.Stack.{
  close_from_stack, buffer, on_recv, Pump, pump_loop, fetch_sub, update_read_interest, take_out,
  close_if_drained, after_pump, pump_to_lwip, no_chunk, write_to_lwip, close_if_empty,
  on_fd_eof_from_stack,
}
use candy.Netstack.Tcp.Reactor.{close_socket, close_from_reactor}
use candy.Netstack.Tcp.Backward.Flow.{
  read_in, passed, queued, queued-append, waiting, IsBounded, IsUsual, IsPumped, pump_loop-IsPumped,
}

-- The pump takes what it has passed on out of the buffer and out of the count, and lets the
-- reactor read again when little waits.
after_take_out :
    (p : Pump) (s : SessionTcp)
    → s.pcb ≡ true
    → IsPumped s.backward_buf s.log p
    → IsBounded s
    → IsBounded (update_read_interest (take_out p s))
unfolding update_read_interest take_out fetch_sub read_in passed
after_take_out p s up h o =
    let rest = drop p.offset s.backward_buf ++ queued s.stack_tasks in
    let whole : passed p.log ++ rest ≡ read_in p.log =
      ap (λ t. t ++ rest) h.front
      ∙ append_assoc (passed s.log) (take p.offset s.backward_buf) rest
      ∙ ap (λ t. passed s.log ++ t)
          (sym (
              append_assoc (take p.offset s.backward_buf) (drop p.offset s.backward_buf)
                (queued s.stack_tasks))
            ∙ ap (λ t. t ++ queued s.stack_tasks) (take-append-drop p.offset s.backward_buf))
      ∙ sym (o.stream up)
      ∙ sym h.same_read in
    ground (
      arith,
      whole,
      h.in_range,
      o.counted up,
      length-append s.backward_buf (queued s.stack_tasks),
      length-append (drop p.offset s.backward_buf) (queued s.stack_tasks),
      length-drop p.offset s.backward_buf,
    )

pub close_from_stack-IsBounded :
    (e : Answers) (s : SessionTcp) → IsBounded s → IsBounded (close_from_stack e s)
unfolding close_from_stack
close_from_stack-IsBounded e s o = ground arith

pub closed_stack : (ts : List StackTask) → queued (ts ++ StackTask.close ∷ []) ≡ queued ts
unfolding queued
closed_stack ts = queued-append ts (StackTask.close ∷ []) ∙ append-nil (queued ts)

pub close_from_reactor-IsBounded : (s : SessionTcp) → IsBounded s → IsBounded (close_from_reactor s)
unfolding close_from_reactor close_socket read_in passed
close_from_reactor-IsBounded s o = ground (arith, closed_stack s.stack_tasks)

module _ (e : Answers) (usual : IsUsual e) where
  after_pump-IsBounded :
      (p : Pump) (s : SessionTcp)
      → s.pcb ≡ true
      → IsPumped s.backward_buf s.log p
      → IsBounded s
      → IsBounded (after_pump e p s)
  unfolding after_pump close_if_drained
  after_pump-IsBounded p s up h o =
      let t = update_read_interest (take_out p s) in
      ground (
        arith,
        h.works,
        after_take_out p s up h o,
        close_from_stack-IsBounded e t (after_take_out p s up h o),
      )

  pub pump_to_lwip-IsBounded : (s : SessionTcp) → IsBounded s → IsBounded (pump_to_lwip e s)
  unfolding pump_to_lwip
  pump_to_lwip-IsBounded s o =
      let start : IsPumped s.backward_buf s.log (no_chunk s) = record {
        in_range = omega arith;
        works = refl;
        same_read = refl;
        front = sym (append-nil (passed s.log));
      } in
      ground (
        arith,
        after_pump-IsBounded (pump_loop s.backward_buf e.rooms (no_chunk s)) s,
        pump_loop-IsPumped s.backward_buf e.rooms s.log (no_chunk s) usual.accepted start,
      )

  -- The task's bytes go behind those that wait.
  pub write_to_lwip-IsBounded :
      (b : List ℕ) (ts : List StackTask) (s : SessionTcp)
      → s.stack_tasks ≡ write b ∷ ts
      → IsBounded s
      → IsBounded (write_to_lwip e b (record s { stack_tasks = ts }))
  unfolding write_to_lwip queued
  write_to_lwip-IsBounded b ts s at o =
      let popped = record s { stack_tasks = ts; backward_buf = s.backward_buf ++ b } in
      let same : waiting s ≡ waiting popped =
        ap (λ us. s.backward_buf ++ queued us) at
        ∙ sym (append_assoc s.backward_buf b (queued ts)) in
      let moved : IsBounded popped = record {
        stream = λ up. o.stream up ∙ ap (λ w. passed s.log ++ w) same;
        counted = λ up. o.counted up ∙ ap length same;
        bounded = o.bounded;
      } in
      ground (arith, pump_to_lwip-IsBounded popped moved, o.bounded)

  pub on_fd_eof_from_stack-IsBounded :
      (s : SessionTcp) → IsBounded s → IsBounded (on_fd_eof_from_stack e s)
  unfolding on_fd_eof_from_stack close_if_empty
  on_fd_eof_from_stack-IsBounded s o =
      let ended = record s { fd_eof = true } in
      let pumped =
        pump_to_lwip-IsBounded ended
          (record { stream = o.stream; counted = o.counted; bounded = o.bounded }) in
      ground (arith, pumped, close_from_stack-IsBounded e (pump_to_lwip e ended) pumped)

pub on_recv-IsBounded :
    (e : Answers) (p : Option (List ℕ)) (no_error : Bool) (s : SessionTcp)
    → IsBounded s
    → IsBounded (on_recv e p no_error s)
unfolding on_recv buffer read_in passed
on_recv-IsBounded e none no_error s o = close_from_stack-IsBounded e s o
on_recv-IsBounded e (some b) no_error s o = ground (arith, close_from_stack-IsBounded e s o)
