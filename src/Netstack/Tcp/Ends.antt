-- ===== src/Netstack/Tcp/Ends.antt =====
-- The pcb and the socket end together, each once.
mod Counts
mod Lwip
use candy.Base.{
  ℕ, zero, suc, ◌+◌, ◌-◌, min, ◌≡◌, refl, sym, ap, ◌∙◌, Bool, true, false, ◌||◌, List, All, [], ◌∷◌,
  ◌++◌, Option, none, some, arith, length, take, drop, if◌then◌else◌,
}
use candy.Netstack.Tcp.State.{
  StackTask, ack_recved, write, eof, ReactorTask, flush, resume, close_fd, Event, to_pcb, outputs,
  recved, from_fd, to_fd, interest, no_interest, del, fd_closed, pcb_closed, pcb_aborted, pcb_freed,
  session_removed, SessionTcp, new_session, start, Room, Wrote, fits, no_memory, refused, Sent,
  takes, Got, bytes, Answers,
}
use candy.Netstack.Tcp.Stack.{
  end_of_pcb, close_from_stack, buffer, on_recv, Pump, add_chunk, pump_loop, update_read_interest,
  take_out, close_if_drained, after_pump, pump_to_lwip, no_chunk, write_to_lwip, close_if_empty,
  on_fd_eof_from_stack, ack_loop, ack_recved_to_lwip,
}
use candy.Netstack.Tcp.Reactor.{
  close_socket, close_from_reactor, FlushEnd, drained, blocked, broken, Flush, taken, flush_loop,
  flushed, after_flush, flush_forward, pause, took, at_eof, on_fd_readable, on_err, abort,
  close_later, shutdown_from_stack, close_now,
}
use candy.Netstack.Tcp.Calls.{
  resume_read, run_stack_task, run_reactor_task, next_stack_task, next_reactor_task, Call, calls,
}
use candy.Netstack.Tcp.Induction.{AnyAnswers, any_answers, IsKept, calls_kept}
use candy.Netstack.Tcp.Ends.Counts.{
  pcb_ends, fd_ends, closes_stack, closes_reactor, closes_fd, closes_stack-append, closes_fd-append,
  one_if, IsTied, or_true, or_false,
}
use candy.Netstack.Tcp.Ends.Lwip.{
  close_from_stack-IsTied, close_from_reactor-IsTied, SameEnds, same_ends, flush_loop-SameEnds,
  pump_to_lwip-IsTied, write_to_lwip-IsTied, on_fd_eof_from_stack-IsTied, on_recv-IsTied,
  ack_recved_to_lwip-IsTied,
}

-- A task that closes nothing, behind the others.
closed_still :
    (ts us : List StackTask) → closes_stack us ≡ false → closes_stack (ts ++ us) ≡ closes_stack ts
closed_still ts us h =
    closes_stack-append ts us ∙ ap (λ b. closes_stack ts || b) h ∙ or_false (closes_stack ts)

after_flush-IsTied :
    (end : FlushEnd) (f : Flush) (s : SessionTcp)
    → SameEnds s.log f.log
    → IsTied s
    → IsTied (after_flush end f s)
unfolding after_flush flushed pcb_ends fd_ends closes_stack
after_flush-IsTied drained f s h o =
    ground (arith, closed_still s.stack_tasks (ack_recved ∷ []) refl)
after_flush-IsTied blocked f s h o =
    ground (arith, closed_still s.stack_tasks (ack_recved ∷ []) refl)
after_flush-IsTied broken f s h o =
    close_from_reactor-IsTied (record s { forward_buf = f.buf; log = f.log }) (ground arith)

flush_forward-IsTied : (e : Answers) (s : SessionTcp) → IsTied s → IsTied (flush_forward e s)
unfolding flush_forward
flush_forward-IsTied e s o =
    let f = flush_loop e.sends s.forward_buf 0 s.log in
    ground (
      arith,
      after_flush-IsTied f.end f s
          (flush_loop-SameEnds e.sends s.forward_buf 0 s.log s.log (same_ends s.log)) o,
    )

took-IsTied : (b : List ℕ) (s : SessionTcp) → IsTied s → IsTied (took b s)
unfolding took pcb_ends fd_ends closes_stack
took-IsTied b s o = ground (arith, closed_still s.stack_tasks (write b ∷ []) refl)

on_fd_readable-IsTied : (gs : List Got) (s : SessionTcp) → IsTied s → IsTied (on_fd_readable gs s)
unfolding on_fd_readable pause at_eof pcb_ends fd_ends closes_stack
on_fd_readable-IsTied [] s o = ground arith
on_fd_readable-IsTied (bytes [] ∷ gs) s o =
    ground (arith, closed_still s.stack_tasks (eof ∷ []) refl)
on_fd_readable-IsTied (bytes (x ∷ b) ∷ gs) s o =
    ground (arith, on_fd_readable-IsTied gs (took (x ∷ b) s) (took-IsTied (x ∷ b) s o))
on_fd_readable-IsTied (Got.blocks ∷ gs) s o = ground arith
on_fd_readable-IsTied (Got.fails ∷ gs) s o = ground (arith, close_from_reactor-IsTied s o)

on_err-IsTied : (s : SessionTcp) → IsTied s → IsTied (on_err s)
unfolding on_err close_from_reactor close_socket pcb_ends fd_ends
on_err-IsTied s o = ground arith

shutdown_from_stack-IsTied : (s : SessionTcp) → IsTied s → IsTied (shutdown_from_stack s)
unfolding shutdown_from_stack abort close_later pcb_ends fd_ends closes_fd
shutdown_from_stack-IsTied s o =
    ground
      (arith, closes_fd-append s.reactor_tasks (close_fd ∷ []), or_true (closes_fd s.reactor_tasks))

popped_stack :
    (ts : List StackTask) (s : SessionTcp)
    → closes_stack s.stack_tasks ≡ closes_stack ts
    → IsTied s
    → IsTied (record s { stack_tasks = ts })
popped_stack ts s same o = ground (arith, same)

next_stack_task-IsTied :
    (e : Answers) (ts : List StackTask) (s : SessionTcp)
    → s.stack_tasks ≡ ts
    → IsTied s
    → IsTied (next_stack_task e ts s)
unfolding next_stack_task run_stack_task closes_stack
next_stack_task-IsTied e [] s at o = o
next_stack_task-IsTied e (ack_recved ∷ ts) s at o =
    ack_recved_to_lwip-IsTied (record s { stack_tasks = ts })
      (popped_stack ts s (ap closes_stack at) o)
next_stack_task-IsTied e (write b ∷ ts) s at o =
    write_to_lwip-IsTied e b (record s { stack_tasks = ts })
      (popped_stack ts s (ap closes_stack at) o)
next_stack_task-IsTied e (eof ∷ ts) s at o =
    on_fd_eof_from_stack-IsTied e (record s { stack_tasks = ts })
      (popped_stack ts s (ap closes_stack at) o)
next_stack_task-IsTied e (StackTask.close ∷ ts) s at o =
    let closed = close_from_stack-IsTied e s o in unfold close_from_stack in ground (arith, closed)

popped_reactor :
    (ts : List ReactorTask) (s : SessionTcp)
    → closes_reactor s.reactor_tasks ≡ closes_reactor ts
    → closes_fd s.reactor_tasks ≡ closes_fd ts
    → IsTied s
    → IsTied (record s { reactor_tasks = ts })
popped_reactor ts s same same_fd o = ground (arith, same, same_fd)

resume_read-IsTied : (fd : Bool) (s : SessionTcp) → IsTied s → IsTied (resume_read fd s)
unfolding resume_read pcb_ends fd_ends
resume_read-IsTied fd s o = ground arith

close_task :
    (ts : List ReactorTask) (s : SessionTcp)
    → closes_fd s.reactor_tasks ≡ closes_fd ts
    → IsTied s
    → IsTied (close_from_reactor (record s { reactor_tasks = ts }))
unfolding close_from_reactor close_socket pcb_ends fd_ends closes_stack
close_task ts s same o = ground (
  arith,
  same,
  closes_stack-append s.stack_tasks (StackTask.close ∷ []),
  or_true (closes_stack s.stack_tasks),
)

close_fd_task :
    (ts : List ReactorTask) (s : SessionTcp)
    → closes_fd s.reactor_tasks ≡ true
    → IsTied s
    → IsTied (close_now (record s { reactor_tasks = ts }))
unfolding close_now close_socket pcb_ends fd_ends
close_fd_task ts s last o = ground (arith, last)

next_reactor_task-IsTied :
    (e : Answers) (ts : List ReactorTask) (s : SessionTcp)
    → s.reactor_tasks ≡ ts
    → IsTied s
    → IsTied (next_reactor_task e ts s)
unfolding next_reactor_task run_reactor_task closes_reactor closes_fd
next_reactor_task-IsTied e [] s at o = o
next_reactor_task-IsTied e (flush ∷ ts) s at o =
    flush_forward-IsTied e (record s { reactor_tasks = ts })
      (popped_reactor ts s (ap closes_reactor at) (ap closes_fd at) o)
next_reactor_task-IsTied e (resume fd ∷ ts) s at o =
    resume_read-IsTied fd (record s { reactor_tasks = ts })
      (popped_reactor ts s (ap closes_reactor at) (ap closes_fd at) o)
next_reactor_task-IsTied e (ReactorTask.close ∷ ts) s at o = close_task ts s (ap closes_fd at) o
next_reactor_task-IsTied e (close_fd ∷ ts) s at o = close_fd_task ts s (ap closes_fd at) o

connect-IsTied :
    (s : SessionTcp)
    → IsTied s
    → IsTied (record s { connected = true; log = interest true false ∷ s.log })
unfolding pcb_ends fd_ends
connect-IsTied s o = ground arith

calls-keep-ends : IsKept AnyAnswers IsTied
calls-keep-ends = record {
  recv = on_recv-IsTied;
  pump = λ e s a o. pump_to_lwip-IsTied e s o;
  task = λ e s a o. next_stack_task-IsTied e s.stack_tasks s refl o;
  err = on_err-IsTied;
  shutdown = shutdown_from_stack-IsTied;
  read = λ e s a o. on_fd_readable-IsTied e.reads s o;
  flushing = flush_forward-IsTied;
  closing = close_from_reactor-IsTied;
  connect = connect-IsTied;
  reactor = λ e s o. next_reactor_task-IsTied e s.reactor_tasks s refl o;
}

started-IsTied : (s : SessionTcp) → start true new_session ≡ some s → IsTied s
unfolding start pcb_ends fd_ends closes_stack closes_reactor closes_fd
started-IsTied s h = ground arith

-- Both are there, or both have ended once.
pub record EndsTogether (s : SessionTcp) : Type 0 where
  pub together : s.pcb ≡ s.fd
  pub pcb_once : pcb_ends s.log + one_if s.pcb ≡ 1
  pub fd_once : fd_ends s.log + one_if s.fd ≡ 1

tied_ends : (s : SessionTcp) → IsTied s → s.stack_tasks ≡ [] → s.reactor_tasks ≡ [] → EndsTogether s
tied_ends s o at at' =
    let quiet_stack : closes_stack s.stack_tasks ≡ false =
      ap closes_stack at ∙ (unfold closes_stack in refl) in
    let quiet_reactor : closes_reactor s.reactor_tasks ≡ false =
      ap closes_reactor at' ∙ (unfold closes_reactor in refl) in
    let quiet_fd : closes_fd s.reactor_tasks ≡ false =
      ap closes_fd at' ∙ (unfold closes_fd in refl) in
    ground (arith, quiet_stack, quiet_reactor, quiet_fd)

-- For a session that has dialled, after whatever calls of the two threads in whatever order, and
-- whatever lwIP and the socket answer: when no task of the session waits, either the pcb and the
-- socket are both there and neither has been closed, or both are gone, the pcb closed, aborted or
-- freed exactly once and the socket closed exactly once.
pub pcb_and_socket_end_together :
    (s : SessionTcp) (cs : List (Answers × Call))
    → start true new_session ≡ some s
    → (calls cs s).stack_tasks ≡ []
    → (calls cs s).reactor_tasks ≡ []
    → EndsTogether (calls cs s)
pcb_and_socket_end_together s cs started at at' =
    tied_ends (calls cs s)
      (calls_kept AnyAnswers IsTied calls-keep-ends cs s (any_answers cs)
        (started-IsTied s started))
      at at'
