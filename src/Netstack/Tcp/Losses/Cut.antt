-- ===== src/Netstack/Tcp/Losses/Cut.antt =====
-- Behind the end of the socket nothing is sent.
use candy.Base.{
  ℕ, zero, suc, ◌-◌, min, ◌≡◌, Bool, true, false, List, [], ◌∷◌, ◌++◌, Option, none, some, arith,
}
use candy.Netstack.Tcp.State.{
  StackTask, ack_recved, write, eof, Event, recved, interest, SessionTcp, Room, Got, bytes, Answers,
}
use candy.Netstack.Tcp.Stack.{
  close_from_stack, buffer, on_recv, Pump, add_chunk, pump_loop, update_read_interest, take_out,
  close_if_drained, after_pump, pump_to_lwip, no_chunk, write_to_lwip, close_if_empty,
  on_fd_eof_from_stack, ack_loop, ack_recved_to_lwip,
}
use candy.Netstack.Tcp.Reactor.{
  close_socket, close_from_reactor, flush_forward, pause, took, at_eof, on_fd_readable, on_err,
  abort, close_later, shutdown_from_stack, close_now,
}
use candy.Netstack.Tcp.Calls.{resume_read, run_stack_task, next_stack_task}
use candy.Netstack.Tcp.Induction.{AnyAnswers, IsKept, next_reactor_task_kept}
use candy.Netstack.Tcp.Forward.Lwip.{sent}

-- The socket is gone, and just these bytes went to it.
pub record IsCut (b : List ℕ) (s : SessionTcp) : Type 0 where
  pub gone : s.fd ≡ false
  pub sent_is : sent s.log ≡ b

module _ (b : List ℕ) where
  pump_loop-sent :
      (buf : List ℕ) (rs : List Room) (p : Pump)
      → sent p.log ≡ b
      → sent (pump_loop buf rs p).log ≡ b
  unfolding pump_loop add_chunk sent
  pump_loop-sent buf [] p h = h
  pump_loop-sent buf (r ∷ rs) p h = ground (arith, pump_loop-sent buf rs (add_chunk buf r p) h)

  ack_loop-sent : (fuel n : ℕ) (l : List Event) → sent l ≡ b → sent (ack_loop fuel n l) ≡ b
  unfolding ack_loop sent
  ack_loop-sent zero n l h = h
  ack_loop-sent (suc fuel) n l h =
      ground (arith, ack_loop-sent fuel (n - min n 0xFFFF) (recved (min n 0xFFFF) ∷ l))

  close_from_stack-IsCut :
      (e : Answers) (s : SessionTcp) → IsCut b s → IsCut b (close_from_stack e s)
  unfolding close_from_stack sent
  close_from_stack-IsCut e s o = ground arith

  close_from_reactor-IsCut : (s : SessionTcp) → IsCut b s → IsCut b (close_from_reactor s)
  unfolding close_from_reactor close_socket
  close_from_reactor-IsCut s o = ground arith

  pump_to_lwip-IsCut : (e : Answers) (s : SessionTcp) → IsCut b s → IsCut b (pump_to_lwip e s)
  unfolding pump_to_lwip after_pump close_if_drained update_read_interest take_out close_from_stack
      sent
  pump_to_lwip-IsCut e s o =
      ground (arith, pump_loop-sent s.backward_buf e.rooms (no_chunk s) o.sent_is)

  on_recv-IsCut :
      (e : Answers) (p : Option (List ℕ)) (no_error : Bool) (s : SessionTcp)
      → IsCut b s
      → IsCut b (on_recv e p no_error s)
  unfolding on_recv buffer sent
  on_recv-IsCut e none no_error s o = close_from_stack-IsCut e s o
  on_recv-IsCut e (some c) no_error s o = ground (arith, close_from_stack-IsCut e s o)

  next_stack_task-IsCut :
      (e : Answers) (ts : List StackTask) (s : SessionTcp)
      → IsCut b s
      → IsCut b (next_stack_task e ts s)
  unfolding next_stack_task run_stack_task ack_recved_to_lwip write_to_lwip on_fd_eof_from_stack
      close_if_empty
  next_stack_task-IsCut e [] s o = o
  next_stack_task-IsCut e (ack_recved ∷ ts) s o =
      ground (arith, ack_loop-sent s.pending_recved s.pending_recved s.log o.sent_is)
  next_stack_task-IsCut e (write c ∷ ts) s o = ground (
    arith,
    pump_to_lwip-IsCut e (record s { stack_tasks = ts; backward_buf = s.backward_buf ++ c }),
  )
  next_stack_task-IsCut e (eof ∷ ts) s o =
      let t = record s { stack_tasks = ts; fd_eof = true } in
      ground (arith, pump_to_lwip-IsCut e t, close_from_stack-IsCut e (pump_to_lwip e t))
  next_stack_task-IsCut e (StackTask.close ∷ ts) s o =
      close_from_stack-IsCut e (record s { stack_tasks = ts })
        (record { gone = o.gone; sent_is = o.sent_is })

  on_fd_readable-IsCut :
      (gs : List Got) (s : SessionTcp) → IsCut b s → IsCut b (on_fd_readable gs s)
  unfolding on_fd_readable pause took at_eof sent
  on_fd_readable-IsCut [] s o = ground arith
  on_fd_readable-IsCut (bytes [] ∷ gs) s o = ground arith
  on_fd_readable-IsCut (bytes (x ∷ c) ∷ gs) s o =
      ground (arith, on_fd_readable-IsCut gs (took (x ∷ c) s))
  on_fd_readable-IsCut (Got.blocks ∷ gs) s o = ground arith
  on_fd_readable-IsCut (Got.fails ∷ gs) s o = ground (arith, close_from_reactor-IsCut s o)

  flush_forward-IsCut : (e : Answers) (s : SessionTcp) → IsCut b s → IsCut b (flush_forward e s)
  unfolding flush_forward
  flush_forward-IsCut e s o = ground arith

  on_err-IsCut : (s : SessionTcp) → IsCut b s → IsCut b (on_err s)
  unfolding on_err close_from_reactor close_socket sent
  on_err-IsCut s o = ground arith

  shutdown_from_stack-IsCut : (s : SessionTcp) → IsCut b s → IsCut b (shutdown_from_stack s)
  unfolding shutdown_from_stack abort close_later sent
  shutdown_from_stack-IsCut s o = ground arith

  connect-IsCut :
      (s : SessionTcp)
      → IsCut b s
      → IsCut b (record s { connected = true; log = interest true false ∷ s.log })
  unfolding sent
  connect-IsCut s o = ground arith

  resume_read-IsCut : (fd : Bool) (s : SessionTcp) → IsCut b s → IsCut b (resume_read fd s)
  unfolding resume_read sent
  resume_read-IsCut fd s o = ground arith

  close_now-IsCut : (s : SessionTcp) → IsCut b s → IsCut b (close_now s)
  unfolding close_now close_socket
  close_now-IsCut s o = ground arith

  pub calls-IsCut : IsKept AnyAnswers (IsCut b)
  calls-IsCut = record {
    recv = on_recv-IsCut;
    pump = λ e s a o. pump_to_lwip-IsCut e s o;
    task = λ e s a o. next_stack_task-IsCut e s.stack_tasks s o;
    err = on_err-IsCut;
    shutdown = shutdown_from_stack-IsCut;
    read = λ e s a o. on_fd_readable-IsCut e.reads s o;
    flushing = flush_forward-IsCut;
    closing = close_from_reactor-IsCut;
    connect = connect-IsCut;
    reactor = λ e s o.
        next_reactor_task_kept (IsCut b) (λ t ts q. record { gone = q.gone; sent_is = q.sent_is })
          flush_forward-IsCut close_from_reactor-IsCut resume_read-IsCut close_now-IsCut e
          s.reactor_tasks s o;
  }
