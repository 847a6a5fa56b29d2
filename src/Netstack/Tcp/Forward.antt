-- ===== src/Netstack/Tcp/Forward.antt =====
-- The bytes from the pcb to the socket.
pub mod Lwip
use candy.Base.{
  ℕ, zero, suc, ◌+◌, ◌-◌, ◌≤◌, min, ◌≡◌, refl, sym, ap, ◌∙◌, Bool, true, false, List, All, [], ◌∷◌,
  ◌++◌, Option, none, some, inl, inr, Bool-cases, arith, length, take, drop, length-append,
  length-take, take-append-drop, append-nil, append_assoc, if◌then◌else◌,
}
use candy.Netstack.Tcp.State.{
  StackTask, ack_recved, write, eof, ReactorTask, flush, resume, close_fd, Event, from_pcb, to_pcb,
  outputs, recved, from_fd, to_fd, interest, no_interest, del, fd_closed, pcb_closed, pcb_aborted,
  pcb_freed, session_removed, SessionTcp, new_session, start, Room, Wrote, fits, no_memory, refused,
  Sent, takes, Got, bytes, Answers,
}
use candy.Netstack.Tcp.Stack.{
  end_of_pcb, is_empty, close_from_stack, buffer, on_recv, Pump, add_chunk, pump_loop,
  update_read_interest, take_out, close_if_drained, after_pump, pump_to_lwip, no_chunk, on_sent,
  write_to_lwip, close_if_empty, on_fd_eof_from_stack, ack_loop, ack_recved_to_lwip,
}
use candy.Netstack.Tcp.Reactor.{
  close_socket, close_from_reactor, FlushEnd, drained, blocked, broken, Flush, taken, flush_loop,
  flushed, after_flush, flush_forward, on_connected, pause, took, at_eof, on_fd_readable,
  before_connect, read_if, write_if, on_fd_event, on_err, abort, close_later, shutdown_from_stack,
  close_now,
}
use candy.Netstack.Tcp.Induction.{
  AnyAnswers, any_answers, IsKept, next_reactor_task_kept, calls_kept,
}
use candy.Netstack.Tcp.Calls.{
  resume_read, run_stack_task, run_reactor_task, next_stack_task, next_reactor_task, Call, receives,
  acknowledged, fails, stack_task, teardown, event, reactor_task, call, calls,
}
use candy.Netstack.Tcp.Forward.Lwip.{
  received, sent, acked, IsForwarded, close_from_stack-IsForwarded, close_from_reactor-IsForwarded,
  pump_to_lwip-IsForwarded, write_to_lwip-IsForwarded, on_fd_eof_from_stack-IsForwarded,
  on_recv-IsForwarded, ack_recved_to_lwip-IsForwarded,
}

-- What the loop of a flush has sent and still has.
record IsFlushed (buf : List ℕ) (n : ℕ) (l : List Event) (f : Flush) : Type 0 where
  same_received : received f.log ≡ received l
  same_acked : acked f.log ≡ acked l
  all_bytes : sent f.log ++ f.buf ≡ sent l ++ buf
  counted : f.acked + length (sent l) ≡ n + length (sent f.log)

sent_step :
    (n : ℕ) (b : List ℕ) (l : List Event) (f : Flush) (acked_before : ℕ)
    → IsFlushed (drop (taken n b) b) (acked_before + taken n b) (to_fd (take (taken n b) b) ∷ l) f
    → IsFlushed b acked_before l f
unfolding received sent acked taken
sent_step n b l f before h = record {
  same_received = h.same_received;
  same_acked = h.same_acked;
  all_bytes =
      h.all_bytes
      ∙ append_assoc (sent l) (take (taken n b) b) (drop (taken n b) b)
      ∙ ap (λ t. sent l ++ t) (take-append-drop (taken n b) b);
  counted =
      omega
        (arith, h.counted, length-append (sent l) (take (taken n b) b), length-take (taken n b) b);
}

flush_loop-IsFlushed :
    (sends : List Sent) (b : List ℕ) (n : ℕ) (l : List Event)
    → IsFlushed b n l (flush_loop sends b n l)
unfolding flush_loop
flush_loop-IsFlushed [] [] n l = record {
  same_received = refl;
  same_acked = refl;
  all_bytes = refl;
  counted = refl;
}
flush_loop-IsFlushed (a ∷ sends) [] n l = record {
  same_received = refl;
  same_acked = refl;
  all_bytes = refl;
  counted = refl;
}
flush_loop-IsFlushed [] (x ∷ b) n l = record {
  same_received = refl;
  same_acked = refl;
  all_bytes = refl;
  counted = refl;
}
flush_loop-IsFlushed (takes k ∷ sends) (x ∷ b) n l = sent_step k (x ∷ b) l _ n (
    flush_loop-IsFlushed sends (drop (taken k (x ∷ b)) (x ∷ b)) (n + taken k (x ∷ b))
      (to_fd (take (taken k (x ∷ b)) (x ∷ b)) ∷ l))
flush_loop-IsFlushed (Sent.blocks ∷ sends) (x ∷ b) n l = record {
  same_received = refl;
  same_acked = refl;
  all_bytes = refl;
  counted = refl;
}
flush_loop-IsFlushed (Sent.fails ∷ sends) (x ∷ b) n l = record {
  same_received = refl;
  same_acked = refl;
  all_bytes = refl;
  counted = refl;
}

after_flush-IsForwarded :
    (end : FlushEnd) (f : Flush) (s : SessionTcp)
    → IsFlushed s.forward_buf 0 s.log f
    → IsForwarded s
    → IsForwarded (after_flush end f s)
unfolding after_flush flushed close_from_reactor close_socket received sent acked
after_flush-IsForwarded drained f s h o = ground arith
after_flush-IsForwarded blocked f s h o = ground arith
after_flush-IsForwarded broken f s h o = ground arith

flush_forward-IsForwarded :
    (e : Answers) (s : SessionTcp) → IsForwarded s → IsForwarded (flush_forward e s)
unfolding flush_forward
flush_forward-IsForwarded e s o =
    let f = flush_loop e.sends s.forward_buf 0 s.log in
    ground (
      arith,
      after_flush-IsForwarded f.end f s (flush_loop-IsFlushed e.sends s.forward_buf 0 s.log) o,
    )

on_fd_readable-IsForwarded :
    (gs : List Got) (s : SessionTcp) → IsForwarded s → IsForwarded (on_fd_readable gs s)
unfolding on_fd_readable pause took at_eof received sent acked
on_fd_readable-IsForwarded [] s o = ground arith
on_fd_readable-IsForwarded (bytes [] ∷ gs) s o = ground arith
on_fd_readable-IsForwarded (bytes (x ∷ b) ∷ gs) s o =
    ground (arith, on_fd_readable-IsForwarded gs (took (x ∷ b) s))
on_fd_readable-IsForwarded (Got.blocks ∷ gs) s o = ground arith
on_fd_readable-IsForwarded (Got.fails ∷ gs) s o = ground (arith, close_from_reactor-IsForwarded s o)

popped_task :
    (ts : List StackTask) (s : SessionTcp)
    → IsForwarded s
    → IsForwarded (record s { stack_tasks = ts })
popped_task ts s o = record { stream = o.stream; no_more = o.no_more; no_less = o.no_less }

next_stack_task-IsForwarded :
    (e : Answers) (ts : List StackTask) (s : SessionTcp)
    → IsForwarded s
    → IsForwarded (next_stack_task e ts s)
unfolding next_stack_task run_stack_task
next_stack_task-IsForwarded e [] s o = o
next_stack_task-IsForwarded e (ack_recved ∷ ts) s o =
    ack_recved_to_lwip-IsForwarded (record s { stack_tasks = ts }) (popped_task ts s o)
next_stack_task-IsForwarded e (write b ∷ ts) s o =
    write_to_lwip-IsForwarded e b (record s { stack_tasks = ts }) (popped_task ts s o)
next_stack_task-IsForwarded e (eof ∷ ts) s o =
    on_fd_eof_from_stack-IsForwarded e (record s { stack_tasks = ts }) (popped_task ts s o)
next_stack_task-IsForwarded e (StackTask.close ∷ ts) s o =
    close_from_stack-IsForwarded e (record s { stack_tasks = ts }) (popped_task ts s o)

on_err-IsForwarded : (s : SessionTcp) → IsForwarded s → IsForwarded (on_err s)
unfolding on_err close_from_reactor close_socket received sent acked
on_err-IsForwarded s o = ground arith

shutdown_from_stack-IsForwarded :
    (s : SessionTcp) → IsForwarded s → IsForwarded (shutdown_from_stack s)
unfolding shutdown_from_stack abort close_later received sent acked
shutdown_from_stack-IsForwarded s o = ground arith

connect-IsForwarded :
    (s : SessionTcp)
    → IsForwarded s
    → IsForwarded (record s { connected = true; log = interest true false ∷ s.log })
unfolding received sent acked
connect-IsForwarded s o = ground arith

resume_read-IsForwarded :
    (fd : Bool) (s : SessionTcp) → IsForwarded s → IsForwarded (resume_read fd s)
unfolding resume_read received sent acked
resume_read-IsForwarded fd s o = ground arith

close_now-IsForwarded : (s : SessionTcp) → IsForwarded s → IsForwarded (close_now s)
unfolding close_now close_socket received sent acked
close_now-IsForwarded s o = ground arith

calls-keep-forward : IsKept AnyAnswers IsForwarded
calls-keep-forward = record {
  recv = on_recv-IsForwarded;
  pump = λ e s a o. pump_to_lwip-IsForwarded e s o;
  task = λ e s a o. next_stack_task-IsForwarded e s.stack_tasks s o;
  err = on_err-IsForwarded;
  shutdown = shutdown_from_stack-IsForwarded;
  read = λ e s a o. on_fd_readable-IsForwarded e.reads s o;
  flushing = flush_forward-IsForwarded;
  closing = close_from_reactor-IsForwarded;
  connect = connect-IsForwarded;
  reactor = λ e s o.
      next_reactor_task_kept IsForwarded
        (λ s ts o. record { stream = o.stream; no_more = o.no_more; no_less = o.no_less })
        flush_forward-IsForwarded close_from_reactor-IsForwarded resume_read-IsForwarded
        close_now-IsForwarded e s.reactor_tasks s o;
}

started-IsForwarded : (s : SessionTcp) → start true new_session ≡ some s → IsForwarded s
unfolding start received sent acked
started-IsForwarded s h = ground arith

-- For a session that has dialled, whatever calls the two threads make in whatever order, and
-- whatever lwIP and the socket answer: the bytes that came from the pcb are those that went to the
-- socket followed by those that wait for it, in order; no byte is acknowledged to lwIP that the
-- socket has not taken, and while the session is not closing each byte that the socket has taken is
-- either acknowledged or counted as to be acknowledged.
pub forward_keeps_order :
    (s : SessionTcp) (cs : List (Answers × Call))
    → start true new_session ≡ some s
    → IsForwarded (calls cs s)
forward_keeps_order s cs started =
    calls_kept AnyAnswers IsForwarded calls-keep-forward cs s (any_answers cs)
      (started-IsForwarded s started)
