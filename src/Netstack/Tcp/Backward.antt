-- ===== src/Netstack/Tcp/Backward.antt =====
-- The bytes from the socket to the pcb, and how much of them may wait.
pub mod Flow
mod Lwip
use candy.Base.{
  ℕ, zero, suc, ◌+◌, ◌*◌, ◌-◌, ◌^◌, ◌≤◌, ◌<◌, min, ◌≡◌, ◌≢◌, refl, sym, ap, ◌∙◌, Bool, true, false,
  List, All, [], ◌∷◌, ◌++◌, Option, none, some, arith, length, take, drop, length-append,
  length-take, length-drop, take-append-drop, take-add, append-nil, append_assoc, if◌then◌else◌,
}
use candy.Netstack.Tcp.State.{
  StackTask, ack_recved, write, eof, ReactorTask, Event, to_pcb, recved, from_fd, to_fd, interest,
  SessionTcp, new_session, start, high_water, low_water, Room, Wrote, fits, no_memory, refused,
  Sent, takes, Got, bytes, Answers,
}
use candy.Netstack.Tcp.Stack.{
  close_from_stack, buffer, on_recv, Pump, space_of, chunk_of, add_chunk, pump_loop, fetch_sub,
  update_read_interest, take_out, close_if_drained, after_pump, pump_to_lwip, no_chunk,
  write_to_lwip, close_if_empty, on_fd_eof_from_stack, ack_loop, ack_recved_to_lwip,
}
use candy.Netstack.Tcp.Reactor.{
  close_socket, close_from_reactor, FlushEnd, drained, blocked, broken, Flush, taken, flush_loop,
  flushed, after_flush, flush_forward, pause, took, at_eof, on_fd_readable, on_err, abort,
  close_later, shutdown_from_stack, close_now,
}
use candy.Netstack.Tcp.Calls.{resume_read, run_stack_task, next_stack_task, Call, calls}
use candy.Netstack.Tcp.Induction.{IsKept, next_reactor_task_kept, calls_kept}
use candy.Netstack.Tcp.Backward.Flow.{
  read_in, passed, queued, queued-append, waiting, IsBounded, Fits, IsUsual,
}
use candy.Netstack.Tcp.Backward.Lwip.{
  close_from_stack-IsBounded, closed_stack, close_from_reactor-IsBounded, pump_to_lwip-IsBounded,
  write_to_lwip-IsBounded, on_fd_eof_from_stack-IsBounded, on_recv-IsBounded,
}

-- The one log says of this direction what the other does.
record SameFlow (l k : List Event) : Type 0 where
  same_read : read_in k ≡ read_in l
  same_passed : passed k ≡ passed l

ack_loop-SameFlow : (fuel n : ℕ) (l k : List Event) → SameFlow l k → SameFlow l (ack_loop fuel n k)
unfolding ack_loop read_in passed
ack_loop-SameFlow zero n l k h = h
ack_loop-SameFlow (suc fuel) n l k h =
    ground (arith, ack_loop-SameFlow fuel (n - min n 0xFFFF) l (recved (min n 0xFFFF) ∷ k))

flush_loop-SameFlow :
    (sends : List Sent) (b : List ℕ) (n : ℕ) (l k : List Event)
    → SameFlow l k
    → SameFlow l (flush_loop sends b n k).log
unfolding flush_loop read_in passed
flush_loop-SameFlow [] [] n l k h = h
flush_loop-SameFlow (a ∷ sends) [] n l k h = h
flush_loop-SameFlow [] (x ∷ b) n l k h = h
flush_loop-SameFlow (takes i ∷ sends) (x ∷ b) n l k h =
    flush_loop-SameFlow sends (drop (taken i (x ∷ b)) (x ∷ b)) (n + taken i (x ∷ b)) l
      (to_fd (take (taken i (x ∷ b)) (x ∷ b)) ∷ k)
      (record { same_read = h.same_read; same_passed = h.same_passed })
flush_loop-SameFlow (Sent.blocks ∷ sends) (x ∷ b) n l k h = h
flush_loop-SameFlow (Sent.fails ∷ sends) (x ∷ b) n l k h = h

ack_recved_to_lwip-IsBounded : (s : SessionTcp) → IsBounded s → IsBounded (ack_recved_to_lwip s)
unfolding ack_recved_to_lwip
ack_recved_to_lwip-IsBounded s o = ground (
  arith,
  ack_loop-SameFlow s.pending_recved s.pending_recved s.log s.log
      (record { same_read = refl; same_passed = refl }),
)

acked_stack : (ts : List StackTask) → queued (ts ++ ack_recved ∷ []) ≡ queued ts
unfolding queued
acked_stack ts = queued-append ts (ack_recved ∷ []) ∙ append-nil (queued ts)

after_flush-IsBounded :
    (end : FlushEnd) (f : Flush) (s : SessionTcp)
    → SameFlow s.log f.log
    → IsBounded s
    → IsBounded (after_flush end f s)
unfolding after_flush flushed close_from_reactor close_socket read_in passed
after_flush-IsBounded drained f s h o = ground (arith, acked_stack s.stack_tasks)
after_flush-IsBounded blocked f s h o = ground (arith, acked_stack s.stack_tasks)
after_flush-IsBounded broken f s h o = ground (arith, closed_stack s.stack_tasks)

flush_forward-IsBounded :
    (e : Answers) (s : SessionTcp) → IsBounded s → IsBounded (flush_forward e s)
unfolding flush_forward
flush_forward-IsBounded e s o =
    let f = flush_loop e.sends s.forward_buf 0 s.log in
    ground (
      arith,
      after_flush-IsBounded f.end f s
          (flush_loop-SameFlow e.sends s.forward_buf 0 s.log s.log
            (record { same_read = refl; same_passed = refl }))
          o,
    )

took-IsBounded :
    (b : List ℕ) (s : SessionTcp)
    → length b ≤ 65536
    → s.backward_bytes < high_water
    → IsBounded s
    → IsBounded (took b s)
unfolding took read_in passed queued
took-IsBounded b s small low o =
    let more : waiting s ++ b ≡ waiting (took b s) =
      append_assoc s.backward_buf (queued s.stack_tasks) b
      ∙ ap (λ w. s.backward_buf ++ w)
          (ap (λ c. queued s.stack_tasks ++ c) (sym (append-nil b))
            ∙ sym (queued-append s.stack_tasks (write b ∷ []))) in
    record {
      stream = λ up.
          ap (λ w. w ++ b) (o.stream up)
          ∙ append_assoc (passed s.log) (waiting s) b
          ∙ ap (λ w. passed s.log ++ w) more;
      counted = λ up. omega (arith, o.counted up, length-append (waiting s) b, ap length more);
      bounded = omega arith;
    }

eof_stack : (ts : List StackTask) → queued (ts ++ eof ∷ []) ≡ queued ts
unfolding queued
eof_stack ts = queued-append ts (eof ∷ []) ∙ append-nil (queued ts)

on_fd_readable-IsBounded :
    (gs : List Got) (s : SessionTcp) → All Fits gs → IsBounded s → IsBounded (on_fd_readable gs s)
unfolding on_fd_readable pause at_eof read_in passed
on_fd_readable-IsBounded [] s a o = ground arith
on_fd_readable-IsBounded (bytes [] ∷ gs) s a o = ground (arith, eof_stack s.stack_tasks)
on_fd_readable-IsBounded (bytes (x ∷ b) ∷ gs) s a o =
    ground (arith, on_fd_readable-IsBounded gs (took (x ∷ b) s) a.1, took-IsBounded (x ∷ b) s a.0)
on_fd_readable-IsBounded (Got.blocks ∷ gs) s a o = ground arith
on_fd_readable-IsBounded (Got.fails ∷ gs) s a o = ground (arith, close_from_reactor-IsBounded s o)

on_err-IsBounded : (s : SessionTcp) → IsBounded s → IsBounded (on_err s)
unfolding on_err close_from_reactor close_socket read_in passed
on_err-IsBounded s o = ground (arith, closed_stack s.stack_tasks)

shutdown_from_stack-IsBounded : (s : SessionTcp) → IsBounded s → IsBounded (shutdown_from_stack s)
unfolding shutdown_from_stack abort close_later read_in passed
shutdown_from_stack-IsBounded s o = ground arith

connect-IsBounded :
    (s : SessionTcp)
    → IsBounded s
    → IsBounded (record s { connected = true; log = interest true false ∷ s.log })
unfolding read_in passed
connect-IsBounded s o = ground arith

resume_read-IsBounded : (fd : Bool) (s : SessionTcp) → IsBounded s → IsBounded (resume_read fd s)
unfolding resume_read read_in passed
resume_read-IsBounded fd s o = ground arith

close_now-IsBounded : (s : SessionTcp) → IsBounded s → IsBounded (close_now s)
unfolding close_now close_socket read_in passed
close_now-IsBounded s o = ground arith

-- A task without bytes.
popped_task :
    (ts : List StackTask) (s : SessionTcp)
    → queued s.stack_tasks ≡ queued ts
    → IsBounded s
    → IsBounded (record s { stack_tasks = ts })
popped_task ts s same o = record {
  stream = λ up. o.stream up ∙ ap (λ q. passed s.log ++ (s.backward_buf ++ q)) same;
  counted = λ up. o.counted up ∙ ap (λ q. length (s.backward_buf ++ q)) same;
  bounded = o.bounded;
}

next_stack_task-IsBounded :
    (e : Answers) (ts : List StackTask) (s : SessionTcp)
    → s.stack_tasks ≡ ts
    → IsUsual e
    → IsBounded s
    → IsBounded (next_stack_task e ts s)
unfolding next_stack_task run_stack_task queued
next_stack_task-IsBounded e [] s at u o = o
next_stack_task-IsBounded e (ack_recved ∷ ts) s at u o =
    ack_recved_to_lwip-IsBounded (record s { stack_tasks = ts }) (popped_task ts s (ap queued at) o)
next_stack_task-IsBounded e (write b ∷ ts) s at u o = write_to_lwip-IsBounded e u b ts s at o
next_stack_task-IsBounded e (eof ∷ ts) s at u o =
    on_fd_eof_from_stack-IsBounded e u (record s { stack_tasks = ts })
      (popped_task ts s (ap queued at) o)
next_stack_task-IsBounded e (StackTask.close ∷ ts) s at u o =
    close_from_stack-IsBounded e (record s { stack_tasks = ts }) (popped_task ts s (ap queued at) o)

calls-keep-backward : IsKept IsUsual IsBounded
calls-keep-backward = record {
  recv = on_recv-IsBounded;
  pump = λ e s u o. pump_to_lwip-IsBounded e u s o;
  task = λ e s u o. next_stack_task-IsBounded e s.stack_tasks s refl u o;
  err = on_err-IsBounded;
  shutdown = shutdown_from_stack-IsBounded;
  read = λ e s u o. on_fd_readable-IsBounded e.reads s u.sized o;
  flushing = flush_forward-IsBounded;
  closing = close_from_reactor-IsBounded;
  connect = connect-IsBounded;
  reactor = λ e s o.
      next_reactor_task_kept IsBounded
        (λ s ts o. record { stream = o.stream; counted = o.counted; bounded = o.bounded })
        flush_forward-IsBounded close_from_reactor-IsBounded resume_read-IsBounded
        close_now-IsBounded e s.reactor_tasks s o;
}

started-IsBounded : (s : SessionTcp) → start true new_session ≡ some s → IsBounded s
unfolding start read_in passed queued
started-IsBounded s h = ground arith

-- For a session that has dialled, whatever calls the two threads make in whatever order, where
-- tcp_write takes its bytes or has no memory and recv gives at most 65536 bytes at a time: while
-- there is a pcb, the bytes that came from the socket are those that went to the pcb followed by
-- those that wait, in order, as many as are counted. Never are 256 KiB and 65536 bytes counted as
-- waiting.
pub backward_keeps_limits :
    (s : SessionTcp) (cs : List (Answers × Call))
    → start true new_session ≡ some s
    → All (λ c. IsUsual c.0) cs
    → IsBounded (calls cs s)
backward_keeps_limits s cs started usual =
    calls_kept IsUsual IsBounded calls-keep-backward cs s usual (started-IsBounded s started)
