-- ===== src/Netstack/Tcp/Calls.antt =====
-- The calls of SessionTcp by both threads, in any order.
use candy.Base.{ℕ, Bool, true, false, not, ◌&&◌, List, [], ◌∷◌, Option, if◌then◌else◌}
use candy.Netstack.Tcp.State.{
  StackTask, ack_recved, write, eof, ReactorTask, flush, resume, close_fd, interest, SessionTcp,
  Answers,
}
use candy.Netstack.Tcp.Stack.{
  on_recv, on_sent, write_to_lwip, on_fd_eof_from_stack, ack_recved_to_lwip, close_from_stack,
}
use candy.Netstack.Tcp.Reactor.{
  flush_forward, close_from_reactor, close_now, on_fd_event, on_err, shutdown_from_stack,
}

unfoldable pub resume_read : Bool → SessionTcp → SessionTcp
resume_read fd s = if fd && not s.closing then record s { log = interest true false ∷ s.log } else s

unfoldable pub run_stack_task : Answers → StackTask → SessionTcp → SessionTcp
run_stack_task e ack_recved s = ack_recved_to_lwip s
run_stack_task e (write b) s = write_to_lwip e b s
run_stack_task e eof s = on_fd_eof_from_stack e s
run_stack_task e StackTask.close s = close_from_stack e s

unfoldable pub run_reactor_task : Answers → ReactorTask → SessionTcp → SessionTcp
run_reactor_task e flush s = flush_forward e s
run_reactor_task e (resume fd) s = resume_read fd s
run_reactor_task e ReactorTask.close s = close_from_reactor s
run_reactor_task e close_fd s = close_now s

unfoldable pub next_stack_task : Answers → List StackTask → SessionTcp → SessionTcp
next_stack_task e [] s = s
next_stack_task e (t ∷ ts) s = run_stack_task e t (record s { stack_tasks = ts })

unfoldable pub next_reactor_task : Answers → List ReactorTask → SessionTcp → SessionTcp
next_reactor_task e [] s = s
next_reactor_task e (t ∷ ts) s = run_reactor_task e t (record s { reactor_tasks = ts })

-- Calls of lwIP, the next task of the NetStack thread, and the teardown of the stack; events of the
-- socket, and the next task of the Reactor thread.
pub data Call : Type 0 where
  receives : Option (List ℕ) → Bool → Call
  acknowledged : Call
  fails : Call
  stack_task : Call
  teardown : Call
  event : Bool → Bool → Bool → Call
  reactor_task : Call

unfoldable pub call : Answers → Call → SessionTcp → SessionTcp
call e (receives p no_error) s = on_recv e p no_error s
call e acknowledged s = on_sent e s
call e fails s = on_err s
call e stack_task s = next_stack_task e s.stack_tasks s
call e teardown s = shutdown_from_stack s
call e (event readable writable failure) s = on_fd_event e readable writable failure s
call e reactor_task s = next_reactor_task e s.reactor_tasks s

-- Whatever order the two threads run in, one call is one step.
unfoldable pub calls : List (Answers × Call) → SessionTcp → SessionTcp
calls [] s = s
calls ((e, c) ∷ cs) s = calls cs (call e c s)
