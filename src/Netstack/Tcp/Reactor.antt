-- ===== src/Netstack/Tcp/Reactor.antt =====
-- What SessionTcp does on the Reactor thread, and how it ends.
use candy.Base.{
  ℕ, suc, ◌+◌, min, Bool, true, false, ◌&&◌, ◌||◌, List, [], ◌∷◌, ◌++◌, if◌then◌else◌, ltb, leb,
  length, take, drop,
}
use candy.Netstack.Tcp.State.{
  StackTask, close_fd, ack_recved, write, eof, Event, from_fd, to_fd, interest, no_interest, del,
  fd_closed, pcb_aborted, pcb_freed, session_removed, SessionTcp, high_water, Sent, takes, Got,
  bytes, Answers,
}

unfoldable pub close_socket : SessionTcp → SessionTcp
close_socket s = if s.fd then record s { fd = false; log = fd_closed ∷ del ∷ s.log } else s

abbrev pub close_tasks : Bool → List StackTask → List StackTask
close_tasks true ts = ts ++ StackTask.close ∷ []
close_tasks false ts = ts

unfoldable pub close_from_reactor : SessionTcp → SessionTcp
close_from_reactor s =
    if s.closing
    then s
    else close_socket
        (record s { closing = true; self = false; stack_tasks = close_tasks s.pcb s.stack_tasks })

-- How the loop of flushForwardLocked ends.
pub data FlushEnd : Type 0 where
  drained : FlushEnd
  blocked : FlushEnd
  broken : FlushEnd

pub record Flush : Type 0 where
  pub buf : List ℕ
  pub acked : ℕ
  pub log : List Event
  pub end : FlushEnd

unfoldable pub taken : ℕ → List ℕ → ℕ
taken n buf = min (suc n) (length buf)

unfoldable pub flush_loop : List Sent → List ℕ → ℕ → List Event → Flush
flush_loop sends [] acked log = record { buf = []; acked = acked; log = log; end = drained }
flush_loop [] (x ∷ b) acked log = record { buf = x ∷ b; acked = acked; log = log; end = blocked }
flush_loop (takes n ∷ sends) (x ∷ b) acked log =
    let k = taken n (x ∷ b) in
    flush_loop sends (drop k (x ∷ b)) (acked + k) (to_fd (take k (x ∷ b)) ∷ log)
flush_loop (Sent.blocks ∷ sends) (x ∷ b) acked log = record {
  buf = x ∷ b;
  acked = acked;
  log = log;
  end = blocked;
}
flush_loop (Sent.fails ∷ sends) (x ∷ b) acked log = record {
  buf = x ∷ b;
  acked = acked;
  log = log;
  end = broken;
}

abbrev pub ack_tasks : ℕ → List StackTask → List StackTask
ack_tasks acked ts = if ltb 0 acked then ts ++ ack_recved ∷ [] else ts

-- The end of the flush where the socket works: whether it still has to be written to, and what the
-- reactor is told.
unfoldable pub flushed : Flush → Bool → List Event → SessionTcp → SessionTcp
flushed f wants told s = record s {
  forward_buf = f.buf;
  want_write = wants;
  pending_recved = s.pending_recved + f.acked;
  stack_tasks = ack_tasks f.acked s.stack_tasks;
  log = told ++ f.log;
}

unfoldable pub after_flush : FlushEnd → Flush → SessionTcp → SessionTcp
after_flush drained f s = flushed f false (if s.want_write then interest true false ∷ [] else []) s
after_flush blocked f s = flushed f true (interest true true ∷ []) s
after_flush broken f s = close_from_reactor (record s { forward_buf = f.buf; log = f.log })

unfoldable pub flush_forward : Answers → SessionTcp → SessionTcp
flush_forward e s =
    let f = flush_loop e.sends s.forward_buf 0 s.log in
    if s.fd && s.connected then after_flush f.end f s else s

unfoldable pub on_connected : Answers → SessionTcp → SessionTcp
on_connected e s =
    if e.connect_works
    then flush_forward e (record s { connected = true; log = interest true false ∷ s.log })
    else close_from_reactor s

unfoldable pub pause : SessionTcp → SessionTcp
pause s = record s { read_paused = true; log = no_interest ∷ s.log }

unfoldable pub took : List ℕ → SessionTcp → SessionTcp
took b s = record s {
  backward_bytes = s.backward_bytes + length b;
  stack_tasks = s.stack_tasks ++ write b ∷ [];
  log = from_fd b ∷ s.log;
}

unfoldable pub at_eof : SessionTcp → SessionTcp
at_eof s = record s { stack_tasks = s.stack_tasks ++ eof ∷ []; log = del ∷ s.log }

-- Each round's comparison and pause are one step: what the NetStack thread does in between is not
-- seen.
unfoldable pub on_fd_readable : List Got → SessionTcp → SessionTcp
on_fd_readable [] s = if leb high_water s.backward_bytes then pause s else s
on_fd_readable (bytes [] ∷ gs) s = if leb high_water s.backward_bytes then pause s else at_eof s
on_fd_readable (bytes (x ∷ b) ∷ gs) s =
    let rest = on_fd_readable gs (took (x ∷ b) s) in
    if leb high_water s.backward_bytes then pause s else rest
on_fd_readable (Got.blocks ∷ gs) s = if leb high_water s.backward_bytes then pause s else s
on_fd_readable (Got.fails ∷ gs) s =
    if leb high_water s.backward_bytes then pause s else close_from_reactor s

unfoldable pub before_connect : Answers → Bool → Bool → SessionTcp → SessionTcp
before_connect e writable failure s =
    if failure then close_from_reactor s else if writable then on_connected e s else s

unfoldable pub read_if : Bool → List Got → SessionTcp → SessionTcp
read_if true gs s = on_fd_readable gs s
read_if false gs s = s

unfoldable pub write_if : Bool → Answers → SessionTcp → SessionTcp
write_if true e s = flush_forward e s
write_if false e s = s

-- An event of the socket: readable, writable, or failed.
unfoldable pub on_fd_event : Answers → Bool → Bool → Bool → SessionTcp → SessionTcp
on_fd_event e readable writable failure s =
    if s.connected
    then write_if writable e (read_if (readable || failure) e.reads s)
    else before_connect e writable failure s

-- lwIP has freed the pcb.
unfoldable pub on_err : SessionTcp → SessionTcp
on_err s =
    if s.pcb
    then close_from_reactor (record s { pcb = false; log = session_removed ∷ pcb_freed ∷ s.log })
    else close_from_reactor s

unfoldable pub abort : SessionTcp → SessionTcp
abort s = if s.pcb then record s { pcb = false; log = pcb_aborted ∷ s.log } else s

unfoldable pub close_later : SessionTcp → SessionTcp
close_later s =
    if s.closing
    then s
    else record s { closing = true; reactor_tasks = s.reactor_tasks ++ close_fd ∷ [] }

unfoldable pub shutdown_from_stack : SessionTcp → SessionTcp
shutdown_from_stack s = close_later (abort s)

-- What shutdownFromStack posts.
unfoldable pub close_now : SessionTcp → SessionTcp
close_now s = close_socket (record s { self = false })

-- The destructor, on the thread that gives the session up.
unfoldable pub destroy : SessionTcp → SessionTcp
destroy s = if s.fd then record s { fd = false; log = fd_closed ∷ s.log } else s
