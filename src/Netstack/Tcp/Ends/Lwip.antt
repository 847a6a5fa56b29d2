-- ===== src/Netstack/Tcp/Ends/Lwip.antt =====
-- The calls of the stack thread keep the ends of both sides tied.
use candy.Base.{
  ℕ, zero, suc, ◌+◌, ◌-◌, min, ◌≡◌, refl, ◌∙◌, Bool, true, List, [], ◌∷◌, ◌++◌, Option, none, some,
  arith, take, drop,
}
use candy.Netstack.Tcp.State.{
  StackTask, ReactorTask, flush, resume, Event, recved, to_fd, SessionTcp, Room, Sent, takes,
  Answers,
}
use candy.Netstack.Tcp.Stack.{
  close_from_stack, buffer, on_recv, Pump, add_chunk, pump_loop, update_read_interest, take_out,
  close_if_drained, after_pump, pump_to_lwip, no_chunk, write_to_lwip, close_if_empty,
  on_fd_eof_from_stack, ack_loop, ack_recved_to_lwip,
}
use candy.Netstack.Tcp.Reactor.{close_socket, close_from_reactor, taken, flush_loop}
use candy.Netstack.Tcp.Ends.Counts.{
  pcb_ends, fd_ends, closes_stack, closes_reactor, closes_fd, closes_stack-append,
  closes_reactor-append, closes_fd-append, IsTied, or_true, or_false,
}

pub close_from_stack-IsTied :
    (e : Answers) (s : SessionTcp) → IsTied s → IsTied (close_from_stack e s)
unfolding close_from_stack pcb_ends fd_ends closes_reactor closes_fd
close_from_stack-IsTied e s o = ground (
  arith,
  closes_reactor-append s.reactor_tasks (ReactorTask.close ∷ []),
  closes_fd-append s.reactor_tasks (ReactorTask.close ∷ []),
  or_true (closes_reactor s.reactor_tasks),
  or_false (closes_fd s.reactor_tasks),
)

pub close_from_reactor-IsTied : (s : SessionTcp) → IsTied s → IsTied (close_from_reactor s)
unfolding close_from_reactor close_socket pcb_ends fd_ends closes_stack
close_from_reactor-IsTied s o = ground (
  arith,
  closes_stack-append s.stack_tasks (StackTask.close ∷ []),
  or_true (closes_stack s.stack_tasks),
)

-- The one log says of the ends what the other does.
pub record SameEnds (l k : List Event) : Type 0 where
  pub same_pcb : pcb_ends k ≡ pcb_ends l
  pub same_fd : fd_ends k ≡ fd_ends l

pub same_ends : (l : List Event) → SameEnds l l
same_ends l = record { same_pcb = refl; same_fd = refl }

pump_loop-SameEnds :
    (buf : List ℕ) (rs : List Room) (l : List Event) (p : Pump)
    → SameEnds l p.log
    → SameEnds l (pump_loop buf rs p).log
unfolding pump_loop add_chunk pcb_ends fd_ends
pump_loop-SameEnds buf [] l p h = h
pump_loop-SameEnds buf (r ∷ rs) l p h =
    ground (arith, pump_loop-SameEnds buf rs l (add_chunk buf r p))

ack_loop-SameEnds : (fuel n : ℕ) (l k : List Event) → SameEnds l k → SameEnds l (ack_loop fuel n k)
unfolding ack_loop pcb_ends fd_ends
ack_loop-SameEnds zero n l k h = h
ack_loop-SameEnds (suc fuel) n l k h =
    ground (arith, ack_loop-SameEnds fuel (n - min n 0xFFFF) l (recved (min n 0xFFFF) ∷ k))

pub flush_loop-SameEnds :
    (sends : List Sent) (b : List ℕ) (n : ℕ) (l k : List Event)
    → SameEnds l k
    → SameEnds l (flush_loop sends b n k).log
unfolding flush_loop pcb_ends fd_ends
flush_loop-SameEnds [] [] n l k h = h
flush_loop-SameEnds (a ∷ sends) [] n l k h = h
flush_loop-SameEnds [] (x ∷ b) n l k h = h
flush_loop-SameEnds (takes i ∷ sends) (x ∷ b) n l k h =
    flush_loop-SameEnds sends (drop (taken i (x ∷ b)) (x ∷ b)) (n + taken i (x ∷ b)) l
      (to_fd (take (taken i (x ∷ b)) (x ∷ b)) ∷ k)
      (record { same_pcb = h.same_pcb; same_fd = h.same_fd })
flush_loop-SameEnds (Sent.blocks ∷ sends) (x ∷ b) n l k h = h
flush_loop-SameEnds (Sent.fails ∷ sends) (x ∷ b) n l k h = h

resumed_later :
    (ts : List ReactorTask) (fd : Bool)
    → (closes_reactor (ts ++ resume fd ∷ []) ≡ closes_reactor ts)
      × (closes_fd (ts ++ resume fd ∷ []) ≡ closes_fd ts)
unfolding closes_reactor closes_fd
resumed_later ts fd = (
  closes_reactor-append ts (resume fd ∷ []) ∙ or_false (closes_reactor ts),
  closes_fd-append ts (resume fd ∷ []) ∙ or_false (closes_fd ts),
)

after_take_out :
    (p : Pump) (s : SessionTcp)
    → SameEnds s.log p.log
    → IsTied s
    → IsTied (update_read_interest (take_out p s))
unfolding update_read_interest take_out pcb_ends fd_ends
after_take_out p s h o = ground (arith, resumed_later s.reactor_tasks s.fd)

module _ (e : Answers) where
  after_pump-IsTied :
      (p : Pump) (s : SessionTcp) → SameEnds s.log p.log → IsTied s → IsTied (after_pump e p s)
  unfolding after_pump close_if_drained
  after_pump-IsTied p s h o =
      let t = update_read_interest (take_out p s) in
      ground (arith, after_take_out p s h o, close_from_stack-IsTied e t (after_take_out p s h o))

  pub pump_to_lwip-IsTied : (s : SessionTcp) → IsTied s → IsTied (pump_to_lwip e s)
  unfolding pump_to_lwip
  pump_to_lwip-IsTied s o = ground (
    arith,
    after_pump-IsTied (pump_loop s.backward_buf e.rooms (no_chunk s)) s
        (pump_loop-SameEnds s.backward_buf e.rooms s.log (no_chunk s) (same_ends s.log)) o,
  )

  pub write_to_lwip-IsTied : (b : List ℕ) (s : SessionTcp) → IsTied s → IsTied (write_to_lwip e b s)
  unfolding write_to_lwip
  write_to_lwip-IsTied b s o =
      ground (arith, pump_to_lwip-IsTied (record s { backward_buf = s.backward_buf ++ b }))

  pub on_fd_eof_from_stack-IsTied : (s : SessionTcp) → IsTied s → IsTied (on_fd_eof_from_stack e s)
  unfolding on_fd_eof_from_stack close_if_empty
  on_fd_eof_from_stack-IsTied s o =
      let t = pump_to_lwip e (record s { fd_eof = true }) in
      ground (arith, pump_to_lwip-IsTied (record s { fd_eof = true }), close_from_stack-IsTied e t)

  pub on_recv-IsTied :
      (p : Option (List ℕ)) (no_error : Bool) (s : SessionTcp)
      → IsTied s
      → IsTied (on_recv e p no_error s)
  unfolding on_recv buffer pcb_ends fd_ends closes_reactor closes_fd
  on_recv-IsTied none no_error s o = close_from_stack-IsTied e s o
  on_recv-IsTied (some b) no_error s o = ground (
    arith,
    close_from_stack-IsTied e s o,
    closes_reactor-append s.reactor_tasks (flush ∷ []),
    closes_fd-append s.reactor_tasks (flush ∷ []),
    or_false (closes_reactor s.reactor_tasks),
    or_false (closes_fd s.reactor_tasks),
  )

pub ack_recved_to_lwip-IsTied : (s : SessionTcp) → IsTied s → IsTied (ack_recved_to_lwip s)
unfolding ack_recved_to_lwip
ack_recved_to_lwip-IsTied s o =
    ground
      (arith, ack_loop-SameEnds s.pending_recved s.pending_recved s.log s.log (same_ends s.log))
