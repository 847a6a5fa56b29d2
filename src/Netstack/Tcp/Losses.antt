-- ===== src/Netstack/Tcp/Losses.antt =====
-- Where bytes are lost or sent twice.
mod Cut
use candy.Base.{
  ℕ, zero, suc, ◌+◌, ◌-◌, ◌^◌, ◌<◌, ◌≤◌, min, ◌≡◌, refl, sym, ap, ◌∙◌, subst, Bool, true, false,
  List, All, [], ◌∷◌, ◌++◌, Option, none, some, arith, length, take, drop, append-nil,
  if◌then◌else◌,
}
use candy.Netstack.Tcp.State.{
  StackTask, ack_recved, write, eof, ReactorTask, flush, resume, close_fd, Event, to_pcb, recved,
  to_fd, interest, SessionTcp, Room, Wrote, fits, no_memory, refused, Sent, Got, bytes, Answers,
}
use candy.Netstack.Tcp.Stack.{
  close_from_stack, buffer, on_recv, Pump, add_chunk, pump_loop, update_read_interest, take_out,
  close_if_drained, after_pump, pump_to_lwip, no_chunk, write_to_lwip, close_if_empty,
  on_fd_eof_from_stack, ack_loop, ack_recved_to_lwip, on_sent, space_of, chunk_of,
}
use candy.Netstack.Tcp.Reactor.{
  close_socket, close_from_reactor, FlushEnd, Flush, flush_loop, flushed, after_flush,
  flush_forward, pause, took, at_eof, on_fd_readable, on_err, abort, close_later,
  shutdown_from_stack, close_now,
}
use candy.Netstack.Tcp.Calls.{
  resume_read, run_stack_task, run_reactor_task, next_stack_task, next_reactor_task, Call, receives,
  acknowledged, reactor_task, call, calls,
}
use candy.Netstack.Tcp.Induction.{
  AnyAnswers, any_answers, IsKept, calls_kept, next_reactor_task_kept,
}
use candy.Netstack.Tcp.Forward.Lwip.{sent}
use candy.Netstack.Tcp.Backward.Flow.{passed}
use candy.Netstack.Tcp.Losses.Cut.{IsCut, calls-IsCut}

-- A flush that the socket does not take any byte of.
record IsStuck (s t : SessionTcp) : Type 0 where
  same_fd : t.fd ≡ s.fd
  same_closing : t.closing ≡ s.closing
  same_tasks : t.reactor_tasks ≡ s.reactor_tasks
  same_sent : sent t.log ≡ sent s.log

flush_idle :
    (b : List ℕ) (s : SessionTcp)
    → IsStuck s (after_flush (flush_loop [] b 0 s.log).end (flush_loop [] b 0 s.log) s)
unfolding flush_loop after_flush flushed sent
flush_idle [] s = ground arith
flush_idle (x ∷ b) s = ground arith

flush_forward-IsStuck :
    (e : Answers) (s : SessionTcp) → e.sends ≡ [] → IsStuck s (flush_forward e s)
unfolding flush_forward
flush_forward-IsStuck e s none_taken = ground (
  arith,
  subst
      (λ l. IsStuck s (
        after_flush (flush_loop l s.forward_buf 0 s.log).end (flush_loop l s.forward_buf 0 s.log)
          s))
      (sym none_taken) (flush_idle s.forward_buf s),
)

closed_socket :
    (s : SessionTcp) (b : List ℕ)
    → s.closing ≡ false
    → sent s.log ≡ b
    → IsCut b (close_from_reactor s)
unfolding close_from_reactor close_socket sent
closed_socket s b goes_on same = ground arith

flushes :
    (e : Answers) (ts : List ReactorTask) (s : SessionTcp)
    → s.reactor_tasks ≡ flush ∷ ts
    → call e reactor_task s ≡ flush_forward e (record s { reactor_tasks = ts })
unfolding call next_reactor_task run_reactor_task
flushes e ts s at = ap (λ us. next_reactor_task e us s) at

closes :
    (e : Answers) (s : SessionTcp) (b : List ℕ)
    → s.reactor_tasks ≡ ReactorTask.close ∷ []
    → s.closing ≡ false
    → sent s.log ≡ b
    → IsCut b (call e reactor_task s)
unfolding call next_reactor_task run_reactor_task
closes e s b at goes_on same =
    subst (λ us. IsCut b (next_reactor_task e us s)) (sym at)
      (closed_socket (record s { reactor_tasks = [] }) b goes_on same)

module _ (s : SessionTcp) (up : s.pcb ≡ true) (there : s.fd ≡ true) (goes_on : s.closing ≡ false)
    (idle : s.reactor_tasks ≡ []) where
  -- After the bytes and the end of the stream.
  ended : Answers → Answers → List ℕ → SessionTcp
  ended e e' b = call e' (receives none true) (call e (receives (some b) true) s)

  ended_tasks :
      (e e' : Answers) (b : List ℕ)
      → ((ended e e' b).reactor_tasks ≡ flush ∷ ReactorTask.close ∷ [])
        × ((ended e e' b).fd ≡ true)
        × ((ended e e' b).closing ≡ false)
        × (sent (ended e e' b).log ≡ sent s.log)
  unfolding ended call on_recv buffer close_from_stack sent
  ended_tasks e e' b = ground arith

  -- The two tasks of the reactor, where the socket takes nothing.
  ends_both :
      (e e' e₁ e₂ : Answers) (b : List ℕ)
      → e₁.sends ≡ []
      → IsCut (sent s.log) (call e₂ reactor_task (call e₁ reactor_task (ended e e' b)))
  ends_both e e' e₁ e₂ b none_taken =
      let t = ended e e' b in
      let facts = ended_tasks e e' b in
      let first : call e₁ reactor_task t
          ≡ flush_forward e₁ (record t { reactor_tasks = ReactorTask.close ∷ [] }) =
        flushes e₁ (ReactorTask.close ∷ []) t facts.0 in
      let stuck =
        flush_forward-IsStuck e₁ (record t { reactor_tasks = ReactorTask.close ∷ [] }) none_taken in
      subst (λ u. IsCut (sent s.log) (call e₂ reactor_task u)) (sym first)
        (closes e₂ (flush_forward e₁ (record t { reactor_tasks = ReactorTask.close ∷ [] }))
          (sent s.log) stuck.same_tasks (stuck.same_closing ∙ facts.2) (stuck.same_sent ∙ facts.3))

  -- A session with a pcb and a socket, and no task for the reactor, gets bytes and then the end of
  -- the stream from lwIP, and the reactor runs the two tasks while the socket takes nothing (it is
  -- not connected yet, or is full): whatever happens after that, no byte goes to the socket any more.
  pub end_of_stream_cuts_off_bytes :
      (e e' e₁ e₂ : Answers) (b : List ℕ) (cs : List (Answers × Call))
      → e₁.sends ≡ []
      → sent
          (calls
            ((e, receives (some b) true)
              ∷ (e', receives none true)
              ∷ (e₁, reactor_task)
              ∷ (e₂, reactor_task)
              ∷ cs)
            s).log
        ≡ sent s.log
  unfolding calls ended
  end_of_stream_cuts_off_bytes e e' e₁ e₂ b cs none_taken =
      (calls_kept AnyAnswers (IsCut (sent s.log)) (calls-IsCut (sent s.log)) cs _ (any_answers cs)
        (ends_both e e' e₁ e₂ b none_taken)).sent_is
