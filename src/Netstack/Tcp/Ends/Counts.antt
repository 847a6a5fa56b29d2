-- ===== src/Netstack/Tcp/Ends/Counts.antt =====
-- The ends of the pcb and of the socket, and the tasks that close.
use candy.Base.{ℕ, ◌+◌, ◌≡◌, refl, Bool, true, false, ◌||◌, List, [], ◌∷◌, ◌++◌}
use candy.Netstack.Tcp.State.{
  StackTask, ack_recved, write, eof, ReactorTask, flush, resume, close_fd, Event, fd_closed,
  pcb_closed, pcb_aborted, pcb_freed, SessionTcp,
}

-- How often the pcb and the socket have ended.
unfoldable pub pcb_ends : List Event → ℕ
pcb_ends [] = 0
pcb_ends (pcb_closed ∷ log) = pcb_ends log + 1
pcb_ends (pcb_aborted ∷ log) = pcb_ends log + 1
pcb_ends (pcb_freed ∷ log) = pcb_ends log + 1
pcb_ends (_ ∷ log) = pcb_ends log

unfoldable pub fd_ends : List Event → ℕ
fd_ends [] = 0
fd_ends (fd_closed ∷ log) = fd_ends log + 1
fd_ends (_ ∷ log) = fd_ends log

unfoldable pub closes_stack : List StackTask → Bool
closes_stack [] = false
closes_stack (StackTask.close ∷ ts) = true
closes_stack (ack_recved ∷ ts) = closes_stack ts
closes_stack (write b ∷ ts) = closes_stack ts
closes_stack (eof ∷ ts) = closes_stack ts

unfoldable pub closes_reactor : List ReactorTask → Bool
closes_reactor [] = false
closes_reactor (ReactorTask.close ∷ ts) = true
closes_reactor (flush ∷ ts) = closes_reactor ts
closes_reactor (resume fd ∷ ts) = closes_reactor ts
closes_reactor (close_fd ∷ ts) = closes_reactor ts

unfoldable pub closes_fd : List ReactorTask → Bool
closes_fd [] = false
closes_fd (close_fd ∷ ts) = true
closes_fd (flush ∷ ts) = closes_fd ts
closes_fd (resume fd ∷ ts) = closes_fd ts
closes_fd (ReactorTask.close ∷ ts) = closes_fd ts

pub closes_stack-append :
    (ts us : List StackTask) → closes_stack (ts ++ us) ≡ (closes_stack ts || closes_stack us)
unfolding closes_stack
closes_stack-append [] us = refl
closes_stack-append (StackTask.close ∷ ts) us = refl
closes_stack-append (ack_recved ∷ ts) us = closes_stack-append ts us
closes_stack-append (write b ∷ ts) us = closes_stack-append ts us
closes_stack-append (eof ∷ ts) us = closes_stack-append ts us

pub closes_reactor-append :
    (ts us : List ReactorTask)
    → closes_reactor (ts ++ us) ≡ (closes_reactor ts || closes_reactor us)
unfolding closes_reactor
closes_reactor-append [] us = refl
closes_reactor-append (ReactorTask.close ∷ ts) us = refl
closes_reactor-append (flush ∷ ts) us = closes_reactor-append ts us
closes_reactor-append (resume fd ∷ ts) us = closes_reactor-append ts us
closes_reactor-append (close_fd ∷ ts) us = closes_reactor-append ts us

pub closes_fd-append :
    (ts us : List ReactorTask) → closes_fd (ts ++ us) ≡ (closes_fd ts || closes_fd us)
unfolding closes_fd
closes_fd-append [] us = refl
closes_fd-append (close_fd ∷ ts) us = refl
closes_fd-append (flush ∷ ts) us = closes_fd-append ts us
closes_fd-append (resume fd ∷ ts) us = closes_fd-append ts us
closes_fd-append (ReactorTask.close ∷ ts) us = closes_fd-append ts us

abbrev pub one_if : Bool → ℕ
one_if true = 1
one_if false = 0

-- One of the two never ends without the other, or without a task that ends it.
pub record IsTied (s : SessionTcp) : Type 0 where
  pub pcb_once : pcb_ends s.log + one_if s.pcb ≡ 1
  pub fd_once : fd_ends s.log + one_if s.fd ≡ 1
  pub open_till : s.closing ≡ false → s.fd ≡ true
  pub stack_closes : s.closing ≡ true → s.pcb ≡ true → closes_stack s.stack_tasks ≡ true
  pub reactor_closes : s.pcb ≡ false → s.closing ≡ false → closes_reactor s.reactor_tasks ≡ true
  pub fd_closes : s.closing ≡ true → s.fd ≡ true → closes_fd s.reactor_tasks ≡ true
  pub closes_late : closes_fd s.reactor_tasks ≡ true → s.closing ≡ true

pub or_true : (b : Bool) → (b || true) ≡ true
or_true true = refl
or_true false = refl

pub or_false : (b : Bool) → (b || false) ≡ b
or_false true = refl
or_false false = refl
