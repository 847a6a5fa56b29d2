-- ===== src/Netstack/Tcp/Induction.antt =====
-- What each call keeps, all calls keep.
use candy.Base.{ℕ, Bool, true, false, ◌||◌, List, [], ◌∷◌, Option, All, if◌then◌else◌}
use candy.Netstack.Tcp.State.{ReactorTask, flush, resume, close_fd, interest, SessionTcp, Answers}
use candy.Netstack.Tcp.Stack.{on_recv, on_sent, pump_to_lwip}
use candy.Netstack.Tcp.Reactor.{
  close_from_reactor, flush_forward, on_connected, on_fd_readable, before_connect, read_if,
  write_if, on_fd_event, on_err, shutdown_from_stack, close_now,
}
use candy.Netstack.Tcp.Calls.{
  resume_read, run_reactor_task, next_stack_task, next_reactor_task, Call, receives, acknowledged,
  fails, stack_task, teardown, event, reactor_task, call, calls,
}

abbrev pub AnyAnswers : Answers → Type 0
AnyAnswers e = Unit {0}

pub any_answers : (cs : List (Answers × Call)) → All (λ c. AnyAnswers c.0) cs
any_answers [] = tt
any_answers (c ∷ cs) = (tt, any_answers cs)

-- Where the answers are allowed, each part of a call keeps P.
pub record IsKept (Allowed : Answers → Type 0) (P : SessionTcp → Type 0) : Type 0 where
  pub recv :
      (e : Answers) (p : Option (List ℕ)) (b : Bool) (s : SessionTcp) → P s → P (on_recv e p b s)
  pub pump : (e : Answers) (s : SessionTcp) → Allowed e → P s → P (pump_to_lwip e s)
  pub task :
      (e : Answers) (s : SessionTcp) → Allowed e → P s → P (next_stack_task e s.stack_tasks s)
  pub err : (s : SessionTcp) → P s → P (on_err s)
  pub shutdown : (s : SessionTcp) → P s → P (shutdown_from_stack s)
  pub read : (e : Answers) (s : SessionTcp) → Allowed e → P s → P (on_fd_readable e.reads s)
  pub flushing : (e : Answers) (s : SessionTcp) → P s → P (flush_forward e s)
  pub closing : (s : SessionTcp) → P s → P (close_from_reactor s)
  pub connect :
      (s : SessionTcp) → P s → P (record s { connected = true; log = interest true false ∷ s.log })
  pub reactor : (e : Answers) (s : SessionTcp) → P s → P (next_reactor_task e s.reactor_tasks s)

-- Where the queue of the reactor does not matter, each of its tasks keeps P.
module _ (P : SessionTcp → Type 0)
    (popped : (s : SessionTcp) (ts : List ReactorTask) → P s → P (record s { reactor_tasks = ts }))
    (flushing : (e : Answers) (s : SessionTcp) → P s → P (flush_forward e s))
    (closing : (s : SessionTcp) → P s → P (close_from_reactor s))
    (resumed : (fd : Bool) (s : SessionTcp) → P s → P (resume_read fd s))
    (closed : (s : SessionTcp) → P s → P (close_now s)) where
  pub next_reactor_task_kept :
      (e : Answers) (ts : List ReactorTask) (s : SessionTcp) → P s → P (next_reactor_task e ts s)
  unfolding next_reactor_task run_reactor_task
  next_reactor_task_kept e [] s o = o
  next_reactor_task_kept e (flush ∷ ts) s o = flushing e _ (popped s ts o)
  next_reactor_task_kept e (resume fd ∷ ts) s o = resumed fd _ (popped s ts o)
  next_reactor_task_kept e (ReactorTask.close ∷ ts) s o = closing _ (popped s ts o)
  next_reactor_task_kept e (close_fd ∷ ts) s o = closed _ (popped s ts o)

module _ (Allowed : Answers → Type 0) (P : SessionTcp → Type 0) (k : IsKept Allowed P) where
  both_kept : (b : Bool) (s t : SessionTcp) → P s → P t → P (if b then s else t)
  both_kept true s t o q = o
  both_kept false s t o q = q

  on_connected_kept : (e : Answers) (s : SessionTcp) → P s → P (on_connected e s)
  unfolding on_connected
  on_connected_kept e s o =
      both_kept e.connect_works _ _ (k.flushing e _ (k.connect s o)) (k.closing s o)

  before_connect_kept :
      (e : Answers) (w f : Bool) (s : SessionTcp) → P s → P (before_connect e w f s)
  unfolding before_connect
  before_connect_kept e w true s o = k.closing s o
  before_connect_kept e true false s o = on_connected_kept e s o
  before_connect_kept e false false s o = o

  read_if_kept :
      (b : Bool) (e : Answers) (s : SessionTcp) → Allowed e → P s → P (read_if b e.reads s)
  unfolding read_if
  read_if_kept true e s a o = k.read e s a o
  read_if_kept false e s a o = o

  write_if_kept : (b : Bool) (e : Answers) (s : SessionTcp) → P s → P (write_if b e s)
  unfolding write_if
  write_if_kept true e s o = k.flushing e s o
  write_if_kept false e s o = o

  on_fd_event_kept :
      (e : Answers) (r w f : Bool) (s : SessionTcp) → Allowed e → P s → P (on_fd_event e r w f s)
  unfolding on_fd_event
  on_fd_event_kept e r w f s a o =
      both_kept s.connected _ _ (write_if_kept w e _ (read_if_kept (r || f) e s a o))
        (before_connect_kept e w f s o)

  call_kept : (e : Answers) (c : Call) (s : SessionTcp) → Allowed e → P s → P (call e c s)
  unfolding call on_sent
  call_kept e (receives p b) s a o = k.recv e p b s o
  call_kept e acknowledged s a o = k.pump e s a o
  call_kept e fails s a o = k.err s o
  call_kept e stack_task s a o = k.task e s a o
  call_kept e teardown s a o = k.shutdown s o
  call_kept e (event r w f) s a o = on_fd_event_kept e r w f s a o
  call_kept e reactor_task s a o = k.reactor e s o

  pub calls_kept :
      (cs : List (Answers × Call)) (s : SessionTcp)
      → All (λ c. Allowed c.0) cs
      → P s
      → P (calls cs s)
  unfolding calls
  calls_kept [] s a o = o
  calls_kept ((e, c) ∷ cs) s a o = calls_kept cs (call e c s) a.1 (call_kept e c s a.0 o)
