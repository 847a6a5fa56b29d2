-- ===== src/Netstack/Tcp/State.antt =====
-- A TCP connection that lwIP ends here and a socket of the system goes on with.
use candy.Base.{ℕ, ◌*◌, Bool, true, false, List, [], ◌∷◌, ◌++◌, Option, none, some, if◌then◌else◌}

abbrev pub high_water : ℕ
high_water = 256 * 1024

abbrev pub low_water : ℕ
low_water = 64 * 1024

-- What is posted to the NetStack thread, and what is posted to the Reactor thread.
pub data StackTask : Type 0 where
  ack_recved : StackTask
  write : List ℕ → StackTask
  eof : StackTask
  close : StackTask

pub data ReactorTask : Type 0 where
  flush : ReactorTask
  resume : Bool → ReactorTask
  close : ReactorTask
  close_fd : ReactorTask

-- What the session sees and does: bytes from and to the pcb and the socket, bytes that tcp_recved
-- acknowledges, events that the reactor waits for, and the ends of the pcb and the socket.
pub data Event : Type 0 where
  from_pcb : List ℕ → Event
  to_pcb : List ℕ → Event
  outputs : Event
  recved : ℕ → Event
  from_fd : List ℕ → Event
  to_fd : List ℕ → Event
  interest : Bool → Bool → Event
  no_interest : Event
  del : Event
  fd_closed : Event
  pcb_closed : Event
  pcb_aborted : Event
  pcb_freed : Event
  session_removed : Event

-- `pcb` and `fd` say whether there is one, and `log` has the newest event first. The queues hold
-- the session's own tasks.
pub record SessionTcp : Type 0 where
  pub pcb : Bool
  pub fd : Bool
  pub connected : Bool
  pub forward_buf : List ℕ
  pub want_write : Bool
  pub pending_recved : ℕ
  pub backward_buf : List ℕ
  pub read_paused : Bool
  pub fd_eof : Bool
  pub backward_bytes : ℕ
  pub closing : Bool
  pub self : Bool
  pub stack_tasks : List StackTask
  pub reactor_tasks : List ReactorTask
  pub log : List Event

abbrev pub new_session : SessionTcp
new_session = record {
  pcb = true;
  fd = false;
  connected = false;
  forward_buf = [];
  want_write = false;
  pending_recved = 0;
  backward_buf = [];
  read_paused = false;
  fd_eof = false;
  backward_bytes = 0;
  closing = false;
  self = false;
  stack_tasks = [];
  reactor_tasks = [];
  log = [];
}

-- The session that waits for its socket to connect, unless the dialling failed.
unfoldable pub start : Bool → SessionTcp → Option SessionTcp
start dialled s =
    if dialled
    then some (record s { self = true; fd = true; log = interest false true ∷ s.log })
    else none

-- What tcp_write answers.
pub data Wrote : Type 0 where
  fits : Wrote
  no_memory : Wrote
  refused : Wrote

-- The room of the send buffer, and what tcp_write answers then.
pub record Room : Type 0 where
  pub space : ℕ
  pub wrote : Wrote

-- What send answers: it takes one byte more than the number, or as many as there are.
pub data Sent : Type 0 where
  takes : ℕ → Sent
  blocks : Sent
  fails : Sent

-- What recv answers; no bytes are the end of the stream.
pub data Got : Type 0 where
  bytes : List ℕ → Got
  blocks : Got
  fails : Got

-- The answers of lwIP and of the socket to one call. Where a list ends there is no room left and
-- the socket blocks.
pub record Answers : Type 0 where
  pub rooms : List Room
  pub close_works : Bool
  pub sends : List Sent
  pub reads : List Got
  pub connect_works : Bool

abbrev pub post_to_stack : StackTask → SessionTcp → SessionTcp
post_to_stack t s = record s { stack_tasks = s.stack_tasks ++ t ∷ [] }

abbrev pub post_to_reactor : ReactorTask → SessionTcp → SessionTcp
post_to_reactor t s = record s { reactor_tasks = s.reactor_tasks ++ t ∷ [] }

abbrev pub note : Event → SessionTcp → SessionTcp
note e s = record s { log = e ∷ s.log }
