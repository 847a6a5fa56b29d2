-- ===== src/Netstack/Tcp/Backward/Flow.antt =====
-- The bytes from the socket, and the sizes that hold for them.
use candy.Base.{
  ℕ, ◌+◌, ◌≤◌, ◌<◌, ◌≡◌, ◌≢◌, refl, sym, ap, ◌∙◌, true, false, List, All, [], ◌∷◌, ◌++◌, arith,
  length, take, drop, take-add, append_assoc,
}
use candy.Netstack.Tcp.State.{
  StackTask, ack_recved, write, eof, Event, to_pcb, from_fd, SessionTcp, high_water, Room, refused,
  Got, bytes, Answers,
}
use candy.Netstack.Tcp.Stack.{Pump, chunk_of, add_chunk, pump_loop}

-- What came from the socket, and what went to the pcb.
unfoldable pub read_in : List Event → List ℕ
read_in [] = []
read_in (from_fd b ∷ log) = read_in log ++ b
read_in (_ ∷ log) = read_in log

unfoldable pub passed : List Event → List ℕ
passed [] = []
passed (to_pcb b ∷ log) = passed log ++ b
passed (_ ∷ log) = passed log

-- The bytes of the tasks of the NetStack thread.
unfoldable pub queued : List StackTask → List ℕ
queued [] = []
queued (write b ∷ ts) = b ++ queued ts
queued (ack_recved ∷ ts) = queued ts
queued (eof ∷ ts) = queued ts
queued (StackTask.close ∷ ts) = queued ts

pub queued-append : (ts us : List StackTask) → queued (ts ++ us) ≡ queued ts ++ queued us
unfolding queued
queued-append [] us = refl
queued-append (write b ∷ ts) us =
    ap (λ t. b ++ t) (queued-append ts us) ∙ sym (append_assoc b (queued ts) (queued us))
queued-append (ack_recved ∷ ts) us = queued-append ts us
queued-append (eof ∷ ts) us = queued-append ts us
queued-append (StackTask.close ∷ ts) us = queued-append ts us

-- What has been read and is still to be passed on.
abbrev pub waiting : SessionTcp → List ℕ
waiting s = s.backward_buf ++ queued s.stack_tasks

pub record IsBounded (s : SessionTcp) : Type 0 where
  pub stream : s.pcb ≡ true → read_in s.log ≡ passed s.log ++ waiting s
  pub counted : s.pcb ≡ true → s.backward_bytes ≡ length (waiting s)
  pub bounded : s.backward_bytes < high_water + 65536

-- One call of recv has a buffer of 65536 bytes.
abbrev pub Fits : Got → Type 0
Fits (bytes b) = length b ≤ 65536
Fits Got.blocks = Unit {0}
Fits Got.fails = Unit {0}

-- tcp_write takes the bytes or has no memory.
pub record IsUsual (e : Answers) : Type 0 where
  pub accepted : All (λ r. r.wrote ≢ refused) e.rooms
  pub sized : All Fits e.reads

-- What the loop of a pump has passed on.
pub record IsPumped (buf : List ℕ) (l : List Event) (p : Pump) : Type 0 where
  pub in_range : p.offset ≤ length buf
  pub works : p.failed ≡ false
  pub same_read : read_in p.log ≡ read_in l
  pub front : passed p.log ≡ passed l ++ take p.offset buf

add_chunk-IsPumped :
    (buf : List ℕ) (r : Room) (l : List Event) (p : Pump)
    → IsPumped buf l p
    → IsPumped buf l (add_chunk buf r p)
unfolding add_chunk chunk_of read_in passed
add_chunk-IsPumped buf r l p h = record {
  in_range = omega (arith, h.in_range);
  works = h.works;
  same_read = h.same_read;
  front =
      ap (λ t. t ++ take (chunk_of buf r p) (drop p.offset buf)) h.front
      ∙ append_assoc (passed l) (take p.offset buf) (take (chunk_of buf r p) (drop p.offset buf))
      ∙ ap (λ t. passed l ++ t) (sym (take-add p.offset (chunk_of buf r p) buf));
}

pub pump_loop-IsPumped :
    (buf : List ℕ) (rs : List Room) (l : List Event) (p : Pump)
    → All (λ r. r.wrote ≢ refused) rs
    → IsPumped buf l p
    → IsPumped buf l (pump_loop buf rs p)
unfolding pump_loop
pump_loop-IsPumped buf [] l p a h = h
pump_loop-IsPumped buf (r ∷ rs) l p a h = ground (
  arith,
  a.0,
  pump_loop-IsPumped buf rs l (add_chunk buf r p) a.1 (add_chunk-IsPumped buf r l p h),
)
