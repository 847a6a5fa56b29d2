-- ===== src/Netstack/Tcp/Stack.antt =====
-- What SessionTcp does on the NetStack thread.
use candy.Base.{
  ℕ, zero, suc, ◌+◌, ◌-◌, ◌%◌, ◌^◌, min, Bool, true, false, ◌&&◌, List, [], ◌∷◌, ◌++◌, Option, none,
  some, if◌then◌else◌, leb, ◌==◌, length, drop,
}
use candy.Base.Buffer.{slice}
use candy.Netstack.Tcp.State.{
  ReactorTask, flush, resume, Event, from_pcb, to_pcb, outputs, recved, pcb_closed, pcb_aborted,
  session_removed, SessionTcp, low_water, Room, fits, no_memory, refused, Answers, post_to_reactor,
}

abbrev pub is_empty : List ℕ → Bool
is_empty [] = true
is_empty (x ∷ b) = false

-- tcp_close, and tcp_abort where it fails.
abbrev pub end_of_pcb : Bool → Event
end_of_pcb true = pcb_closed
end_of_pcb false = pcb_aborted

unfoldable pub close_from_stack : Answers → SessionTcp → SessionTcp
close_from_stack e s =
    if s.pcb
    then record s {
      pcb = false;
      reactor_tasks = s.reactor_tasks ++ ReactorTask.close ∷ [];
      log = session_removed ∷ end_of_pcb e.close_works ∷ s.log;
    }
    else post_to_reactor ReactorTask.close s

unfoldable pub buffer : List ℕ → SessionTcp → SessionTcp
buffer b s = record s {
  forward_buf = s.forward_buf ++ b;
  reactor_tasks = s.reactor_tasks ++ flush ∷ [];
  log = from_pcb b ∷ s.log;
}

-- A packet, or none at the end of the stream, and whether there was no error.
unfoldable pub on_recv : Answers → Option (List ℕ) → Bool → SessionTcp → SessionTcp
on_recv e none no_error s = close_from_stack e s
on_recv e (some b) no_error s = if no_error then buffer b s else close_from_stack e s

-- What the loop of pumpToLwip has done so far.
pub record Pump : Type 0 where
  pub offset : ℕ
  pub written : Bool
  pub failed : Bool
  pub log : List Event

-- u16_t
unfoldable pub space_of : Room → ℕ
space_of r = r.space % 2 ^ 16

unfoldable pub chunk_of : List ℕ → Room → Pump → ℕ
chunk_of buf r p = min (space_of r) (length buf - p.offset)

unfoldable pub add_chunk : List ℕ → Room → Pump → Pump
add_chunk buf r p = record p {
  offset = p.offset + chunk_of buf r p;
  written = true;
  log = to_pcb (slice p.offset (chunk_of buf r p) buf) ∷ p.log;
}

unfoldable pub pump_loop : List ℕ → List Room → Pump → Pump
pump_loop buf [] p = p
pump_loop buf (r ∷ rs) p =
    let more = pump_loop buf rs (add_chunk buf r p) in
    if leb (length buf) p.offset
    then p
    else if space_of r == 0
    then p
    else elim r.wrote [ fits ↦ more | no_memory ↦ p | refused ↦ record p { failed = true } ]

-- size_t
unfoldable pub fetch_sub : ℕ → ℕ → ℕ
fetch_sub n k = if leb k n then n - k else n + 2 ^ 64 - k

unfoldable pub update_read_interest : SessionTcp → SessionTcp
update_read_interest s =
    if s.read_paused && leb s.backward_bytes low_water
    then record s { read_paused = false; reactor_tasks = s.reactor_tasks ++ resume s.fd ∷ [] }
    else s

unfoldable pub take_out : Pump → SessionTcp → SessionTcp
take_out p s = record s {
  backward_buf = drop p.offset s.backward_buf;
  backward_bytes = fetch_sub s.backward_bytes p.offset;
  log = if p.written then outputs ∷ p.log else p.log;
}

unfoldable pub close_if_drained : Answers → SessionTcp → SessionTcp
close_if_drained e s = if s.fd_eof && is_empty s.backward_buf then close_from_stack e s else s

unfoldable pub after_pump : Answers → Pump → SessionTcp → SessionTcp
after_pump e p s =
    if p.failed
    then record s { log = p.log }
    else close_if_drained e (update_read_interest (take_out p s))

abbrev pub no_chunk : SessionTcp → Pump
no_chunk s = record { offset = 0; written = false; failed = false; log = s.log }

unfoldable pub pump_to_lwip : Answers → SessionTcp → SessionTcp
pump_to_lwip e s =
    if s.pcb then after_pump e (pump_loop s.backward_buf e.rooms (no_chunk s)) s else s

unfoldable pub on_sent : Answers → SessionTcp → SessionTcp
on_sent e s = pump_to_lwip e s

unfoldable pub write_to_lwip : Answers → List ℕ → SessionTcp → SessionTcp
write_to_lwip e b s =
    if s.pcb then pump_to_lwip e (record s { backward_buf = s.backward_buf ++ b }) else s

unfoldable pub close_if_empty : Answers → SessionTcp → SessionTcp
close_if_empty e s = if is_empty s.backward_buf then close_from_stack e s else s

unfoldable pub on_fd_eof_from_stack : Answers → SessionTcp → SessionTcp
on_fd_eof_from_stack e s = close_if_empty e (pump_to_lwip e (record s { fd_eof = true }))

-- The calls of tcp_recved, each with at most 0xFFFF bytes.
unfoldable pub ack_loop : ℕ → ℕ → List Event → List Event
ack_loop zero acked log = log
ack_loop (suc fuel) acked log =
    let chunk = min acked 0xFFFF in
    let rest = ack_loop fuel (acked - chunk) (recved chunk ∷ log) in
    if acked == 0 then log else rest

-- The loop takes at least one byte in each round.
unfoldable pub ack_recved_to_lwip : SessionTcp → SessionTcp
ack_recved_to_lwip s =
    if s.pcb
    then record s { pending_recved = 0; log = ack_loop s.pending_recved s.pending_recved s.log }
    else s
