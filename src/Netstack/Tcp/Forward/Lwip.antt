-- ===== src/Netstack/Tcp/Forward/Lwip.antt =====
-- The calls of the stack thread keep the bytes for the socket whole.
use candy.Base.{
  ℕ, zero, suc, ◌+◌, ◌-◌, ◌≤◌, min, ◌≡◌, refl, ap, ◌∙◌, Bool, true, false, List, [], ◌∷◌, ◌++◌,
  Option, none, some, arith, length, append_assoc,
}
use candy.Netstack.Tcp.State.{Event, from_pcb, recved, to_fd, SessionTcp, Room, Answers}
use candy.Netstack.Tcp.Stack.{
  close_from_stack, buffer, on_recv, Pump, add_chunk, pump_loop, update_read_interest, take_out,
  close_if_drained, after_pump, pump_to_lwip, no_chunk, write_to_lwip, close_if_empty,
  on_fd_eof_from_stack, ack_loop, ack_recved_to_lwip,
}
use candy.Netstack.Tcp.Reactor.{close_socket, close_from_reactor}

-- What came from the pcb, what went to the socket, and how many bytes were acknowledged.
unfoldable pub received : List Event → List ℕ
received [] = []
received (from_pcb b ∷ log) = received log ++ b
received (_ ∷ log) = received log

unfoldable pub sent : List Event → List ℕ
sent [] = []
sent (to_fd b ∷ log) = sent log ++ b
sent (_ ∷ log) = sent log

unfoldable pub acked : List Event → ℕ
acked [] = 0
acked (recved n ∷ log) = acked log + n
acked (_ ∷ log) = acked log

pub record IsForwarded (s : SessionTcp) : Type 0 where
  pub stream : received s.log ≡ sent s.log ++ s.forward_buf
  pub no_more : acked s.log + s.pending_recved ≤ length (sent s.log)
  pub no_less : s.closing ≡ false → acked s.log + s.pending_recved ≡ length (sent s.log)

pub close_from_stack-IsForwarded :
    (e : Answers) (s : SessionTcp) → IsForwarded s → IsForwarded (close_from_stack e s)
unfolding close_from_stack received sent acked
close_from_stack-IsForwarded e s o = ground arith

pub close_from_reactor-IsForwarded :
    (s : SessionTcp) → IsForwarded s → IsForwarded (close_from_reactor s)
unfolding close_from_reactor close_socket received sent acked
close_from_reactor-IsForwarded s o = ground arith

-- The one log says of this direction what the other does.
record SameBytes (l k : List Event) : Type 0 where
  same_received : received k ≡ received l
  same_sent : sent k ≡ sent l
  same_acked : acked k ≡ acked l

pump_loop-SameBytes :
    (buf : List ℕ) (rs : List Room) (l : List Event) (p : Pump)
    → SameBytes l p.log
    → SameBytes l (pump_loop buf rs p).log
unfolding pump_loop add_chunk received sent acked
pump_loop-SameBytes buf [] l p h = h
pump_loop-SameBytes buf (r ∷ rs) l p h =
    ground (arith, pump_loop-SameBytes buf rs l (add_chunk buf r p))

take_out-IsForwarded :
    (p : Pump) (s : SessionTcp) → SameBytes s.log p.log → IsForwarded s → IsForwarded (take_out p s)
unfolding take_out received sent acked
take_out-IsForwarded p s h o = ground arith

update_read_interest-IsForwarded :
    (s : SessionTcp) → IsForwarded s → IsForwarded (update_read_interest s)
unfolding update_read_interest
update_read_interest-IsForwarded s o = ground arith

module _ (e : Answers) where
  close_if_drained-IsForwarded :
      (s : SessionTcp) → IsForwarded s → IsForwarded (close_if_drained e s)
  unfolding close_if_drained
  close_if_drained-IsForwarded s o = ground (arith, close_from_stack-IsForwarded e s o)

  after_pump-IsForwarded :
      (p : Pump) (s : SessionTcp)
      → SameBytes s.log p.log
      → IsForwarded s
      → IsForwarded (after_pump e p s)
  unfolding after_pump
  after_pump-IsForwarded p s h o = ground (
    arith,
    close_if_drained-IsForwarded (update_read_interest (take_out p s))
        (update_read_interest-IsForwarded (take_out p s) (take_out-IsForwarded p s h o)),
  )

  pub pump_to_lwip-IsForwarded : (s : SessionTcp) → IsForwarded s → IsForwarded (pump_to_lwip e s)
  unfolding pump_to_lwip
  pump_to_lwip-IsForwarded s o =
      let same : SameBytes s.log s.log = record {
        same_received = refl;
        same_sent = refl;
        same_acked = refl;
      } in
      ground (
        arith,
        after_pump-IsForwarded (pump_loop s.backward_buf e.rooms (no_chunk s)) s
            (pump_loop-SameBytes s.backward_buf e.rooms s.log (no_chunk s) same) o,
      )

  pub write_to_lwip-IsForwarded :
      (b : List ℕ) (s : SessionTcp) → IsForwarded s → IsForwarded (write_to_lwip e b s)
  unfolding write_to_lwip
  write_to_lwip-IsForwarded b s o =
      ground (arith, pump_to_lwip-IsForwarded (record s { backward_buf = s.backward_buf ++ b }))

  pub on_fd_eof_from_stack-IsForwarded :
      (s : SessionTcp) → IsForwarded s → IsForwarded (on_fd_eof_from_stack e s)
  unfolding on_fd_eof_from_stack close_if_empty
  on_fd_eof_from_stack-IsForwarded s o =
      let pumped =
        pump_to_lwip-IsForwarded (record s { fd_eof = true })
          (record { stream = o.stream; no_more = o.no_more; no_less = o.no_less }) in
      ground
        (arith, close_from_stack-IsForwarded e (pump_to_lwip e (record s { fd_eof = true })) pumped)

  pub on_recv-IsForwarded :
      (p : Option (List ℕ)) (no_error : Bool) (s : SessionTcp)
      → IsForwarded s
      → IsForwarded (on_recv e p no_error s)
  unfolding on_recv buffer received sent acked
  on_recv-IsForwarded none no_error s o = close_from_stack-IsForwarded e s o
  on_recv-IsForwarded (some b) true s o = record {
    stream = ap (λ t. t ++ b) o.stream ∙ append_assoc (sent s.log) s.forward_buf b;
    no_more = o.no_more;
    no_less = o.no_less;
  }
  on_recv-IsForwarded (some b) false s o = close_from_stack-IsForwarded e s o

record SameStreams (l k : List Event) : Type 0 where
  same_received : received k ≡ received l
  same_sent : sent k ≡ sent l

ack_loop-SameStreams :
    (fuel n : ℕ) (l k : List Event) → SameStreams l k → SameStreams l (ack_loop fuel n k)
unfolding ack_loop received sent
ack_loop-SameStreams zero n l k h = h
ack_loop-SameStreams (suc fuel) n l k h =
    ground (arith, ack_loop-SameStreams fuel (n - min n 0xFFFF) l (recved (min n 0xFFFF) ∷ k))

-- The calls of tcp_recved acknowledge all bytes.
acked-ack_loop : (fuel n : ℕ) (l : List Event) → n ≤ fuel → acked (ack_loop fuel n l) ≡ acked l + n
unfolding ack_loop acked
acked-ack_loop zero n l h = omega arith
acked-ack_loop (suc fuel) n l h =
    ground (arith, acked-ack_loop fuel (n - min n 0xFFFF) (recved (min n 0xFFFF) ∷ l))

pub ack_recved_to_lwip-IsForwarded :
    (s : SessionTcp) → IsForwarded s → IsForwarded (ack_recved_to_lwip s)
unfolding ack_recved_to_lwip
ack_recved_to_lwip-IsForwarded s o = ground (
  arith,
  ack_loop-SameStreams s.pending_recved s.pending_recved s.log s.log
      (record { same_received = refl; same_sent = refl }),
  acked-ack_loop s.pending_recved s.pending_recved s.log (omega arith),
)
