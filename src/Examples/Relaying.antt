-- ===== src/Examples/Relaying.antt =====
-- netstack/session_tcp.cc at concrete inputs.
use candy.Base.{ℕ, ◌≡◌, refl, true, false, List, [], ◌∷◌, ◌++◌, take, none, some, All, arith}
use candy.Netstack.Tcp.State.{
  interest, SessionTcp, new_session, start, fits, refused, takes, bytes, Answers,
}
use candy.Netstack.Tcp.Calls.{
  Call, receives, acknowledged, stack_task, event, reactor_task, call, calls, next_reactor_task,
  run_reactor_task,
}
use candy.Netstack.Tcp.Stack.{on_recv, close_from_stack}
use candy.Netstack.Tcp.Reactor.{close_from_reactor, close_socket}
use candy.Netstack.Tcp.Forward.Lwip.{sent}
use candy.Netstack.Tcp.Backward.Flow.{passed, IsBounded, IsUsual}
use candy.Netstack.Tcp.Backward.{backward_keeps_limits}
use candy.Netstack.Tcp.Ends.{EndsTogether, pcb_and_socket_end_together}
use candy.Netstack.Tcp.Losses.{end_of_stream_cuts_off_bytes}
use candy.Netstack.Tcp.Repeats.{pump_error_repeats_bytes}

-- The session behind its dialling.
abbrev dialled : SessionTcp
dialled = record new_session { self = true; fd = true; log = interest false true ∷ [] }

dials : start true new_session ≡ some dialled
unfolding start
dials = refl

-- A socket that connects and takes two bytes, and one that gives four and then its end; lwIP has
-- room for them.
abbrev half : Answers
half = record {
  rooms = [];
  close_works = true;
  sends = takes 1 ∷ [];
  reads = [];
  connect_works = true;
}

abbrev giving : Answers
giving = record {
  rooms = record { space = 1000; wrote = fits } ∷ [];
  close_works = true;
  sends = [];
  reads = bytes (1 ∷ 2 ∷ 3 ∷ 4 ∷ []) ∷ bytes [] ∷ [];
  connect_works = true;
}

abbrev request : List ℕ
request = 71 ∷ 69 ∷ 84 ∷ []

-- Bytes of the pcb wait for the connection, and half of them are sent; the socket answers and ends.
abbrev exchange : List (Answers × Call)
exchange =
    (half, receives (some request) true)
    ∷ (half, reactor_task)
    ∷ (half, event false true false)
    ∷ (half, stack_task)
    ∷ (giving, event true false false)
    ∷ (giving, stack_task)
    ∷ []

half-IsUsual : IsUsual half
half-IsUsual = record { accepted = tt; sized = tt }

giving-IsUsual : IsUsual giving
giving-IsUsual = record { accepted = (λ h. cc, tt); sized = (omega arith, (omega arith, tt)) }

exchange_answers : All (λ (c : Answers × Call). IsUsual c.0) exchange
exchange_answers = (
  half-IsUsual,
  (half-IsUsual, (half-IsUsual, (half-IsUsual, (giving-IsUsual, (giving-IsUsual, tt))))),
)

backward_keeps_limits_example : IsBounded (calls exchange dialled)
backward_keeps_limits_example = backward_keeps_limits dialled exchange dials exchange_answers

-- The pcb ends first, and the reactor closes the socket.
abbrev hang_up : List (Answers × Call)
hang_up = (half, receives none true) ∷ (half, reactor_task) ∷ []

pcb_and_socket_end_together_example : EndsTogether (calls hang_up dialled)
unfolding calls call next_reactor_task on_recv close_from_stack run_reactor_task close_from_reactor
    close_socket
pcb_and_socket_end_together_example = pcb_and_socket_end_together dialled hang_up dials refl refl

-- The socket is not connected yet.
abbrev full : Answers
full = record half { sends = [] }

end_of_stream_cuts_off_bytes_example :
    sent
      (calls
        ((half, receives (some request) true)
          ∷ (half, receives none true)
          ∷ (full, reactor_task)
          ∷ (half, reactor_task)
          ∷ exchange)
        dialled).log
    ≡ sent dialled.log
end_of_stream_cuts_off_bytes_example =
    end_of_stream_cuts_off_bytes dialled refl refl refl refl half half full half request exchange
      refl

-- Three bytes wait for the pcb, which takes one and then fails.
abbrev answered : SessionTcp
answered = record dialled { connected = true; backward_buf = request; backward_bytes = 3 }

abbrev failing : Answers
failing = record half {
  rooms = record { space = 1; wrote = fits } ∷ record { space = 1; wrote = refused } ∷ [];
}

abbrev taking : Answers
taking = record half { rooms = record { space = 3; wrote = fits } ∷ [] }

pump_error_repeats_bytes_example :
    passed (call taking acknowledged (call failing acknowledged answered)).log
    ≡ (passed answered.log ++ take 1 request) ++ request
pump_error_repeats_bytes_example =
    pump_error_repeats_bytes answered failing taking 1 refl (omega arith) (omega arith)
      (omega arith) refl refl
