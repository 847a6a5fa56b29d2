-- ===== src/Netstack/Tcp/Arrival.antt =====
-- A socket that takes all that waits for it.
use candy.Base.{Bool, ◌&&◌, not, replicate, ℕ, ◌≡◌, refl, true, false, length}
use candy.Netstack.Tcp.State.{SessionTcp, Sent, takes, Answers}
use candy.Netstack.Tcp.Stack.{is_empty}
use candy.Netstack.Tcp.Reactor.{flush_forward, read_if, write_if, on_fd_event}
use candy.Netstack.Tcp.Calls.{event, call}

abbrev pub IsTaking : Sent → Type 0
IsTaking (takes n) = Unit {0}
IsTaking Sent.blocks = ⊥
IsTaking Sent.fails = ⊥

written :
    (e : Answers) (s : SessionTcp)
    → s.connected ≡ true
    → call e (event false true false) s ≡ flush_forward e s
unfolding call on_fd_event read_if write_if
written e s up = rw up refl

-- The socket takes a byte, and `n` more, as often as bytes wait.
abbrev pub greedy : ℕ → Answers → SessionTcp → Answers
greedy n e t = record e { sends = replicate (length t.forward_buf) (takes n) }

-- A session with a connected socket still has bytes for it behind such an event.
abbrev pub still_waits : ℕ → Answers → SessionTcp → Bool
still_waits n e t =
    (t.fd && t.connected)
    && not (is_empty (call (greedy n e t) (event false true false) t).forward_buf)
