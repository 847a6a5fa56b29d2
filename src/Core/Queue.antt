-- ===== src/Core/Queue.antt =====
-- class MsgQueue of candy/src/core/client.cc. Each call holds the queue's lock, so the calls of the
-- threads come one after the other. A read that waits for a second in vain gives TIMEOUT.
use candy.Base.{List, [], ◌∷◌, ◌++◌}
use candy.Core.Message.{Msg, timeout}

abbrev pub MsgQueue : Type 0
MsgQueue = List Msg

unfoldable pub read : MsgQueue → Msg × MsgQueue
read [] = (timeout, [])
read (m ∷ q) = (m, q)

unfoldable pub write : Msg → MsgQueue → MsgQueue
write m q = q ++ m ∷ []

unfoldable pub clear : MsgQueue → MsgQueue
clear [] = []
clear (m ∷ q) = clear q

pub data QueueCall : Type 0 where
  reads : QueueCall
  writes : Msg → QueueCall

-- The calls of all threads, in the order of the lock: what was read, and what is left.
unfoldable pub run_calls : List QueueCall → MsgQueue → List Msg × MsgQueue
run_calls [] q = ([], q)
run_calls (writes m ∷ calls) q = run_calls calls (write m q)
run_calls (reads ∷ calls) q =
    let (m, q') = read q in let (out, end) = run_calls calls q' in (m ∷ out, end)
