-- ===== src/Core/Fifo.antt =====
-- A message queue gives out what was written, in order and once.
use candy.Base.{List, [], ◌∷◌, ◌++◌, ◌≡◌, refl, sym, ap, ◌∙◌, append-nil, append_assoc}
use candy.Core.Message.{
  Msg, timeout, packet, tun_addr, sys_rt, try_p2p, pub_info, discovery, netstack,
}
use candy.Core.Queue.{MsgQueue, read, write, QueueCall, reads, writes, run_calls}

pub written : List QueueCall → List Msg
written [] = []
written (reads ∷ calls) = written calls
written (writes m ∷ calls) = m ∷ written calls

-- What was read, less the timeouts.
pub received : List Msg → List Msg
received [] = []
received (timeout ∷ out) = received out
received (packet b ∷ out) = packet b ∷ received out
received (tun_addr b ∷ out) = tun_addr b ∷ received out
received (sys_rt b ∷ out) = sys_rt b ∷ received out
received (try_p2p b ∷ out) = try_p2p b ∷ received out
received (pub_info p ∷ out) = pub_info p ∷ received out
received (discovery ∷ out) = discovery ∷ received out
received (netstack b ∷ out) = netstack b ∷ received out

received-cons : (m : Msg) (out : List Msg) → received (m ∷ out) ≡ received (m ∷ []) ++ received out
unfolding received
received-cons timeout out = refl
received-cons (packet b) out = refl
received-cons (tun_addr b) out = refl
received-cons (sys_rt b) out = refl
received-cons (try_p2p b) out = refl
received-cons (pub_info p) out = refl
received-cons discovery out = refl
received-cons (netstack b) out = refl

received-append : (xs ys : List Msg) → received (xs ++ ys) ≡ received xs ++ received ys
unfolding received
received-append [] ys = refl
received-append (m ∷ xs) ys =
    received-cons m (xs ++ ys)
    ∙ ap (λ t. received (m ∷ []) ++ t) (received-append xs ys)
    ∙ sym (append_assoc (received (m ∷ [])) (received xs) (received ys))
    ∙ ap (λ t. t ++ received ys) (sym (received-cons m xs))

-- Whatever order the calls of the threads come in, the messages that were read, followed by those
-- that are still in the queue, are those that were in the queue at first, followed by those that
-- were written, in order; TIMEOUT, which also stands for an empty queue, is not counted.
pub queue_is_fifo :
    (calls : List QueueCall) (q : MsgQueue)
    → received (run_calls calls q).0 ++ received (run_calls calls q).1
      ≡ received q ++ received (written calls)
unfolding run_calls read write written received
queue_is_fifo [] q = sym (append-nil (received q))
queue_is_fifo (writes m ∷ calls) q =
    queue_is_fifo calls (q ++ m ∷ [])
    ∙ ap (λ t. t ++ received (written calls)) (received-append q (m ∷ []))
    ∙ append_assoc (received q) (received (m ∷ [])) (received (written calls))
    ∙ ap (λ t. received q ++ t) (sym (received-cons m (written calls)))
queue_is_fifo (reads ∷ calls) [] = queue_is_fifo calls []
queue_is_fifo (reads ∷ calls) (m ∷ q) =
    let out = (run_calls calls q).0 in
    let left = (run_calls calls q).1 in
    ap (λ t. t ++ received left) (received-cons m out)
    ∙ append_assoc (received (m ∷ [])) (received out) (received left)
    ∙ ap (λ t. received (m ∷ []) ++ t) (queue_is_fifo calls q)
    ∙ sym (append_assoc (received (m ∷ [])) (received q) (received (written calls)))
    ∙ ap (λ t. t ++ received (written calls)) (sym (received-cons m q))
