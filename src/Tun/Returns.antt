-- ===== src/Tun/Returns.antt =====
-- A flow that was recorded is recognised when its answer comes back.
use candy.Base.{
  ℕ, zero, suc, ◌+◌, ◌≤◌, ◌<◌, ◌≡◌, inl, inr, refl, ap, ◌∙◌, true, false, not, ◌&&◌, List, [], ◌∷◌,
  Option, some, arith, Bool-cases, ltb, length, drop,
}
use candy.Base.Map.{Map, lookup, assign, lookup-assign_self, length-assign}
use candy.Net.Order.{Endian}
use candy.Tun.Flows.{
  Tun, FlowKey, flow_limit, reap_interval, idle_limit, fresh, evict, evict_all, reap_idle_flows,
  record_key, record_initiated_flow, is_return_by_flow, return_of_key, refresh, reversed,
  parse_inner_l4, flow_key_eq, flow_eq_iff,
}

-- What is not idle for too long stays.
lookup-fresh :
    (now : ℕ) (key : FlowKey) (t : ℕ) (m : Map FlowKey ℕ)
    → now ≤ t + idle_limit
    → lookup key m ≡ some t
    → lookup key (fresh now m) ≡ some t
unfolding lookup fresh
lookup-fresh now key t [] recent h = cc
lookup-fresh now key t ((k, u) ∷ m) recent h =
    ground (arith, lookup-fresh now key t m recent, flow_eq_iff k key)

length-fresh : (now : ℕ) (m : Map FlowKey ℕ) → length (fresh now m) ≤ length m
unfolding fresh
length-fresh now [] = omega arith
length-fresh now ((k, u) ∷ m) = ground (arith, length-fresh now m)

evict-same : (fuel : ℕ) (m : Map FlowKey ℕ) → length m ≤ flow_limit → evict fuel m ≡ m
unfolding evict
evict-same zero m h = refl
evict-same (suc fuel) m h = ground arith

lookup-reap_idle_flows :
    (now : ℕ) (key : FlowKey) (s : Tun)
    → length s.initiated_flows ≤ flow_limit
    → lookup key s.initiated_flows ≡ some now
    → lookup key (reap_idle_flows now s).initiated_flows ≡ some now
unfolding reap_idle_flows evict_all
lookup-reap_idle_flows now key s small h =
    elim (Bool-cases (
      not (ltb flow_limit (length s.initiated_flows))
      && ltb now (s.last_flow_reap + reap_interval))) [
        | inl throttled ↦ rw throttled h
        | inr due ↦ rw due (
            ap (lookup key) (
              evict-same (length (fresh now s.initiated_flows)) (fresh now s.initiated_flows)
                (omega (arith, length-fresh now s.initiated_flows, small)))
            ∙ lookup-fresh now key now s.initiated_flows (omega arith) h)
      ]

lookup-record_initiated_flow :
    (e : Endian) (now : ℕ) (b : List ℕ) (key : FlowKey) (s : Tun)
    → length s.initiated_flows < flow_limit
    → parse_inner_l4 e b ≡ some key
    → lookup key (record_initiated_flow e now b s).initiated_flows ≡ some now
unfolding record_initiated_flow record_key
lookup-record_initiated_flow e now b key s room out =
    let s1 = record s { initiated_flows = assign key now s.initiated_flows } in
    rw (out, record_key)
      (lookup-reap_idle_flows now key s1
        (omega (arith, length-assign key now s.initiated_flows, room))
        (lookup-assign_self key now s.initiated_flows))

return_of_key_known :
    (later now : ℕ) (b : List ℕ) (o : Option FlowKey) (key : FlowKey) (s : Tun)
    → o ≡ some (reversed key)
    → lookup key s.initiated_flows ≡ some now
    → (return_of_key later b o s).1 ≡ true
unfolding return_of_key refresh
return_of_key_known later now b o key s e h = rw (e, h, refresh) refl

-- When a packet of a flow is recorded in a table that is not full, a later packet whose inner
-- header has the reversed addresses and ports is recognised as its answer, if nothing is recorded
-- in between.
pub answer_is_recognised :
    (e : Endian) (now later : ℕ) (b answer : List ℕ) (key : FlowKey) (s : Tun)
    → length s.initiated_flows < 4096
    → parse_inner_l4 e b ≡ some key
    → 40 ≤ length answer
    → parse_inner_l4 e (drop 20 answer) ≡ some (reversed key)
    → (is_return_by_flow e later answer (record_initiated_flow e now b s)).1 ≡ true
unfolding is_return_by_flow
answer_is_recognised e now later b answer key s room out long back = rw long_enough (
    return_of_key_known later now answer (parse_inner_l4 e (drop 20 answer)) key
      (record_initiated_flow e now b s) back recorded)
  where
    long_enough : ltb (length answer) 40 ≡ false
    long_enough = ground arith

    recorded : lookup key (record_initiated_flow e now b s).initiated_flows ≡ some now
    recorded = lookup-record_initiated_flow e now b key s room out
