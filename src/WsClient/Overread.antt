-- ===== src/WsClient/Overread.antt =====
-- A route message that counts more entries than it holds.
use candy.Base.{
  ℕ, zero, suc, ◌+◌, ◌*◌, ◌≤◌, ◌<◌, ◌≡◌, List, none, arith, length, length-drop, drop, get_or, ltb,
  Bool-cases, inl, inr,
}
use candy.Message.Layout.{sys_route_size, sys_route_entry_size}
use candy.WsClient.Handlers.{route_entry, route_entries, handle_route_msg}

route_entries-eq-none : (n : ℕ) (b : List ℕ) → length b < 12 * n → route_entries n b ≡ none
unfolding route_entries route_entry
route_entries-eq-none zero b h = absurd (omega arith)
route_entries-eq-none (suc n) b h = elim (Bool-cases (ltb (length b) sys_route_entry_size)) [
  | inl short ↦ rw (short, route_entry)
  | inr fits ↦
      rw (fits, route_entry, route_entries-eq-none n (drop 12 b) (ground (arith, length-drop 12 b)))
]

-- When the message has its header but fewer than the entries of 12 bytes that its second byte
-- counts, handleRouteMsg reads past the end of the message.
pub route_message_overread :
    (b : List ℕ)
    → sys_route_size ≤ length b
    → length b < 4 + 12 * get_or b 1 0
    → handle_route_msg b ≡ none
unfolding handle_route_msg
route_message_overread b header short =
    ground (arith, length-drop 4 b, route_entries-eq-none (get_or b 1 0) (drop 4 b))
