-- ===== src/Server/Relay.antt =====
-- The messages that the server passes on between clients: UDP4CONN, DISCOVERY and GENERAL.
use candy.Base.{
  ℕ, ◌+◌, ◌≡◌, ◌≢◌, ◌≤◌, ◌<◌, ◌⊎◌, inl, inr, refl, sym, ap, ◌∙◌, Bool, true, false, not, List, [],
  ◌∷◌, ◌++◌, map, append-nil, append_assoc, none, some, ◌==◌, ltb, if◌then◌else◌, length, get_or,
  arith, Bool-cases, Option-cases,
}
use candy.Base.Map.{Map, lookup}
use candy.Net.Ip4.{Ip4, ip_eq, ip_eq_iff, ip_empty, ip4_eq}
use candy.Message.Kind
use candy.Message.Layout.{ip_at, conn_size, discovery_size, general_size}
use candy.Server.State.{
  Env, Server, Frame, Outcome, finished, thrown, refuse, send_frame, send_each,
}
use candy.Server.Handlers.{
  reject_if, deliver, spread, broadcast_ip, handle_udp4_conn_msg, handle_discovery_msg,
  handle_general_msg,
}
use candy.Server.Serve.{handle_msg, disconnect, after}

-- The kinds of message that are relayed, with the size of each and the offset of its source.
pub data Relays : ℕ → ℕ → ℕ → Type 0 where
  conn : {k n o : ℕ} → k ≡ Kind.udp4_conn → n ≡ conn_size → o ≡ 1 → Relays k n o
  discovery : {k n o : ℕ} → k ≡ Kind.discovery → n ≡ discovery_size → o ≡ 1 → Relays k n o
  general : {k n o : ℕ} → k ≡ Kind.general → n ≡ general_size → o ≡ 4 → Relays k n o

-- Whom a message reaches: one address, or for the last two kinds all but the source.
abbrev pub one : Ip4 → Map Ip4 ℕ → List ℕ
one dst m = elim (lookup dst m) [ none ↦ [] | some j ↦ j ∷ [] ]

pub all_but : Ip4 → Map Ip4 ℕ → List ℕ
all_but src [] = []
all_but src ((ip, j) ∷ m) = if ip_eq ip src then all_but src m else j ∷ all_but src m

abbrev pub recipients : ℕ → Ip4 → Ip4 → Map Ip4 ℕ → List ℕ
recipients kind src dst m =
    if kind == Kind.udp4_conn
    then one dst m
    else if ip_eq dst broadcast_ip
    then all_but src m
    else one dst m

abbrev pub frames : List ℕ → List ℕ → List Frame
frames b js = map (λ j. record { receiver = j; payload = b }) js

abbrev pub Works : Server → Type 0
Works s = (j : ℕ) → s.broken j ≡ false

abbrev pub sending : List ℕ → List ℕ → Server → Server
sending b js s = record s { sent = s.sent ++ frames b js }

send_each_lem :
    (src : Ip4) (b : List ℕ) (m : Map Ip4 ℕ) (s : Server)
    → Works s
    → send_each (λ ip j. not (ip_eq ip src)) b m s ≡ (sending b (all_but src m) s, finished)
unfolding send_each all_but send_frame
send_each_lem src b [] s w = ap (λ x. (record s { sent = x }, finished)) (sym (append-nil s.sent))
send_each_lem src b ((ip, j) ∷ m) s w = elim (Bool-cases (ip_eq ip src)) [
  | inl same ↦ rw same (send_each_lem src b m s w)
  | inr other ↦
      rw (other, send_frame, w j)
        (send_each_lem src b m (sending b (j ∷ []) s) w
          ∙ ap (λ x. (record s { sent = x }, finished))
              (append_assoc s.sent (frames b (j ∷ [])) (frames b (all_but src m))))
]

deliver_lem :
    (dst : Ip4) (b : List ℕ) (s : Server)
    → Works s
    → deliver dst b s ≡ (sending b (one dst s.ip_ctx_map) s, finished)
unfolding deliver send_frame
deliver_lem dst b s w = elim (Option-cases (lookup dst s.ip_ctx_map)) [
  | inl e ↦
      rw (e, deliver)
        (ap (λ x. (record s { sent = x }, finished)) (sym (append-nil s.sent))
          ∙ ap (λ js. (sending b js s, finished)) (sym (none_one e)))
  | inr (j, e) ↦
      rw (e, deliver, send_frame, w j) (ap (λ js. (sending b js s, finished)) (sym (some_one j e)))
]
  where
    none_one : lookup dst s.ip_ctx_map ≡ none → one dst s.ip_ctx_map ≡ []
    none_one e = rw (e, one)

    some_one : (j : ℕ) → lookup dst s.ip_ctx_map ≡ some j → one dst s.ip_ctx_map ≡ j ∷ []
    some_one j e = rw (e, one)

spread_lem :
    (src dst : Ip4) (b : List ℕ) (s : Server)
    → Works s
    → spread src dst b s ≡ (
      sending b
          (if ip_eq dst broadcast_ip then all_but src s.ip_ctx_map else one dst s.ip_ctx_map)
          s,
      finished,
    )
unfolding spread
spread_lem src dst b s w = elim (Bool-cases (ip_eq dst broadcast_ip)) [
  | inl all ↦ rw all (send_each_lem src b s.ip_ctx_map s w)
  | inr some_one ↦ rw some_one (deliver_lem dst b s w)
]

abbrev checks : Bool → Bool → Bool → ℕ → Server → Server × Outcome → Server × Outcome
checks x y z i s r = reject_if x i s (reject_if y i s (reject_if z i s r))

checks_fail :
    (x y z : Bool) (i : ℕ) (s : Server) (r : Server × Outcome)
    → (x ≡ true) ⊎ ((y ≡ true) ⊎ (z ≡ true))
    → checks x y z i s r ≡ (refuse i s, finished)
unfolding reject_if
checks_fail x y z i s r h = ground arith

checks_pass :
    (x y z : Bool) (i : ℕ) (s : Server) (r : Server × Outcome)
    → x ≡ false
    → y ≡ false
    → z ≡ false
    → checks x y z i s r ≡ r
unfolding reject_if
checks_pass x y z i s r h k l = ground arith

-- What the three handlers have in common.
relayed : ℕ → ℕ → Ip4 → Ip4 → List ℕ → Server → Server × Outcome
relayed i kind src dst b s = if kind == Kind.udp4_conn then deliver dst b s else spread src dst b s

relayed_lem :
    (i kind : ℕ) (src dst : Ip4) (b : List ℕ) (s : Server)
    → Works s
    → relayed i kind src dst b s ≡ (sending b (recipients kind src dst s.ip_ctx_map) s, finished)
unfolding relayed
relayed_lem i kind src dst b s w = elim (Bool-cases (kind == Kind.udp4_conn)) [
  | inl single ↦ rw single (deliver_lem dst b s w)
  | inr other ↦ rw other (spread_lem src dst b s w)
]

module _ (env : Env) (i : ℕ) (s : Server) where
  abbrev buffer : List ℕ
  buffer = (s.ctxs i).buffer

  handle_msg_relays :
      (n o : ℕ)
      → Relays (get_or buffer 0 0) n o
      → handle_msg env i s
        ≡ checks
            (ip_empty (s.ctxs i).ip)
            (ltb (length buffer) n)
            (not (ip_eq (s.ctxs i).ip (ip_at o buffer)))
            i
            s
            (relayed i (get_or buffer 0 0) (ip_at o buffer) (ip_at (o + 4) buffer) buffer s)
  unfolding handle_msg relayed handle_udp4_conn_msg handle_discovery_msg handle_general_msg
  handle_msg_relays n o (conn k e f) = rw (k, e, f)
  handle_msg_relays n o (discovery k e f) = rw (k, e, f)
  handle_msg_relays n o (general k e f) = rw (k, e, f)

  -- A UDP4CONN, DISCOVERY or GENERAL message of a connection that has not logged in, that is too short, or that names
  -- another source than the connection's address is refused: nothing is sent, the connection's
  -- status becomes -1, and nothing else changes.
  pub relay_refused :
      (n o : ℕ)
      → Relays (get_or (s.ctxs i).buffer 0 0) n o
      → (ip_empty (s.ctxs i).ip ≡ true)
        ⊎ ((length (s.ctxs i).buffer < n) ⊎ ((s.ctxs i).ip ≢ ip_at o (s.ctxs i).buffer))
      → handle_msg env i s ≡ (refuse i s, finished)
  relay_refused n o r bad =
      handle_msg_relays n o r
      ∙ checks_fail _ _ _ i s _
          (ground (arith, bad, ip_eq_iff (s.ctxs i).ip (ip_at o (s.ctxs i).buffer)))

  -- A UDP4CONN, DISCOVERY or GENERAL message of a connection that has logged in, that is long enough
  -- and that names the connection's address as its source goes, while no socket fails, unchanged to
  -- its recipients, and nothing else changes: to the connection under the destination address if
  -- there is one, or, of the kinds DISCOVERY and GENERAL with destination 255.255.255.255, to every
  -- connection of the map but the source's.
  pub relay_delivers :
      (n o : ℕ)
      → Relays (get_or (s.ctxs i).buffer 0 0) n o
      → ip_empty (s.ctxs i).ip ≡ false
      → n ≤ length (s.ctxs i).buffer
      → (s.ctxs i).ip ≡ ip_at o (s.ctxs i).buffer
      → Works s
      → handle_msg env i s ≡ (
        sending
            (s.ctxs i).buffer
            (recipients
              (get_or (s.ctxs i).buffer 0 0)
              (ip_at o (s.ctxs i).buffer)
              (ip_at (o + 4) (s.ctxs i).buffer)
              s.ip_ctx_map)
            s,
        finished,
      )
  relay_delivers n o r a long src w =
      handle_msg_relays n o r
      ∙ checks_pass _ _ _ i s _ a (ground arith)
          (ground (arith, ip_eq_iff (s.ctxs i).ip (ip_at o (s.ctxs i).buffer)))
      ∙ relayed_lem i (get_or buffer 0 0) (ip_at o buffer) (ip_at (o + 4) buffer) buffer s w

  -- When a connection that has logged in sends a long enough UDP4CONN message with its own address as
  -- source, and the frame to the connection under the destination address cannot be sent, the
  -- exception ends the connection of the sender.
  pub broken_recipient_disconnects :
      (j : ℕ)
      → get_or (s.ctxs i).buffer 0 0 ≡ Kind.udp4_conn
      → ip_empty (s.ctxs i).ip ≡ false
      → conn_size ≤ length (s.ctxs i).buffer
      → (s.ctxs i).ip ≡ ip_at 1 (s.ctxs i).buffer
      → lookup (ip_at 5 (s.ctxs i).buffer) s.ip_ctx_map ≡ some j
      → s.broken j ≡ true
      → after i (handle_msg env i s) ≡ disconnect i s
  broken_recipient_disconnects j k a long src h bad = ap (after i) (
      handle_msg_relays conn_size 1 (conn k refl refl)
      ∙ checks_pass _ _ _ i s _ a (ground arith)
          (ground (arith, ip_eq_iff (s.ctxs i).ip (ip_at 1 (s.ctxs i).buffer)))
      ∙ relayed_throws)
    where
      relayed_throws :
          relayed i (get_or buffer 0 0) (ip_at 1 buffer) (ip_at 5 buffer) buffer s ≡ (s, thrown)
      relayed_throws =
          unfold relayed deliver send_frame in rw k (rw (h, deliver) (rw (bad, send_frame)))
