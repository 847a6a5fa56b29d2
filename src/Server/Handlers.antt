-- ===== src/Server/Handlers.antt =====
-- The message handlers of WebSocketServer.
use candy.Base.{
  ℕ, Bool, true, false, not, List, [], ◌∷◌, ◌++◌, Option, none, some, ◌==◌, ltb, if◌then◌else◌,
  length, drop,
}
use candy.Base.Int.{pos, eqb_ℤ}
use candy.Base.Buffer.{slice, put}
use candy.Base.Map.{lookup, assign}
use candy.Net.Order.{store, hton}
use candy.Net.Ip4.{Ip4, ip4, ip_and, ip_xor, ip_not, ip_eq, ip_empty, to_uint32, ip4_eq}
use candy.Net.Address.{Address, unset, net, empty}
use candy.Net.Cidr.{Parsed, returns, overrun, from_cidr, to_cidr}
use candy.Message.Layout.{
  auth_size, forward_size, expt_tun_size, conn_size, vmac_size, discovery_size, general_size, ip_at,
}
use candy.Message.Hash.{check_auth, check_expt_tun, check_vmac, update_expt_tun}
use candy.Server.State.{
  Outcome, Env, Server, finished, undefined, Act, set_ctx, set_buffer, refuse, send_frame,
  send_each,
}
use candy.Server.Routes.{update_sys_route}
use candy.Server.Alloc.{direct, choose, Choice, found, exhausted, no_fuel}

abbrev pub broadcast_ip : Ip4
broadcast_ip = ip4 255 255 255 255

-- if (…) { ctx.status = -1; return; } and what stands behind it.
unfoldable pub reject_if : Bool → ℕ → Server → Server × Outcome → Server × Outcome
reject_if b i s rest = if b then (refuse i s, finished) else rest

-- An older connection of the same address is told to end.
unfoldable pub replace_old : Option ℕ → Server → Server
replace_old none s = s
replace_old (some old) s = refuse old s

-- The rest of handleAuthMsg behind the checks: the map, then the routes.
unfoldable pub log_in : ℕ → Ip4 → Act
log_in i ip s =
    let s1 = set_ctx i (record (s.ctxs i) { ip = ip }) s in
    let s2 = replace_old (lookup ip s1.ip_ctx_map) s1 in
    update_sys_route i (record s2 { ip_ctx_map = assign ip i s2.ip_ctx_map })

unfoldable pub checked_auth : ℕ → Bool × List ℕ → Act
checked_auth i (accepted, b) s =
    reject_if (not accepted) i (set_buffer i b s) (log_in i (ip_at 1 b) (set_buffer i b s))

unfoldable pub handle_auth_msg : Env → ℕ → Act
handle_auth_msg env i s =
    reject_if (ltb (length (s.ctxs i).buffer) auth_size) i s
      (checked_auth i (check_auth env.sha256 s.password (s.ctxs i).buffer) s)

-- The lambda of handleForwardMsg that recognises multicast and broadcast addresses.
unfoldable pub is_broadcast : Env → Address → Ip4 → Bool
is_broadcast env dhcp daddr =
    if ip_eq (ip_and daddr (ip4 240 0 0 0)) (ip4 224 0 0 0)
    then true
    else if ip_eq daddr broadcast_ip
    then true
    else if empty dhcp
    then false
    else if not (ip_eq (ip_and dhcp.mask daddr) (net dhcp))
    then false
    else to_uint32 env.endian (ip_not (ip_xor (ip_and daddr (ip_not dhcp.mask)) dhcp.mask)) == 0

-- The rest of handleForwardMsg behind the look-up of the destination.
unfoldable pub forward_to : Env → ℕ → Option ℕ → Act
forward_to env i (some j) s = send_frame j (s.ctxs i).buffer s
forward_to env i none s =
    if is_broadcast env s.dhcp (ip_at 17 (s.ctxs i).buffer)
    then send_each (λ ip j. not (ip_eq (s.ctxs j).ip (s.ctxs i).ip)) (s.ctxs i).buffer s.ip_ctx_map
        s
    else (s, finished)

unfoldable pub handle_forward_msg : Env → ℕ → Act
handle_forward_msg env i s = reject_if (ip_empty (s.ctxs i).ip) i s (
    reject_if (ltb (length (s.ctxs i).buffer) forward_size) i s
      (forward_to env i (lookup (ip_at 17 (s.ctxs i).buffer) s.ip_ctx_map) s))

-- A C string from an offset on: up to the first zero byte, which may lie behind the field.
unfoldable pub c_string : List ℕ → List ℕ
c_string [] = []
c_string (c ∷ s) = let rest = c ∷ c_string s in if c == 0 then [] else rest

-- The answer: clock, address and hash are written into the request.
unfoldable pub expt_tun_reply : Env → List ℕ → Address → List ℕ → List ℕ
expt_tun_reply env password a b =
    let stamped = put 1 (store env.endian 8 (hton env.endian 8 env.now)) b in
    update_expt_tun env.sha256 password (put 9 (to_cidr env.text a ++ 0 ∷ []) stamped)

unfoldable pub send_expt_tun : Env → ℕ → Address → Act
send_expt_tun env i a s =
    let b = expt_tun_reply env s.password a (s.ctxs i).buffer in send_frame i b (set_buffer i b s)

-- Three rounds of the search are enough: Server/AllocLaws.
abbrev pub alloc_fuel : ℕ
alloc_fuel = 3

-- What the loop chose becomes the server's own address, from which the next search starts.
unfoldable pub offer_chosen : Env → ℕ → Choice → Act
offer_chosen env i (found a) s = send_expt_tun env i a (record s { dhcp = a })
offer_chosen env i exhausted s = (refuse i s, finished)
offer_chosen env i no_fuel s = (s, undefined)

-- The rest of handleExptTunMsg behind the parsing of the requested address.
unfoldable pub offer : Env → ℕ → Address → Act
offer env i a s =
    if direct i a s
    then send_expt_tun env i a s
    else offer_chosen env i (choose alloc_fuel env.endian s.dhcp s.ip_ctx_map s.dhcp) s

unfoldable pub offer_parsed : Env → ℕ → Parsed → Act
offer_parsed env i (returns a status) s =
    reject_if (not (eqb_ℤ status (pos 0))) i s (offer env i a s)
offer_parsed env i overrun s = (s, undefined)

unfoldable pub checked_expt_tun : Env → ℕ → Bool × List ℕ → Act
checked_expt_tun env i (accepted, b) s = reject_if (not accepted) i (set_buffer i b s) (
    reject_if (empty s.dhcp) i (set_buffer i b s)
      (offer_parsed env i (from_cidr env.text unset (c_string (drop 9 b))) (set_buffer i b s)))

unfoldable pub handle_expt_tun_msg : Env → ℕ → Act
handle_expt_tun_msg env i s =
    reject_if (ltb (length (s.ctxs i).buffer) expt_tun_size) i s
      (checked_expt_tun env i (check_expt_tun env.sha256 s.password (s.ctxs i).buffer) s)

-- A message for one address of the map goes there unchanged, if the address is there.
unfoldable pub deliver : Ip4 → List ℕ → Act
deliver ip b s = elim (lookup ip s.ip_ctx_map) [ none ↦ (s, finished) | some j ↦ send_frame j b s ]

unfoldable pub handle_udp4_conn_msg : ℕ → Act
handle_udp4_conn_msg i s = reject_if (ip_empty (s.ctxs i).ip) i s (
    reject_if (ltb (length (s.ctxs i).buffer) conn_size) i s (
      reject_if (not (ip_eq (s.ctxs i).ip (ip_at 1 (s.ctxs i).buffer))) i s
        (deliver (ip_at 5 (s.ctxs i).buffer) (s.ctxs i).buffer s)))

unfoldable pub checked_vmac : ℕ → Bool × List ℕ → Act
checked_vmac i (accepted, b) s =
    reject_if (not accepted) i (set_buffer i b s)
      (set_ctx i (record (s.ctxs i) { buffer = b; vmac = slice 1 16 b }) s, finished)

unfoldable pub handle_vmac_msg : Env → ℕ → Act
handle_vmac_msg env i s =
    reject_if (ltb (length (s.ctxs i).buffer) vmac_size) i s
      (checked_vmac i (check_vmac env.sha256 s.password (s.ctxs i).buffer) s)

-- The common end of handleDiscoveryMsg and HandleGeneralMsg.
unfoldable pub spread : Ip4 → Ip4 → List ℕ → Act
spread src dst b s =
    if ip_eq dst broadcast_ip
    then send_each (λ ip j. not (ip_eq ip src)) b s.ip_ctx_map s
    else deliver dst b s

unfoldable pub handle_discovery_msg : ℕ → Act
handle_discovery_msg i s = reject_if (ip_empty (s.ctxs i).ip) i s (
    reject_if (ltb (length (s.ctxs i).buffer) discovery_size) i s (
      reject_if (not (ip_eq (s.ctxs i).ip (ip_at 1 (s.ctxs i).buffer))) i s
        (spread (ip_at 1 (s.ctxs i).buffer) (ip_at 5 (s.ctxs i).buffer) (s.ctxs i).buffer s)))

unfoldable pub handle_general_msg : ℕ → Act
handle_general_msg i s = reject_if (ip_empty (s.ctxs i).ip) i s (
    reject_if (ltb (length (s.ctxs i).buffer) general_size) i s (
      reject_if (not (ip_eq (s.ctxs i).ip (ip_at 4 (s.ctxs i).buffer))) i s
        (spread (ip_at 4 (s.ctxs i).buffer) (ip_at 8 (s.ctxs i).buffer) (s.ctxs i).buffer s)))
