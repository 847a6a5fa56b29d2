-- ===== src/WsClient/Login.antt =====
-- A client's login at the server, and the information about a peer that it passes on.
use candy.Base.{
  ℕ, ◌≤◌, ◌≡◌, ◌≢◌, refl, sym, ap, ◌∙◌, subst, true, List, [], ◌∷◌, ◌++◌, some, arith, length,
  get_or, replicate, ==_iff,
}
use candy.Base.Int.{pos}
use candy.Base.Buffer.{length-put}
use candy.Base.Map.{lookup, assign, lookup-assign_self}
use candy.Net.Order.{Endian, little, big, store}
use candy.Net.Ip4.{Ip4, ip4_eq}
use candy.Net.Address.{Address, unset}
use candy.Net.Cidr.{IpText, returns, from_cidr, to_cidr}
use candy.Net.CidrLaws.{IpTextLaws, from_cidr-to_cidr}
use candy.Net.Prefix.{IsMask}
use candy.Message.Kind
use candy.Message.Layout.{ip_at, digest_length, auth_size}
use candy.Message.Hash.{check_auth, update_auth}
use candy.Message.Make.{new_auth}
use candy.Message.Signed.{check_auth-IsSound}
use candy.Server.State.{Env, Server, set_buffer}
use candy.Server.Serve.{handle_msg}
use candy.Server.Logins.{log_in-LoggedIn, ip_at-check_auth}
use candy.Server.SecondLogin.{handle_auth_msg_accepted}
use candy.Core.Message.{tun_addr}
use candy.WsClient.State.{World, WsClient, frame, ping, to_tun, to_peers, new_address, address_of}
use candy.WsClient.Send.{auth_frame, send_auth_msg, send_if, send_ping_message}

new_address-from_cidr :
    (t : IpText) (s : List ℕ) (a : Address)
    → s ≢ []
    → from_cidr t unset s ≡ returns a (pos 0)
    → new_address t s ≡ some a
unfolding new_address
new_address-from_cidr t [] a ne e = absurd (ne refl)
new_address-from_cidr t (c ∷ s) a ne e = ap address_of e

append_cons_not_nil : (xs : List ℕ) (y : ℕ) (ys : List ℕ) → xs ++ y ∷ ys ≢ []
append_cons_not_nil [] y ys = cc
append_cons_not_nil (x ∷ xs) y ys = cc

-- The text of an address with the mask of a prefix length is read back by the constructor.
pub new_address-to_cidr :
    (t : IpText) (laws : IpTextLaws t) (a : Address) (p : ℕ)
    → IsMask p a.mask
    → new_address t (to_cidr t a) ≡ some a
new_address-to_cidr t laws a p m =
    new_address-from_cidr t (to_cidr t a) a (unfold to_cidr in append_cons_not_nil _ _ _)
      (from_cidr-to_cidr t unset laws a p m)

module _ (now : ℕ) (ip : Ip4) where
  abbrev made : Endian → List ℕ
  made e = new_auth e now ip (replicate auth_size 0)

  length-made : (e : Endian) → auth_size ≤ length (made e)
  unfolding new_auth store
  length-made little = omega arith
  length-made big = omega arith

  -- The hash leaves kind and address where they are.
  signed_fields :
      (sha256 : List ℕ → List ℕ) (password : List ℕ) (e : Endian)
      → (get_or (update_auth sha256 password (made e)) 0 0 ≡ Kind.auth)
        × (ip_at 1 (update_auth sha256 password (made e)) ≡ ip)
  unfolding update_auth new_auth store
  signed_fields sha256 password little = (refl, refl)
  signed_fields sha256 password big = (refl, refl)

length-update_auth :
    (sha256 : List ℕ → List ℕ) (password b : List ℕ)
    → length (update_auth sha256 password b) ≡ length b
unfolding update_auth
length-update_auth sha256 password b = length-put 13 _ b

-- A connection whose message is an AUTH that check accepts is in the map afterwards.
module _ (env : Env) (i : ℕ) (s : Server) (ip : Ip4) where
  abbrev received : List ℕ
  received = (s.ctxs i).buffer

  accepted_auth_logs_in :
      auth_size ≤ length received
      → get_or received 0 0 ≡ Kind.auth
      → ip_at 1 received ≡ ip
      → (check_auth env.sha256 s.password received).0 ≡ true
      → lookup ip (handle_msg env i s).0.ip_ctx_map ≡ some i
  unfolding handle_msg
  accepted_auth_logs_in long kind at ok =
      let checked = check_auth env.sha256 s.password received in
      let at' = ip_at-check_auth env.sha256 s.password received ∙ at in
      let l = log_in-LoggedIn i (ip_at 1 checked.1) (set_buffer i checked.1 s) in
      rw kind (
        ap (λ r. lookup ip r.0.ip_ctx_map) (handle_auth_msg_accepted env i s long ok)
        ∙ ap (lookup ip) l.map_is
        ∙ ap (λ k. lookup ip (assign k i s.ip_ctx_map)) at'
        ∙ lookup-assign_self ip i s.ip_ctx_map)

buffer_is : (i : ℕ) (b : List ℕ) (s : Server) → ((set_buffer i b s).ctxs i).buffer ≡ b
buffer_is i b s = rw ((==_iff i i).1 refl)

pub auth_message_logs_in :
    (env : Env) (i : ℕ) (s : Server) (ip : Ip4) (b : List ℕ)
    → auth_size ≤ length b
    → get_or b 0 0 ≡ Kind.auth
    → ip_at 1 b ≡ ip
    → (check_auth env.sha256 s.password b).0 ≡ true
    → lookup ip (handle_msg env i (set_buffer i b s)).0.ip_ctx_map ≡ some i
auth_message_logs_in env i s ip b long kind at ok =
    let e = sym (buffer_is i b s) in
    accepted_auth_logs_in env i (set_buffer i b s) ip (subst (λ x. auth_size ≤ length x) e long)
      (subst (λ x. get_or x 0 0 ≡ Kind.auth) e kind) (subst (λ x. ip_at 1 x ≡ ip) e at)
      (subst (λ x. (check_auth env.sha256 s.password x).0 ≡ true) e ok)

module _ (env : Env) (i : ℕ) (s : Server) (w : World) (c : WsClient)
    (long : (m : List ℕ) → length (w.sha256 m) ≡ digest_length) (same_hash : env.sha256 ≡ w.sha256)
    (same_password : s.password ≡ c.password) where
  pub auth_frame_logs_in :
      (ip : Ip4)
      → lookup ip (handle_msg env i (set_buffer i (auth_frame w c ip) s)).0.ip_ctx_map ≡ some i
  unfolding auth_frame
  auth_frame_logs_in ip =
      let b = made w.unix_time ip w.endian in
      let fits = length-made w.unix_time ip w.endian in
      let fields = signed_fields w.unix_time ip w.sha256 c.password w.endian in
      auth_message_logs_in env i s ip (auth_frame w c ip)
        (omega (arith, fits, length-update_auth w.sha256 c.password b)) fields.0 fields.1
        (rw (same_hash, same_password)
          (ap (λ r. r.0) (check_auth-IsSound w.sha256 c.password long b fits).update_accepted))

  -- A connected client whose address text is that of an address with the mask of a prefix length
  -- sends an AUTH message, tells the TUN and the peers the address, and pings; the server, with the
  -- same password and hash, enters the message's connection under that address.
  pub login_reaches_server :
      (laws : IpTextLaws w.text) (a : Address) (p : ℕ)
      → IsMask p a.mask
      → c.has_ws ≡ true
      → c.tun_cidr ≡ to_cidr w.text a
      → (send_auth_msg w c
          ≡ some (
              frame (auth_frame w c a.host)
              ∷ (to_tun (tun_addr (to_cidr w.text a))
                  ∷ (to_peers (tun_addr (to_cidr w.text a)) ∷ (ping c.ping_message ∷ [])))))
        × (lookup a.host (handle_msg env i (set_buffer i (auth_frame w c a.host) s)).0.ip_ctx_map
            ≡ some i)
  unfolding send_auth_msg send_if send_ping_message
  login_reaches_server laws a p m on own =
      (rw (own, new_address-to_cidr w.text laws a p m, on), auth_frame_logs_in a.host)
