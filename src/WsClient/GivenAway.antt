-- ===== src/WsClient/GivenAway.antt =====
-- A dynamic address that the server offers although another client uses it.
use candy.Base.{ℕ, ◌≤◌, ◌≡◌, ◌≢◌, refl, ap, ◌∙◌, true, false, List, [], ◌∷◌, ◌++◌, some, length}
use candy.Base.Map.{lookup}
use candy.Net.Ip4.{ip4_eq}
use candy.Net.Address.{Address, next, is_valid}
use candy.Net.Cidr.{to_cidr}
use candy.Net.CidrLaws.{IpTextLaws}
use candy.Net.Prefix.{IsMask}
use candy.Message.Layout.{digest_length, expt_tun_size}
use candy.Server.State.{Env, Server, set_buffer, send_frame, finished}
use candy.Server.Alloc.{direct}
use candy.Server.AllocLaws.{choose_ignores_taken}
use candy.Server.Handlers.{expt_tun_reply, send_expt_tun, offer_chosen, offer}
use candy.Server.Serve.{handle_msg}
use candy.Core.Message.{tun_addr}
use candy.WsClient.State.{World, WsClient, frame, ping, to_tun, to_peers}
use candy.WsClient.Send.{auth_frame}
use candy.WsClient.Handlers.{handle_expt_tun_msg}
use candy.WsClient.Offer.{FitsField, offered_address_is_used}

-- The server behind the offer: its next search starts from the address, and the reply is sent.
abbrev pub offering : ℕ → Address → List ℕ → Server → Server
offering i a r s =
    let t = set_buffer i r (record s { dhcp = a }) in
    record t { sent = t.sent ++ record { receiver = i; payload = r } ∷ [] }

-- The server is asked for another address than one that can be used as it is; the next one is
-- valid, not the one that the search starts from, and another connection's.
pub record IsTakenNext (env : Env) (i j : ℕ) (asked : Address) (s : Server) : Type 0 where
  pub not_direct : direct i asked s ≡ false
  pub valid : is_valid env.endian (next env.endian s.dhcp) ≡ true
  pub other : (next env.endian s.dhcp).host ≢ s.dhcp.host
  pub taken_by : lookup (next env.endian s.dhcp).host s.ip_ctx_map ≡ some j
  pub not_own : j ≢ i
  pub works : s.broken i ≡ false

offered :
    (env : Env) (i j : ℕ) (asked : Address) (s : Server)
    → IsTakenNext env i j asked s
    → let a = next env.endian s.dhcp in
      offer env i asked s
      ≡ (offering i a (expt_tun_reply env s.password a (s.ctxs i).buffer) s, finished)
unfolding offer offer_chosen send_expt_tun send_frame
offered env i j asked s h =
    rw
      (h.not_direct, choose_ignores_taken 2 env.endian s.dhcp s.ip_ctx_map h.valid h.other, h.works)
      refl

-- When the server has to choose an address and the next one is valid and in use by another
-- connection, the request's connection is offered just that address, while it is still entered for
-- the other one; the client that asked takes it and logs in with it, and the server then has the
-- asking connection under the address, and no longer the one that used it.
pub address_in_use_is_given_away :
    (env : Env) (i j : ℕ) (asked : Address) (s : Server) (w : World) (c : WsClient) (p : ℕ)
    → IsTakenNext env i j asked s
    → ((m : List ℕ) → length (w.sha256 m) ≡ digest_length)
    → env.sha256 ≡ w.sha256
    → s.password ≡ c.password
    → env.text ≡ w.text
    → IpTextLaws w.text
    → IsMask p (next env.endian s.dhcp).mask
    → FitsField w.text (next env.endian s.dhcp)
    → expt_tun_size ≤ length (s.ctxs i).buffer
    → c.has_ws ≡ true
    → let a = next env.endian s.dhcp in
      let r = expt_tun_reply env s.password a (s.ctxs i).buffer in
      let t = (offer env i asked s).0 in
      let c' = record c { tun_cidr = to_cidr w.text a } in
      (t.sent ≡ s.sent ++ record { receiver = i; payload = r } ∷ [])
      × (lookup a.host t.ip_ctx_map ≡ some j)
      × (handle_expt_tun_msg w r c
          ≡ some (
            c',
            frame (auth_frame w c' a.host)
                ∷ (to_tun (tun_addr (to_cidr w.text a))
                    ∷ (to_peers (tun_addr (to_cidr w.text a)) ∷ (ping c.ping_message ∷ []))),
          ))
      × (lookup a.host (handle_msg env i (set_buffer i (auth_frame w c' a.host) t)).0.ip_ctx_map
          ≡ some i)
      × (some i ≢ some j)
address_in_use_is_given_away env i j asked s w c p h long same_hash same_password same_text laws m
      fits room on =
    let a = next env.endian s.dhcp in
    let b = (s.ctxs i).buffer in
    let r = expt_tun_reply env s.password a b in
    let is_offered = ap (λ x. x.0) (offered env i j asked s h) in
    let used =
      offered_address_is_used env i (offering i a r s) w c a p b long same_hash same_password
        same_text laws m fits room on in
    let c' = record c { tun_cidr = to_cidr w.text a } in
    (
      ap (λ (t : Server). t.sent) is_offered,
      ap (λ (t : Server). lookup a.host t.ip_ctx_map) is_offered ∙ h.taken_by,
      used.0,
      ap
            (λ t.
              lookup a.host
                (handle_msg env i (set_buffer i (auth_frame w c' a.host) t)).0.ip_ctx_map)
            is_offered
          ∙ used.1,
      λ e. h.not_own cc,
    )
