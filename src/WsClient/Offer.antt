-- ===== src/WsClient/Offer.antt =====
-- The dynamic address that the server offers: the client takes it and logs in with it.
use candy.Base.{
  ℕ, zero, suc, ◌+◌, ◌≤◌, ◌<◌, ◌≡◌, refl, sym, ap, ◌∙◌, subst, true, false, List, [], ◌∷◌, ◌++◌,
  some, arith, length, drop, ltb, length-drop,
}
use candy.Base.Buffer.{length-put, put, slice, overlay}
use candy.Base.Chars.{Lacks}
use candy.Base.Map.{lookup}
use candy.Net.Order.{store, hton}
use candy.Net.Ip4.{ip4_eq}
use candy.Net.Address.{Address}
use candy.Net.Cidr.{IpText, to_cidr}
use candy.Net.CidrLaws.{IpTextLaws}
use candy.Net.Prefix.{IsMask}
use candy.Message.Layout.{digest_length, expt_tun_size}
use candy.Message.Hash.{update_expt_tun}
use candy.Server.State.{Env, Server, set_buffer}
use candy.Server.Handlers.{c_string, expt_tun_reply}
use candy.Server.Serve.{handle_msg}
use candy.Core.Message.{tun_addr}
use candy.WsClient.State.{World, WsClient, frame, ping, to_tun, to_peers}
use candy.WsClient.Send.{auth_frame}
use candy.WsClient.Handlers.{handle_expt_tun_msg}
use candy.WsClient.Login.{new_address-to_cidr, login_reaches_server}

-- The text with its closing zero, in a field of `k` bytes behind which more is written.
c_string-field :
    (s m v : List ℕ) (k : ℕ)
    → Lacks 0 s
    → length s < k
    → k ≤ length m
    → c_string (put k v (overlay (s ++ 0 ∷ []) m)) ≡ s
unfolding c_string
c_string-field [] m v zero lacks short fits = absurd (omega arith)
c_string-field [] [] v (suc k) lacks short fits = absurd (omega arith)
c_string-field [] (x ∷ m) v (suc k) lacks short fits = refl
c_string-field (a ∷ s) m v zero lacks short fits = absurd (omega arith)
c_string-field (a ∷ s) [] v (suc k) lacks short fits = absurd (omega arith)
c_string-field (a ∷ s) (x ∷ m) v (suc k) lacks short fits =
    ground (arith, lacks.0, c_string-field s m v k lacks.1 (omega arith) (omega arith))

overlay-nil : (v : List ℕ) → overlay v [] ≡ []
overlay-nil [] = refl
overlay-nil (x ∷ v) = refl

drop-put_before : (i j k : ℕ) (v b : List ℕ) → j ≡ i + k → drop i (put j v b) ≡ put k v (drop i b)
drop-put_before zero j k v b e = ap (λ n. put n v b) (omega arith)
drop-put_before (suc i) zero k v b e = absurd (omega arith)
drop-put_before (suc i) (suc j) zero v [] e = sym (overlay-nil v)
drop-put_before (suc i) (suc j) (suc k) v [] e = refl
drop-put_before (suc i) (suc j) k v (x ∷ b) e = drop-put_before i j k v b (omega arith)

drop-put_at : (i : ℕ) (v b : List ℕ) → drop i (put i v b) ≡ overlay v (drop i b)
drop-put_at zero v b = refl
drop-put_at (suc i) v [] = sym (overlay-nil v)
drop-put_at (suc i) v (x ∷ b) = drop-put_at i v b

module _ (env : Env) (password : List ℕ) (a : Address) (b : List ℕ) where
  reply_text :
      Lacks 0 (to_cidr env.text a)
      → length (to_cidr env.text a) < 32
      → expt_tun_size ≤ length b
      → c_string (drop 9 (expt_tun_reply env password a b)) ≡ to_cidr env.text a
  unfolding expt_tun_reply update_expt_tun
  reply_text lacks short long =
      let s = to_cidr env.text a ++ 0 ∷ [] in
      let stamped = put 1 (store env.endian 8 (hton env.endian 8 env.now)) b in
      let room : 32 ≤ length (drop 9 stamped) = omega (
        arith,
        length-drop 9 stamped,
        length-put 1 (store env.endian 8 (hton env.endian 8 env.now)) b,
      ) in
      ap c_string (
        drop-put_before 9 41 32 (env.sha256 (password ++ slice 1 8 (put 9 s stamped)))
          (put 9 s stamped) refl
        ∙ ap (put 32 _) (drop-put_at 9 s stamped))
      ∙ c_string-field (to_cidr env.text a) (drop 9 stamped) _ 32 lacks short room

  length-reply : length (expt_tun_reply env password a b) ≡ length b
  unfolding expt_tun_reply update_expt_tun
  length-reply = length-put 41 _ _ ∙ length-put 9 _ _ ∙ length-put 1 _ _

-- What a text form of addresses adds for the field of 32 bytes.
pub record FitsField (t : IpText) (a : Address) : Type 0 where
  pub no_zero : Lacks 0 (to_cidr t a)
  pub short : length (to_cidr t a) < 32

-- The server's answer `expt_tun_reply` to a request with room for the struct, when it offers an
-- address whose text fits the field: a connected client takes the address, with the text of it, and
-- sends its login with it; the server then has the connection under that address.
pub offered_address_is_used :
    (env : Env) (i : ℕ) (s : Server) (w : World) (c : WsClient) (a : Address) (p : ℕ) (b : List ℕ)
    → ((m : List ℕ) → length (w.sha256 m) ≡ digest_length)
    → env.sha256 ≡ w.sha256
    → s.password ≡ c.password
    → (same_text : env.text ≡ w.text) → IpTextLaws w.text
    → IsMask p a.mask
    → FitsField w.text a
    → expt_tun_size ≤ length b
    → c.has_ws ≡ true
    → let c' = record c { tun_cidr = to_cidr w.text a } in
      (handle_expt_tun_msg w (expt_tun_reply env s.password a b) c
        ≡ some (
          c',
          frame (auth_frame w c' a.host)
              ∷ (to_tun (tun_addr (to_cidr w.text a))
                  ∷ (to_peers (tun_addr (to_cidr w.text a)) ∷ (ping c.ping_message ∷ []))),
        ))
      × (lookup a.host (handle_msg env i (set_buffer i (auth_frame w c' a.host) s)).0.ip_ctx_map
          ≡ some i)
unfolding handle_expt_tun_msg
offered_address_is_used env i s w c a p b long same_hash same_password same_text laws m fits room
      on =
    let c' = record c { tun_cidr = to_cidr w.text a } in
    let login = login_reaches_server env i s w c' long same_hash same_password laws a p m on refl in
    let reply = expt_tun_reply env s.password a b in
    let whole : ltb (length reply) expt_tun_size ≡ false =
      ground (arith, length-reply env s.password a b) in
    let text : c_string (drop 9 reply) ≡ to_cidr w.text a =
      reply_text env s.password a b
        (subst (λ t. Lacks 0 (to_cidr t a)) (sym same_text) fits.no_zero)
        (subst (λ t. length (to_cidr t a) < 32) (sym same_text) fits.short) room
      ∙ ap (λ t. to_cidr t a) same_text in
    (rw (whole, text, new_address-to_cidr w.text laws a p m, login.0), login.1)
