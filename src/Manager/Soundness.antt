-- ===== src/Manager/Soundness.antt =====
-- Whatever reaches a PeerManager, every peer that it holds stays sound.
use candy.Base.{
  ℕ, ◌≡◌, refl, sym, ◌∙◌, subst, Bool, true, false, List, [], ◌∷◌, Option, none, some, inl, inr,
  arith, Option-cases, if◌then◌else◌,
}
use candy.Base.Map.{lookup, assign, Every, Every-assign, Every-lookup}
use candy.Net.Ip4.{Ip4, ip4_eq}
use candy.Net.Text.{from_string}
use candy.Core.Message.{PubInfo}
use candy.Peer.State.{Peer, Effect, send_to, send_pub_info, stun_needed, drop_route}
use candy.Peer.Calls.{step, tries, pub_info}
use candy.Peer.Invariant.{IsSound}
use candy.Peer.Soundness.{step-IsSound}
use candy.Manager.State.{World, Manager, Result, peer_world, new_peer}
use candy.Manager.Messages.{learn_route}
use candy.Manager.Send.{perform, perform_all}
use candy.Manager.Queue.{of_peer, try_peer, handle_try_p2p, pub_info_of, handle_pub_info}

pub record HasSoundPeers (s : Manager) : Type 0 where
  pub every : Every (λ ip p. IsSound p) s.peers

pub new_peer-IsSound : (w : World) (s : Manager) (ip : Ip4) → IsSound (new_peer w s ip)
unfolding new_peer
new_peer-IsSound w s ip = record {
  bounded = record { retry_low = omega arith; retry_high = omega arith; ack_le = omega arith };
  fits = record { forgotten = λ h. (refl, refl, refl); has_real = λ h. cc; has_wide = λ h. cc };
}

perform-peers : (w : World) (e : Effect) (s : Manager) → (perform w e s).0.peers ≡ s.peers
unfolding perform learn_route
perform-peers w (send_to a b) s = refl
perform-peers w (send_pub_info dst is_local) s = refl
perform-peers w stun_needed s = refl
perform-peers w (drop_route ip) s = refl

pub perform_all-peers :
    (w : World) (es : List Effect) (s : Manager) → (perform_all w es s).0.peers ≡ s.peers
unfolding perform_all
perform_all-peers w [] s = refl
perform_all-peers w (e ∷ es) s = perform_all-peers w es (perform w e s).0 ∙ perform-peers w e s

pub same_peers : (s t : Manager) → t.peers ≡ s.peers → HasSoundPeers s → HasSoundPeers t
same_peers s t e v = record { every = subst (λ m. Every (λ ip p. IsSound p) m) (sym e) v.every }

pub assign_peer :
    (ip : Ip4) (p : Peer) (s : Manager)
    → IsSound p
    → HasSoundPeers s
    → HasSoundPeers (record s { peers = assign ip p s.peers })
assign_peer ip p s sound v = record {
  every = Every-assign (λ k q. IsSound q) ip p s.peers sound v.every;
}

pub held-IsSound :
    (s : Manager) (ip : Ip4) (p : Peer) → HasSoundPeers s → lookup ip s.peers ≡ some p → IsSound p
held-IsSound s ip p v h = (Every-lookup (λ k q. IsSound q) ip s.peers p v.every h).2

pub of_peer-HasSoundPeers :
    (w : World) (ip : Ip4) (r : Peer × List Effect) (s : Manager)
    → IsSound r.0
    → HasSoundPeers s
    → HasSoundPeers (of_peer w ip r s).0
unfolding of_peer
of_peer-HasSoundPeers w ip (p, es) s sound v =
    let s1 = record s { peers = assign ip p s.peers } in
    same_peers s1 (perform_all w es s1).0 (perform_all-peers w es s1) (assign_peer ip p s sound v)

pub sound_result_if :
    (b : Bool) (r q : Result)
    → HasSoundPeers r.0
    → HasSoundPeers q.0
    → HasSoundPeers (if b then r else q).0
sound_result_if true r q h k = h
sound_result_if false r q h k = k

module _ (w : World) (s : Manager) (v : HasSoundPeers s) where
  pub try_peer-HasSoundPeers :
      (ip : Ip4) (o : Option Peer) → lookup ip s.peers ≡ o → HasSoundPeers (try_peer w ip o s)
  unfolding try_peer
  try_peer-HasSoundPeers ip (some p) h =
      assign_peer ip _ s
        (unfold step in
          step-IsSound (peer_world w s) (tries w.p2p_only) p (held-IsSound s ip p v h))
        v
  try_peer-HasSoundPeers ip none h =
      assign_peer ip _ s
        (unfold step in
          step-IsSound (peer_world w s) (tries false) (new_peer w s ip) (new_peer-IsSound w s ip))
        v

  pub handle_try_p2p-HasSoundPeers : (text : List ℕ) → HasSoundPeers (handle_try_p2p w text s)
  unfolding handle_try_p2p
  handle_try_p2p-HasSoundPeers text = elim (Option-cases (from_string w.text text)) [
    | inl e ↦ rw (e, handle_try_p2p) v
    | inr (ip, e) ↦ rw (e, handle_try_p2p) (try_peer-HasSoundPeers ip (lookup ip s.peers) refl)
  ]

  pub_info_of-HasSoundPeers :
      (info : PubInfo) (o : Option Peer)
      → lookup info.src s.peers ≡ o
      → HasSoundPeers (pub_info_of w info o s).0
  unfolding pub_info_of
  pub_info_of-HasSoundPeers info (some p) h =
      of_peer-HasSoundPeers w info.src _ s
        (unfold step in
          step-IsSound (peer_world w s) (pub_info info.ip info.port info.is_local) p
            (held-IsSound s info.src p v h))
        v
  pub_info_of-HasSoundPeers info none h =
      of_peer-HasSoundPeers w info.src _ s
        (unfold step in
          step-IsSound (peer_world w s) (pub_info info.ip info.port info.is_local)
            (new_peer w s info.src) (new_peer-IsSound w s info.src))
        v

  pub handle_pub_info-HasSoundPeers : (info : PubInfo) → HasSoundPeers (handle_pub_info w info s).0
  unfolding handle_pub_info
  handle_pub_info-HasSoundPeers info =
      sound_result_if _ _ _ v (pub_info_of-HasSoundPeers info (lookup info.src s.peers) refl)
