-- ===== src/Examples/Serving.antt =====
-- The server at concrete inputs.
use candy.Base.{ℕ, ◌≡◌, ◌≢◌, inl, refl, List, [], ◌∷◌, some, true, false, Bool, arith, replicate}
use candy.Base.Int.{pos}
use candy.Base.Map.{lookup}
use candy.Net.Order.{Endian}
use candy.Net.Ip4.{Ip4, ip4_eq, ip_empty, any}
use candy.Base.Buffer.{same}
use candy.Message.Hash.{check_auth}
use candy.Server.State.{Server, finished, refuse, fresh_ctx}
use candy.Server.Alloc.{choose, no_fuel}
use candy.Server.AllocLaws.{choose_total}
use candy.Server.Handlers.{handle_auth_msg}
use candy.Server.Serve.{handle_msg, binary, disconnect, serve, connect}
use candy.Server.Logins.{IsConsistent}
use candy.Server.Reach.{Reach, joins, serves, here, Reach-IsConsistent}
use candy.Server.SecondLogin.{second_login_dangles}
use candy.Server.Relay.{conn, sending, relay_refused, relay_delivers}
use candy.Examples.Data.{gateway, laptop, network, network-IsCidr, env}

abbrev pub start : Server
start = record {
  password = [];
  dhcp = network;
  routes = [];
  ip_ctx_map = [];
  ctxs = λ j. fresh_ctx;
  live = λ j. false;
  running = true;
  broken = λ j. false;
  sent = [];
}

start-IsConsistent : IsConsistent start
unfolding lookup
start-IsConsistent = record { owner = λ ip j h. ground arith }

-- AUTH of 192.168.202.7, whose hash is all zeros.
abbrev pub login : List ℕ
login = 192 ∷ 168 ∷ 202 ∷ 7 ∷ replicate 40 0

joined_then_served : Reach start (serve env 0 (binary 0 login) (connect 0 start))
unfolding connect lookup
joined_then_served =
    Reach.next (Reach.next here (joins 0 refl))
      (serves env 0 (binary 0 login) refl (λ c b e k h. ground arith))

Reach-IsConsistent_example : IsConsistent (serve env 0 (binary 0 login) (connect 0 start))
Reach-IsConsistent_example = Reach-IsConsistent start-IsConsistent joined_then_served

-- UDP4CONN from the laptop to the gateway.
abbrev request : List ℕ
request = 3 ∷ 192 ∷ 168 ∷ 202 ∷ 7 ∷ 192 ∷ 168 ∷ 202 ∷ 1 ∷ 1 ∷ 2 ∷ 3 ∷ 4 ∷ 5 ∷ 6 ∷ []

abbrev requesting : Ip4 → List ℕ → (ℕ → Bool) → Server
requesting ip b broken = record start {
  ip_ctx_map = (laptop, 0) ∷ ((gateway, 1) ∷ []);
  ctxs = λ j. record { buffer = b; status = pos 0; ip = ip; vmac = [] };
  live = λ j. true;
  broken = broken;
}

abbrev sound : Server
sound = requesting laptop request (λ j. false)

abbrev stranger : Server
stranger = requesting any request (λ j. false)

relay_refused_example : handle_msg env 0 stranger ≡ (refuse 0 stranger, finished)
unfolding ip_empty
relay_refused_example = relay_refused env 0 stranger 15 1 (conn refl refl refl) (inl refl)

relay_delivers_example : handle_msg env 0 sound ≡ (sending request (1 ∷ []) sound, finished)
unfolding ip_empty lookup
relay_delivers_example =
    relay_delivers env 0 sound 15 1 (conn refl refl refl) refl (omega arith) refl (λ j. refl)

abbrev failing : Server
failing = requesting laptop request (λ j. true)

choose_total_example : choose 3 Endian.little network [] network ≢ no_fuel
choose_total_example = choose_total Endian.little 24 network [] network-IsCidr

-- The laptop's connection logs in again as the gateway.
abbrev twice : Server
twice = requesting laptop (0 ∷ 192 ∷ 168 ∷ 202 ∷ 1 ∷ replicate 40 0) (λ j. false)

second_login_dangles_example :
    let t = disconnect 0 (handle_auth_msg env 0 twice).0 in
    (lookup laptop t.ip_ctx_map ≡ some 0) × (t.live 0 ≡ false)
unfolding lookup check_auth same
second_login_dangles_example =
    second_login_dangles env 0 twice laptop refl (omega arith) refl (λ e. ground arith)
