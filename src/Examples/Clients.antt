-- ===== src/Examples/Clients.antt =====
-- The client's connection to the server at concrete inputs.
use candy.Base.{
  ℕ, ◌≢◌, ◌≡◌, refl, List, [], ◌∷◌, ◌++◌, Option, none, some, true, false, arith, replicate,
}
use candy.Base.Map.{lookup}
use candy.Net.Order.{Endian}
use candy.Net.Ip4.{ip4_eq}
use candy.Net.Address.{Address, unset, next, is_valid}
use candy.Net.Cidr.{to_cidr}
use candy.Server.State.{SysRoute, Server, set_buffer}
use candy.Server.Alloc.{direct}
use candy.Server.Handlers.{expt_tun_reply, offer}
use candy.Server.Serve.{handle_msg}
use candy.Server.Routes.{update_sys_route}
use candy.Core.Message.{PubInfo, packet, discovery, pub_info, tun_addr}
use candy.Core.Queue.{QueueCall, reads, writes, run_calls}
use candy.Core.Fifo.{written, received, queue_is_fifo}
use candy.WsClient.State.{World, WsClient, frame, ping, to_tun, to_peers}
use candy.WsClient.Send.{auth_frame, send_auth_msg}
use candy.WsClient.Handlers.{handle_pub_info, handle_ws_msg, handle_route_msg, handle_expt_tun_msg}
use candy.WsClient.Login.{login_reaches_server}
use candy.WsClient.Peers.{info_frame, pub_info_arrives}
use candy.WsClient.GivenAway.{IsTakenNext, address_in_use_is_given_away}
use candy.WsClient.Offer.{FitsField, offered_address_is_used}
use candy.WsClient.RouteTable.{Teaches, concerned, routes_reach_client}
use candy.WsClient.Overread.{route_message_overread}
use candy.Examples.Data.{
  gateway, laptop, network, mask24, mask24-IsMask, env, text, text-IpTextLaws, zeros,
}
use candy.Examples.Serving.{start}

abbrev calls : List QueueCall
calls = writes (packet []) ∷ (reads ∷ (reads ∷ (writes discovery ∷ [])))

queue_is_fifo_example :
    received (run_calls calls (discovery ∷ [])).0 ++ received (run_calls calls (discovery ∷ [])).1
    ≡ received (discovery ∷ []) ++ received (written calls)
queue_is_fifo_example = queue_is_fifo calls (discovery ∷ [])

abbrev world : Endian → World
world e = record {
  sha256 = zeros;
  text = text;
  endian = e;
  unix_time = 5;
  boot_time = 0;
  p2p_only = false;
}

abbrev client : List ℕ → WsClient
client cidr = record {
  has_ws = true;
  ping_message = 99 ∷ [];
  timestamp = 0;
  server_uri = [];
  expt_tun_cidr = [];
  tun_cidr = cidr;
  vmac = [];
  name = [];
  password = [];
}

abbrev own : Address
own = record { host = laptop; mask = mask24 }

abbrev sender : World
sender = world Endian.little

abbrev configured : WsClient
configured = client (to_cidr text own)

login_reaches_server_example :
    (send_auth_msg sender configured
      ≡ some (
          frame (auth_frame sender configured laptop)
          ∷ (to_tun (tun_addr (to_cidr text own))
              ∷ (to_peers (tun_addr (to_cidr text own)) ∷ (ping (99 ∷ []) ∷ [])))))
    × (lookup laptop
          (handle_msg env 0 (set_buffer 0 (auth_frame sender configured laptop) start)).0.ip_ctx_map
        ≡ some 0)
login_reaches_server_example =
    login_reaches_server env 0 start sender configured (λ m. refl) refl refl text-IpTextLaws own 24
      mask24-IsMask refl refl

abbrev info : PubInfo
info = record { src = laptop; dst = gateway; ip = gateway; port = 4660; is_local = true }

pub_info_arrives_example :
    (handle_pub_info sender info (client []) ≡ frame (info_frame Endian.little info) ∷ [])
    × (handle_ws_msg (world Endian.big) (info_frame Endian.little info) (client [])
        ≡ some (client [], to_peers (pub_info info) ∷ []))
pub_info_arrives_example =
    pub_info_arrives sender (world Endian.big) (client []) (client []) info refl (omega arith)

abbrev route : SysRoute
route = record { dev = network; dst = network; next = gateway }

abbrev routing : Server
routing = record start { routes = route ∷ (route ∷ []) }

routes_reach_client_example :
    Teaches 0 (concerned (routing.ctxs 0).ip routing.routes) [] (update_sys_route 0 routing).0.sent
routes_reach_client_example = routes_reach_client 0 routing refl

own-FitsField : FitsField text own
unfolding to_cidr
own-FitsField = record { no_zero = ground arith; short = omega arith }

abbrev asking : WsClient
asking = client []

abbrev request : List ℕ
request = 2 ∷ replicate 72 0

offered_address_is_used_example :
    (handle_expt_tun_msg sender (expt_tun_reply env [] own request) asking
      ≡ some (
        configured,
        frame (auth_frame sender configured laptop)
            ∷ (to_tun (tun_addr (to_cidr text own))
                ∷ (to_peers (tun_addr (to_cidr text own)) ∷ (ping (99 ∷ []) ∷ []))),
      ))
    × (lookup laptop
          (handle_msg env 0 (set_buffer 0 (auth_frame sender configured laptop) start)).0.ip_ctx_map
        ≡ some 0)
offered_address_is_used_example =
    offered_address_is_used env 0 start sender asking own 24 request (λ m. refl) refl refl refl
      text-IpTextLaws mask24-IsMask own-FitsField (omega arith) refl

-- One entry is counted, and none is there.
route_message_overread_example : handle_route_msg (6 ∷ 1 ∷ 0 ∷ 0 ∷ []) ≡ none
route_message_overread_example =
    route_message_overread (6 ∷ 1 ∷ 0 ∷ 0 ∷ []) (omega arith) (omega arith)

-- The next address after the server's own is that of connection 5.
abbrev second : Address
second = record { host = record { raw0 = 192; raw1 = 168; raw2 = 202; raw3 = 2 }; mask = mask24 }

abbrev crowded : Server
crowded = set_buffer 0 request (record start { ip_ctx_map = (second.host, 5) ∷ [] })

second-IsTakenNext : IsTakenNext env 0 5 unset crowded
unfolding direct is_valid next lookup
second-IsTakenNext = record {
  not_direct = refl;
  valid = refl;
  other = λ e. ground arith;
  taken_by = refl;
  not_own = λ e. omega arith;
  works = refl;
}

second-FitsField : FitsField text second
unfolding to_cidr
second-FitsField = record { no_zero = ground arith; short = omega arith }

address_in_use_is_given_away_example :
    let r = expt_tun_reply env [] second request in
    let t = (offer env 0 unset crowded).0 in
    let c' = record asking { tun_cidr = to_cidr text second } in
    (t.sent ≡ record { receiver = 0; payload = r } ∷ [])
    × (lookup second.host t.ip_ctx_map ≡ some 5)
    × (handle_expt_tun_msg sender r asking
        ≡ some (
          c',
          frame (auth_frame sender c' second.host)
              ∷ (to_tun (tun_addr (to_cidr text second))
                  ∷ (to_peers (tun_addr (to_cidr text second)) ∷ (ping (99 ∷ []) ∷ []))),
        ))
    × (lookup second.host
          (handle_msg env 0 (set_buffer 0 (auth_frame sender c' second.host) t)).0.ip_ctx_map
        ≡ some 0)
    × (◌≢◌ {A = Option ℕ} (some 0) (some 5))
unfolding next
address_in_use_is_given_away_example =
    address_in_use_is_given_away env 0 5 unset crowded sender asking 24 second-IsTakenNext
      (λ m. refl) refl refl refl text-IpTextLaws mask24-IsMask second-FitsField (omega arith) refl
