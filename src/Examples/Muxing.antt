-- ===== src/Examples/Muxing.antt =====
-- netstack/udpmux.cc at concrete inputs.
use candy.Base.{ℕ, ◌≡◌, refl, List, [], ◌∷◌, replicate}
use candy.Netstack.Stun.{request, success_resp, stun_parse, cookie_of, class_of, wire16}
use candy.Netstack.Mux.{UdpMux, injects, send_from_source, demux}
use candy.Netstack.Replies.{response_reaches_requester_once}

abbrev empty_mux : UdpMux
empty_mux = record {
  endpoint_owner = [];
  stun_txn = [];
  owner_endpoints = [];
  drop_collision = 0;
  drop_txid_miss = 0;
  drop_endpoint_miss = 0;
}

-- An endpoint, and an inner source.
abbrev server_ip : ℕ
server_ip = 0x08080808

abbrev server_port : ℕ
server_port = 3478

abbrev phone_source : List ℕ
phone_source = 10 ∷ 0 ∷ 0 ∷ 1 ∷ []

-- A binding request and its response, without attributes.
abbrev asked : List ℕ
asked = 0 ∷ 1 ∷ 0 ∷ 0 ∷ 0x21 ∷ 0x12 ∷ 0xA4 ∷ 0x42 ∷ replicate 12 7

abbrev answer : List ℕ
answer = 1 ∷ 1 ∷ 0 ∷ 0 ∷ 0x21 ∷ 0x12 ∷ 0xA4 ∷ 0x42 ∷ replicate 12 7

response_reaches_requester_once_example :
    let first =
      demux 2 1 1 answer
        (send_from_source 1 phone_source server_ip server_port asked empty_mux).0 in
    (first.1 ≡ injects phone_source 1 1 answer ∷ []) × ((demux 3 1 1 answer first.0).1 ≡ [])
unfolding stun_parse cookie_of class_of wire16
response_reaches_requester_once_example =
    response_reaches_requester_once 1 2 3 server_ip server_port 1 1 phone_source asked answer
      (record { klass = request; txid = replicate 12 7 })
      (record { klass = success_resp; txid = replicate 12 7 }) empty_mux refl refl refl refl refl
