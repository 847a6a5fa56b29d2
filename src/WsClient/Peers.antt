-- ===== src/WsClient/Peers.antt =====
-- What one client tells another about itself, and the routes that the server tells a client.
use candy.Base.{
  ℕ, ◌<◌, ◌≡◌, refl, sym, ap, ap₂, ◌∙◌, Bool, true, false, List, [], ◌∷◌, Option, some, arith,
  if◌then◌else◌,
}
use candy.Net.Order.{Endian, little, big, store, load, hton, ntoh}
use candy.Net.RoundTrip.{hton-ntoh}
use candy.Message.Make.{new_conn, new_conn_local, new_general}
use candy.Core.Message.{PubInfo, pub_info}
use candy.WsClient.State.{World, WsClient, Effect, frame, to_peers}
use candy.WsClient.Send.{send_if}
use candy.WsClient.Handlers.{
  conn_frame, conn_local_frame, conn_info, conn_local_info, handle_pub_info, handle_udp4_conn_msg,
  handle_general_msg, handle_ws_msg,
}

-- The frame of a PubInfo.
abbrev pub info_frame : Endian → PubInfo → List ℕ
info_frame e info = if info.is_local then conn_local_frame e info else conn_frame e info

module _ (w : World) (c : WsClient) (info : PubInfo) (short : info.port < 65536) where
  abbrev read_back : Endian → ℕ
  read_back e = ntoh w.endian 2 (load w.endian (store e 2 (hton e 2 info.port)))

  port_read : (e : Endian) → read_back e ≡ info.port
  port_read e = hton-ntoh e w.endian 2 info.port (omega arith)

  abbrev tells : PubInfo → Option (WsClient × List Effect)
  tells told = some (c, to_peers (pub_info told) ∷ [])

  conn_received :
      (e : Endian)
      → handle_ws_msg w (conn_frame e info) c
        ≡ tells (record info { port = read_back e; is_local = false })
  unfolding handle_ws_msg handle_udp4_conn_msg conn_frame new_conn conn_info store
  conn_received little = refl
  conn_received big = refl

  conn_local_received :
      (e : Endian)
      → handle_ws_msg w (conn_local_frame e info) c
        ≡ tells (record info { port = read_back e; is_local = true })
  unfolding handle_ws_msg handle_general_msg conn_local_frame new_conn_local new_general
      conn_local_info store
  conn_local_received little = refl
  conn_local_received big = refl

  info_received :
      (e : Endian) (near : Bool)
      → info.is_local ≡ near
      → handle_ws_msg w (info_frame e info) c ≡ tells info
  info_received e near is =
      ap (λ b. handle_ws_msg w (if b then conn_local_frame e info else conn_frame e info) c) is
      ∙ by_kind near
      ∙ ap₂ (λ n b. tells (record info { port = n; is_local = b })) (port_read e) (sym is)
    where
      by_kind :
          (b : Bool)
          → handle_ws_msg w (if b then conn_local_frame e info else conn_frame e info) c
            ≡ tells (record info { port = read_back e; is_local = b })
      by_kind true = conn_local_received e
      by_kind false = conn_received e

-- What a connected client sends for its peers' information about a port of 16 bits, is handed on
-- unchanged to the peers of the client that receives it, whatever byte orders the two hosts have.
pub pub_info_arrives :
    (sender receiver : World) (c c' : WsClient) (info : PubInfo)
    → c.has_ws ≡ true
    → info.port < 65536
    → (handle_pub_info sender info c ≡ frame (info_frame sender.endian info) ∷ [])
      × (handle_ws_msg receiver (info_frame sender.endian info) c'
          ≡ some (c', to_peers (pub_info info) ∷ []))
unfolding handle_pub_info send_if
pub_info_arrives sender receiver c c' info on short =
    (rw on, info_received receiver c' info short sender.endian info.is_local refl)
