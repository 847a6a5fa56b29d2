-- ===== src/WsClient/Send.antt =====
-- What a WebSocketClient sends: sendFrame, sendVirtualMacMsg, sendExptTunMsg, sendAuthMsg,
-- sendDiscoveryMsg, sendPingMessage. A struct is made in zeros here: every byte of one that is
-- sent is written after that.
use candy.Base.{ℕ, List, [], ◌∷◌, ◌++◌, Option, some, if◌then◌else◌, replicate}
use candy.Base.Results.{◌>>=◌}
use candy.Base.Buffer.{put}
use candy.Net.Ip4.{Ip4, raw}
use candy.Net.Address.{Address}
use candy.Net.Cidr.{to_cidr}
use candy.Message.Layout.{auth_size, expt_tun_size, vmac_size, discovery_size}
use candy.Message.Hash.{update_auth, update_expt_tun, update_vmac}
use candy.Message.Make.{new_auth, new_expt_tun, new_vmac, new_discovery}
use candy.Core.Message.{tun_addr}
use candy.WsClient.State.{World, WsClient, Effect, frame, ping, to_tun, to_peers, new_address}

-- sendFrame: nothing without a socket. An exception is only logged.
unfoldable pub send_if : WsClient → Effect → List Effect
send_if c e = if c.has_ws then e ∷ [] else []

unfoldable pub send_ping_message : WsClient → List Effect
send_ping_message c = send_if c (ping c.ping_message)

unfoldable pub vmac_frame : World → WsClient → List ℕ
vmac_frame w c =
    update_vmac w.sha256 c.password (new_vmac w.endian w.unix_time c.vmac (replicate vmac_size 0))

unfoldable pub send_virtual_mac_msg : World → WsClient → List Effect
send_virtual_mac_msg w c = send_if c (frame (vmac_frame w c))

unfoldable pub expt_tun_frame : World → WsClient → Address → List ℕ
expt_tun_frame w c a =
    update_expt_tun w.sha256 c.password
      (new_expt_tun w.endian w.unix_time (to_cidr w.text a) (replicate expt_tun_size 0))

unfoldable pub send_expt_tun_msg : World → WsClient → Option (List Effect)
send_expt_tun_msg w c = do
  a ← new_address w.text c.expt_tun_cidr
  some (send_if c (frame (expt_tun_frame w c a)))

unfoldable pub auth_frame : World → WsClient → Ip4 → List ℕ
auth_frame w c ip =
    update_auth w.sha256 c.password (new_auth w.endian w.unix_time ip (replicate auth_size 0))

unfoldable pub send_auth_msg : World → WsClient → Option (List Effect)
send_auth_msg w c = do
  a ← new_address w.text c.tun_cidr
  some (
      send_if c (frame (auth_frame w c a.host))
      ++ to_tun (tun_addr (to_cidr w.text a))
        ∷ to_peers (tun_addr (to_cidr w.text a))
        ∷ send_ping_message c)

unfoldable pub discovery_frame : Ip4 → Ip4 → List ℕ
discovery_frame src dst =
    put 1 (raw src) (put 5 (raw dst) (new_discovery (replicate discovery_size 0)))

unfoldable pub send_discovery_msg : World → WsClient → Ip4 → Option (List Effect)
send_discovery_msg w c dst = do
  a ← new_address w.text c.tun_cidr
  some (send_if c (frame (discovery_frame a.host dst)))
