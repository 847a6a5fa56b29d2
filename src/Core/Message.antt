-- ===== src/Core/Message.antt =====
-- struct Msg, MsgKind and CoreMsg::PubInfo of candy/src/core/message.h. A message's data is the
-- argument of its kind; the bytes of a PubInfo, which are copied into a message and back, are the
-- record.
use candy.Base.{ℕ, Bool, List}
use candy.Net.Ip4.{Ip4}

pub record PubInfo : Type 0 where
  pub src : Ip4
  pub dst : Ip4
  pub ip : Ip4
  pub port : ℕ
  pub is_local : Bool

pub data Msg : Type 0 where
  timeout : Msg
  packet : List ℕ → Msg
  tun_addr : List ℕ → Msg
  sys_rt : List ℕ → Msg
  try_p2p : List ℕ → Msg
  pub_info : PubInfo → Msg
  discovery : Msg
  netstack : List ℕ → Msg
