-- ===== src/Message/Kind.antt =====
-- WsMsgKind, GeSubType and MsgKind: what the first byte of a message says.
use candy.Base.{ℕ}

abbrev pub auth : ℕ
auth = 0

abbrev pub forward : ℕ
forward = 1

abbrev pub expt_tun : ℕ
expt_tun = 2

abbrev pub udp4_conn : ℕ
udp4_conn = 3

abbrev pub vmac : ℕ
vmac = 4

abbrev pub discovery : ℕ
discovery = 5

abbrev pub route : ℕ
route = 6

abbrev pub general : ℕ
general = 255

-- GeSubType
abbrev pub local_udp4_conn : ℕ
local_udp4_conn = 0
