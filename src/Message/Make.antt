-- ===== src/Message/Make.antt =====
-- The constructors of candy/src/websocket/message.cc. Each writes some fields over the memory that
-- the struct is made in.
use candy.Base.{ℕ, List, [], ◌∷◌, ◌++◌, if◌then◌else◌, ltb, length, take, replicate}
use candy.Base.Buffer.{put}
use candy.Net.Order.{Endian, store, hton}
use candy.Net.Ip4.{Ip4, raw}
use candy.Message.Kind

-- hton(unixTime())
abbrev pub stamp : Endian → ℕ → List ℕ
stamp e now = store e 8 (hton e 8 now)

unfoldable pub new_auth : Endian → ℕ → Ip4 → List ℕ → List ℕ
new_auth e now ip memory = put 5 (stamp e now) (put 1 (raw ip) (put 0 (Kind.auth ∷ []) memory))

unfoldable pub new_forward : List ℕ → List ℕ
new_forward memory = put 0 (Kind.forward ∷ []) memory

-- The text is copied with its closing zero, over a field of 32 zeros.
unfoldable pub new_expt_tun : Endian → ℕ → List ℕ → List ℕ → List ℕ
new_expt_tun e now cidr memory =
    put 9 (cidr ++ 0 ∷ [])
      (put 1 (stamp e now) (put 0 (Kind.expt_tun ∷ []) (put 9 (replicate 32 0) memory)))

unfoldable pub new_conn : List ℕ → List ℕ
new_conn memory = put 0 (Kind.udp4_conn ∷ []) memory

unfoldable pub new_vmac : Endian → ℕ → List ℕ → List ℕ → List ℕ
new_vmac e now vmac memory =
    let bytes = (if ltb (length vmac) 16 then replicate 16 0 else take 16 vmac) in
    put 1 bytes (put 17 (stamp e now) (put 0 (Kind.vmac ∷ []) memory))

unfoldable pub new_discovery : List ℕ → List ℕ
new_discovery memory = put 0 (Kind.discovery ∷ []) memory

unfoldable pub new_general : List ℕ → List ℕ
new_general memory = put 0 (Kind.general ∷ []) memory

unfoldable pub new_conn_local : List ℕ → List ℕ
new_conn_local memory = put 1 (Kind.local_udp4_conn ∷ 0 ∷ 0 ∷ []) (new_general memory)
