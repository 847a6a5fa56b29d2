-- ===== src/Net/Order.antt =====
-- byteswap, ntoh and hton of candy/src/core/net.h. An integer of `w` bytes is a number below
-- `256 ^ w`; `load` and `store` read and write it as the host does, in either byte order.
use candy.Base.{
  ℕ, zero, suc, ◌+◌, ◌*◌, ◌/◌, ◌%◌, Bool, List, [], ◌∷◌, reverse, ◌==◌, if◌then◌else◌, get_or,
}

pub data Endian : Type 0 where
  little big : Endian

abbrev pub le_value : List ℕ → ℕ
le_value [] = 0
le_value (b ∷ bs) = b + 256 * le_value bs

abbrev pub le_bytes : ℕ → ℕ → List ℕ
le_bytes zero v = []
le_bytes (suc n) v = v % 256 ∷ le_bytes n (v / 256)

-- The number that bytes in memory stand for, read from the first one: network order.
abbrev pub be_value : List ℕ → ℕ
be_value bs = le_value (reverse bs)

abbrev pub be_bytes : ℕ → ℕ → List ℕ
be_bytes n v = reverse (le_bytes n v)

unfoldable pub load : Endian → List ℕ → ℕ
load Endian.little bs = le_value bs
load Endian.big bs = be_value bs

unfoldable pub store : Endian → ℕ → ℕ → List ℕ
store Endian.little w v = le_bytes w v
store Endian.big w v = be_bytes w v

-- dst.bytes[i] = src.bytes[w - i - 1], with as many rounds left as there are bytes to write.
unfoldable pub swap_bytes : List ℕ → ℕ → List ℕ
swap_bytes src zero = []
swap_bytes src (suc left) = get_or src left 0 ∷ swap_bytes src left

unfoldable pub byteswap : Endian → ℕ → ℕ → ℕ
unfolding load store swap_bytes
byteswap e w v = load e (swap_bytes (store e w v) w)

-- The first byte of the 16-bit number 1.
unfoldable pub is_little_endian : Endian → Bool
unfolding store
is_little_endian e = get_or (store e 2 0x0001) 0 0 == 1

unfoldable pub ntoh : Endian → ℕ → ℕ → ℕ
unfolding byteswap is_little_endian
ntoh e w v = if is_little_endian e then byteswap e w v else v

unfoldable pub hton : Endian → ℕ → ℕ → ℕ
unfolding ntoh
hton e w v = ntoh e w v
