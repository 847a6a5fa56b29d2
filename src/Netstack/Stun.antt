-- ===== src/Netstack/Stun.antt =====
-- candy/src/netstack/stun.h: what is a STUN message, its class and its transaction.
use candy.Base.{
  ℕ, ◌+◌, ◌*◌, ◌/◌, ◌^◌, bit_and, bit_or, not, List, Option, none, some, if◌then◌else◌, ◌==◌, ltb,
  length, get_or,
}
use candy.Base.Buffer.{slice}

pub data StunClass : Type 0 where
  request indication success_resp error_resp : StunClass

pub record StunInfo : Type 0 where
  pub klass : StunClass
  pub txid : List ℕ

abbrev pub byte_at : List ℕ → ℕ → ℕ
byte_at b i = get_or b i 0

-- Two bytes as the number that they stand for on the wire.
unfoldable pub wire16 : ℕ → ℕ → ℕ
wire16 hi lo = bit_or (hi * 2 ^ 8) lo

unfoldable pub cookie_of : List ℕ → ℕ
cookie_of b =
    bit_or (bit_or (bit_or (byte_at b 4 * 2 ^ 24) (byte_at b 5 * 2 ^ 16)) (byte_at b 6 * 2 ^ 8))
      (byte_at b 7)

-- The class by the higher and the lower of its two bits.
abbrev class_with : ℕ → ℕ → StunClass
class_with hi lo =
    if hi == 0
    then (if lo == 0 then request else indication)
    else if lo == 0
    then success_resp
    else error_resp

unfoldable pub class_of : ℕ → StunClass
class_of type = class_with (bit_and (type / 2 ^ 8) 1) (bit_and (type / 2 ^ 4) 1)

unfoldable pub stun_parse : List ℕ → Option StunInfo
stun_parse b =
    let msg_len = wire16 (byte_at b 2) (byte_at b 3) in
    if ltb (length b) 20
    then none
    else if not (bit_and (byte_at b 0) 0xC0 == 0)
    then none
    else if not (cookie_of b == 0x2112A442)
    then none
    else if not (bit_and msg_len 3 == 0)
    then none
    else if not (msg_len + 20 == length b)
    then none
    else some
        (record { klass = class_of (wire16 (byte_at b 0) (byte_at b 1)); txid = slice 8 12 b })
