-- ===== src/Net/Value.antt =====
-- The operations of IP4 on the 32-bit numbers that addresses stand for.
use candy.Base.{ℕ, ◌+◌, ◌-◌, ◌*◌, ◌%◌, ◌^◌, ◌<◌, ◌≡◌, sym, ap, ◌∙◌, bit_and, bit_or, arith}
use candy.Base.Bits.{bit_and_split, bit_or_split, zero-bit_or}
use candy.Net.Order.{Endian, store, ntoh, hton, be_value, be_bytes}
use candy.Net.Ip4.{Ip4, raw, of_raw, ip_and, ip_or, ip_not, to_uint32, next}
use candy.Net.RoundTrip.{ntoh-load, store-hton}

pub record IsRaw (ip : Ip4) : Type 0 where
  pub byte0 : ip.raw0 < 256
  pub byte1 : ip.raw1 < 256
  pub byte2 : ip.raw2 < 256
  pub byte3 : ip.raw3 < 256

unfoldable pub value : Ip4 → ℕ
value ip = ((ip.raw0 * 256 + ip.raw1) * 256 + ip.raw2) * 256 + ip.raw3

pub value-lt : (a : Ip4) → IsRaw a → value a < 2 ^ 32
unfolding value
value-lt a h = omega arith

pub value-injective : (a b : Ip4) → IsRaw a → IsRaw b → value a ≡ value b → a ≡ b
unfolding value
value-injective a b h k e = ground arith

split4 :
    (a b c d a' b' c' d' : ℕ)
    → b < 256
    → c < 256
    → d < 256
    → b' < 256
    → c' < 256
    → d' < 256
    → bit_and (((a * 256 + b) * 256 + c) * 256 + d) (((a' * 256 + b') * 256 + c') * 256 + d')
      ≡ ((bit_and a a' * 256 + bit_and b b') * 256 + bit_and c c') * 256 + bit_and d d'
split4 a b c d a' b' c' d' hb hc hd hb' hc' hd' =
    bit_and_split ((a * 256 + b) * 256 + c) ((a' * 256 + b') * 256 + c') 8 d d' hd hd'
    ∙ ap (λ t. t * 256 + bit_and d d')
        (bit_and_split (a * 256 + b) (a' * 256 + b') 8 c c' hc hc'
          ∙ ap (λ t. t * 256 + bit_and c c') (bit_and_split a a' 8 b b' hb hb'))

or_split4 :
    (a b c d a' b' c' d' : ℕ)
    → b < 256
    → c < 256
    → d < 256
    → b' < 256
    → c' < 256
    → d' < 256
    → bit_or (((a * 256 + b) * 256 + c) * 256 + d) (((a' * 256 + b') * 256 + c') * 256 + d')
      ≡ ((bit_or a a' * 256 + bit_or b b') * 256 + bit_or c c') * 256 + bit_or d d'
or_split4 a b c d a' b' c' d' hb hc hd hb' hc' hd' =
    bit_or_split ((a * 256 + b) * 256 + c) ((a' * 256 + b') * 256 + c') 8 d d' hd hd'
    ∙ ap (λ t. t * 256 + bit_or d d')
        (bit_or_split (a * 256 + b) (a' * 256 + b') 8 c c' hc hc'
          ∙ ap (λ t. t * 256 + bit_or c c') (bit_or_split a a' 8 b b' hb hb'))

pub value-ip_and :
    (a b : Ip4) → IsRaw a → IsRaw b → value (ip_and a b) ≡ bit_and (value b) (value a)
unfolding value ip_and
value-ip_and a b h k = sym (
    split4 b.raw0 b.raw1 b.raw2 b.raw3 a.raw0 a.raw1 a.raw2 a.raw3 k.byte1 k.byte2 k.byte3 h.byte1
      h.byte2 h.byte3)

pub value-ip_or : (a b : Ip4) → IsRaw a → IsRaw b → value (ip_or a b) ≡ bit_or (value b) (value a)
unfolding value ip_or
value-ip_or a b h k = sym (
    or_split4 b.raw0 b.raw1 b.raw2 b.raw3 a.raw0 a.raw1 a.raw2 a.raw3 k.byte1 k.byte2 k.byte3
      h.byte1 h.byte2 h.byte3)

pub value-ip_not : (a : Ip4) → IsRaw a → value (ip_not a) ≡ 2 ^ 32 - 1 - value a
unfolding value ip_not
value-ip_not a h = omega (
  arith,
  zero-bit_or (255 - a.raw0),
  zero-bit_or (255 - a.raw1),
  zero-bit_or (255 - a.raw2),
  zero-bit_or (255 - a.raw3),
)

be_value-raw : (a : Ip4) → be_value (raw a) ≡ value a
unfolding value
be_value-raw a = omega arith

of_raw-be_bytes : (t : ℕ) → t < 2 ^ 32 → value (of_raw (be_bytes 4 t)) ≡ t
unfolding value
of_raw-be_bytes t h = omega arith

pub ntoh-to_uint32 : (e : Endian) (a : Ip4) → IsRaw a → ntoh e 4 (to_uint32 e a) ≡ value a
unfolding to_uint32
ntoh-to_uint32 e a h = ntoh-load e (raw a) (omega arith) ∙ be_value-raw a

-- The successor of an address, modulo 2^32 and on either kind of host.
pub value-next : (e : Endian) (a : Ip4) → IsRaw a → value (next e a) ≡ (value a + 1) % 2 ^ 32
value-next e a h =
    unfold next in
    ap (λ t. value (of_raw (store e 4 (hton e 4 ((t + 1) % 2 ^ 32))))) (ntoh-to_uint32 e a h)
    ∙ ap (λ bs. value (of_raw bs)) (store-hton e 4 ((value a + 1) % 2 ^ 32) (omega arith))
    ∙ of_raw-be_bytes ((value a + 1) % 2 ^ 32) (omega arith)
