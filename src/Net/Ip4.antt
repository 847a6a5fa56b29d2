-- ===== src/Net/Ip4.antt =====
-- class IP4 and struct IP4Header of candy/src/core/net.h. The bytes stand in network order.
use candy.Base.{
  ℕ, zero, suc, ◌+◌, ◌-◌, ◌/◌, ◌%◌, ◌^◌, ◌≡◌, ◌↔◌, bit_and, bit_or, bit_xor, Bool, true, ◌&&◌, List,
  [], ◌∷◌, Option, none, some, ◌==◌, if◌then◌else◌, get_or, arith, Eq,
}
use candy.Base.Int.{ℤ, pos, negsuc}
use candy.Net.Order.{Endian, load, store, ntoh, hton}

pub record Ip4 : Type 0 where
  pub raw0 : ℕ
  pub raw1 : ℕ
  pub raw2 : ℕ
  pub raw3 : ℕ

abbrev pub ip4 : ℕ → ℕ → ℕ → ℕ → Ip4
ip4 a b c d = record { raw0 = a; raw1 = b; raw2 = c; raw3 = d }

abbrev pub raw : Ip4 → List ℕ
raw ip = ip.raw0 ∷ ip.raw1 ∷ ip.raw2 ∷ ip.raw3 ∷ []

-- memcpy of four bytes into an address; a missing byte does not occur.
abbrev pub of_raw : List ℕ → Ip4
of_raw bs = ip4 (get_or bs 0 0) (get_or bs 1 0) (get_or bs 2 0) (get_or bs 3 0)

-- IP4(): the string "0.0.0.0".
abbrev pub any : Ip4
any = ip4 0 0 0 0

-- operator&, |, ^ change a copy of the right operand.
unfoldable pub ip_and : Ip4 → Ip4 → Ip4
ip_and a b =
    ip4 (bit_and b.raw0 a.raw0) (bit_and b.raw1 a.raw1) (bit_and b.raw2 a.raw2)
      (bit_and b.raw3 a.raw3)

unfoldable pub ip_or : Ip4 → Ip4 → Ip4
ip_or a b =
    ip4 (bit_or b.raw0 a.raw0) (bit_or b.raw1 a.raw1) (bit_or b.raw2 a.raw2) (bit_or b.raw3 a.raw3)

unfoldable pub ip_xor : Ip4 → Ip4 → Ip4
ip_xor a b =
    ip4 (bit_xor b.raw0 a.raw0) (bit_xor b.raw1 a.raw1) (bit_xor b.raw2 a.raw2)
      (bit_xor b.raw3 a.raw3)

-- operator~: `|=` of the complement into a zero address, cut to a byte.
unfoldable pub ip_not : Ip4 → Ip4
ip_not a =
    ip4 (bit_or 0 (255 - a.raw0)) (bit_or 0 (255 - a.raw1)) (bit_or 0 (255 - a.raw2))
      (bit_or 0 (255 - a.raw3))

abbrev pub ip_eq : Ip4 → Ip4 → Bool
ip_eq a b = a.raw0 == b.raw0 && a.raw1 == b.raw1 && a.raw2 == b.raw2 && a.raw3 == b.raw3

pub ip_eq_iff : (a b : Ip4) → (ip_eq a b ≡ true) ↔ (a ≡ b)
ip_eq_iff a b = ground arith

instance abbrev pub ip4_eq : Eq Ip4
ip4_eq = record { beq = ip_eq; beq_iff = ip_eq_iff }

-- operator uint32_t: the bytes, as the host reads them.
unfoldable pub to_uint32 : Endian → Ip4 → ℕ
unfolding load
to_uint32 e ip = load e (raw ip)

unfoldable pub next : Endian → Ip4 → Ip4
unfolding store hton ntoh to_uint32
next e ip = let t = hton e 4 ((ntoh e 4 (to_uint32 e ip) + 1) % 2 ^ 32) in of_raw (store e 4 t)

unfoldable pub ip_empty : Ip4 → Bool
ip_empty ip = ip.raw0 == 0 && ip.raw1 == 0 && ip.raw2 == 0 && ip.raw3 == 0

-- raw[i] |= m; `none` is the access past the array.
abbrev pub or_byte : ℕ → ℕ → Ip4 → Option Ip4
or_byte zero m ip = some (record ip { raw0 = bit_or ip.raw0 m })
or_byte (suc zero) m ip = some (record ip { raw1 = bit_or ip.raw1 m })
or_byte (suc (suc zero)) m ip = some (record ip { raw2 = bit_or ip.raw2 m })
or_byte (suc (suc (suc zero))) m ip = some (record ip { raw3 = bit_or ip.raw3 m })
or_byte (suc (suc (suc (suc i)))) m ip = none

-- The loop of fromPrefix from `i` on, with the rounds that are left.
unfoldable pub set_prefix : ℕ → ℕ → Ip4 → Option Ip4
set_prefix zero i ip = some ip
set_prefix (suc left) i ip = elim (or_byte (i / 8) (0x80 / 2 ^ (i % 8)) ip) [
  | none ↦ none
  | some ip' ↦ set_prefix left (i + 1) ip'
]

unfoldable pub from_prefix : ℤ → Option Ip4
unfolding set_prefix
from_prefix (pos prefix) = set_prefix prefix 0 any
from_prefix (negsuc n) = some any

-- The loop of toPrefix from `i` on, with the rounds that are left.
unfoldable pub count_prefix : ℕ → ℕ → Ip4 → ℕ
count_prefix zero i ip = i
count_prefix (suc left) i ip =
    let rest = count_prefix left (i + 1) ip in
    if bit_and (get_or (raw ip) (i / 8) 0) (0x80 / 2 ^ (i % 8)) == 0 then i else rest

unfoldable pub to_prefix : Ip4 → ℕ
unfolding count_prefix
to_prefix ip = count_prefix 32 0 ip
