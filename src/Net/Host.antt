-- ===== src/Net/Host.antt =====
-- Address arithmetic: the part of an address that the mask leaves free, as a number.
use candy.Base.{
  ℕ, zero, suc, ◌+◌, ◌-◌, ◌*◌, ◌/◌, ◌%◌, ◌^◌, ◌<◌, ◌≡◌, sym, ap, ap₂, ◌∙◌, subst, bit_and, bit_or,
  arith,
}
use native.Mathlib.Nat.{
  mod-eq_of_lt, zero-mod, mul-mod_left, one-le-pow, mod-lt, div-add-mod', div-lt_iff_lt-mul,
  mod-add-mod,
}
use native.Mathlib.Decide.{dec_lt}
use candy.Base.Bits.{
  bit_and_low_field, bit_and_high_field, bit_or_fields', bit_or_high_field, bit_and-le, bit_or-lt,
  bit_and_comm, zero-bit_or,
}
use candy.Net.Order.{Endian, ntoh, be_bytes}
use candy.Net.Ip4.{Ip4, ip4, raw, of_raw, ip_and, ip_or, ip_not, to_uint32, from_prefix}
use candy.Net.Ip4
use candy.Net.Address.{Address, net, next}
use candy.Net.RoundTrip.{store-hton}
use candy.Net.Value.{IsRaw, value, value-lt, value-ip_and, value-ip_or, value-ip_not, value-next}
use candy.Net.Prefix.{IsMask}

pub ip_and-IsRaw : (a b : Ip4) → IsRaw b → IsRaw (ip_and a b)
unfolding ip_and
ip_and-IsRaw a b h = record {
  byte0 = omega (arith, bit_and-le b.raw0 a.raw0, h.byte0);
  byte1 = omega (arith, bit_and-le b.raw1 a.raw1, h.byte1);
  byte2 = omega (arith, bit_and-le b.raw2 a.raw2, h.byte2);
  byte3 = omega (arith, bit_and-le b.raw3 a.raw3, h.byte3);
}

pub ip_or-IsRaw : (a b : Ip4) → IsRaw a → IsRaw b → IsRaw (ip_or a b)
unfolding ip_or
ip_or-IsRaw a b k h = record {
  byte0 = bit_or-lt 8 b.raw0 a.raw0 h.byte0 k.byte0;
  byte1 = bit_or-lt 8 b.raw1 a.raw1 h.byte1 k.byte1;
  byte2 = bit_or-lt 8 b.raw2 a.raw2 h.byte2 k.byte2;
  byte3 = bit_or-lt 8 b.raw3 a.raw3 h.byte3 k.byte3;
}

pub ip_not-IsRaw : (a : Ip4) → IsRaw (ip_not a)
unfolding ip_not
ip_not-IsRaw a = record {
  byte0 = omega (arith, zero-bit_or (255 - a.raw0));
  byte1 = omega (arith, zero-bit_or (255 - a.raw1));
  byte2 = omega (arith, zero-bit_or (255 - a.raw2));
  byte3 = omega (arith, zero-bit_or (255 - a.raw3));
}

of_raw-IsRaw : (t : ℕ) → IsRaw (of_raw (be_bytes 4 t))
of_raw-IsRaw t = omega arith

pub next-IsRaw : (e : Endian) (a : Ip4) → IsRaw (Ip4.next e a)
next-IsRaw e a =
    unfold Ip4.next in
    subst (λ bs. IsRaw (of_raw bs)) (sym (store-hton e 4 t (omega arith))) (of_raw-IsRaw t)
  where
    t : ℕ
    t = (ntoh e 4 (to_uint32 e a) + 1) % 2 ^ 32

-- An address under the mask with `p` leading ones, so with `32 - p` free bits.
pub record IsCidr (p : ℕ) (a : Address) : Type 0 where
  pub host_bytes : IsRaw a.host
  pub mask_ones : IsMask p a.mask

abbrev pub free_bits : ℕ → ℕ
free_bits p = 2 ^ (32 - p)

-- The free part of an address, and the address of its network.
abbrev pub host_part : ℕ → Ip4 → ℕ
host_part p ip = value ip % free_bits p

abbrev pub net_part : ℕ → Ip4 → ℕ
net_part p ip = value ip / free_bits p * free_bits p

-- Quotient and remainder of a 32-bit number by the free part.
pub record Split (p v : ℕ) : Type 0 where
  pub high : v / free_bits p < 2 ^ p
  pub low : v % free_bits p < free_bits p
  pub sum : v ≡ v / free_bits p * free_bits p + v % free_bits p

pub split : (p v : ℕ) → 2 ^ p * free_bits p ≡ 2 ^ 32 → v < 2 ^ 32 → Split p v
split p v w h = record {
  high = (div-lt_iff_lt-mul (one-le-pow (32 - p) 2 (omega arith))).1 (omega arith);
  low = mod-lt v (one-le-pow (32 - p) 2 (omega arith));
  sum = sym (div-add-mod' v (free_bits p));
}

pub sub_one_mul : (n m : ℕ) → 0 < n → (n - 1) * m + m ≡ n * m
sub_one_mul zero m h = absurd (omega arith)
sub_one_mul (suc n) m h = let e : suc n - 1 ≡ n = omega arith in rw e (omega arith)

-- Counting up modulo 2^32 counts the free part up modulo its size.
mod_succ :
    (n m v : ℕ) → 0 < m → n * m ≡ 2 ^ 32 → v < 2 ^ 32 → (v + 1) % 2 ^ 32 % m ≡ (v % m + 1) % m
mod_succ n m v pm w h = elim (dec_lt (v + 1) (2 ^ 32)) [
  | yes lt ↦ ap (λ t. t % m) (mod-eq_of_lt lt) ∙ sym (mod-add-mod v m 1)
  | no ge ↦
      let top : v + 1 ≡ n * m = omega arith in
      ap (λ t. t % m) (let e : (v + 1) % 2 ^ 32 ≡ 0 = omega arith in e)
      ∙ zero-mod m
      ∙ sym (mul-mod_left n m)
      ∙ ap (λ t. t % m) (sym top)
      ∙ sym (mod-add-mod v m 1)
]

module _ (p : ℕ) (a : Address) (c : IsCidr p a) where
  pub value-Split : (ip : Ip4) → IsRaw ip → Split p (value ip)
  value-Split ip h = split p (value ip) c.mask_ones.whole (value-lt ip h)

  pub value-net : value (net a) ≡ net_part p a.host
  value-net =
      let s = value-Split a.host c.host_bytes in
      unfold net in
      value-ip_and a.host a.mask c.host_bytes c.mask_ones.bytes
      ∙ rw c.mask_ones.ones (
          bit_and_comm ((2 ^ p - 1) * free_bits p) (value a.host)
          ∙ ap (λ v. bit_and v ((2 ^ p - 1) * free_bits p)) s.sum
          ∙ bit_and_high_field p (32 - p) (value a.host / free_bits p) (host_part p a.host) s.high
              s.low)

  pub value-free_mask : value (ip_not a.mask) ≡ free_bits p - 1
  value-free_mask =
      value-ip_not a.mask c.mask_ones.bytes
      ∙ omega (
        arith,
        c.mask_ones.ones,
        c.mask_ones.whole,
        sub_one_mul (2 ^ p) (free_bits p) (one-le-pow p 2 (omega arith)),
      )

  -- ~mask & ip
  pub value-host_bits : (ip : Ip4) → IsRaw ip → value (ip_and (ip_not a.mask) ip) ≡ host_part p ip
  value-host_bits ip h =
      let s = value-Split ip h in
      value-ip_and (ip_not a.mask) ip (ip_not-IsRaw a.mask) h
      ∙ rw value-free_mask (
          ap (λ v. bit_and v (free_bits p - 1)) s.sum
          ∙ bit_and_low_field (32 - p) (value ip / free_bits p) (host_part p ip) s.low)

  -- mask | ip
  pub value-mask_or :
      (ip : Ip4) → IsRaw ip → value (ip_or a.mask ip) ≡ (2 ^ p - 1) * free_bits p + host_part p ip
  value-mask_or ip h =
      let s = value-Split ip h in
      value-ip_or a.mask ip c.mask_ones.bytes h
      ∙ rw c.mask_ones.ones (
          ap (λ v. bit_or v ((2 ^ p - 1) * free_bits p)) s.sum
          ∙ bit_or_high_field p (32 - p) (value ip / free_bits p) (host_part p ip) s.high s.low)

  pub host_part-next :
      (e : Endian) → host_part p (Ip4.next e a.host) ≡ (host_part p a.host + 1) % free_bits p
  host_part-next e =
      ap (λ v. v % free_bits p) (value-next e a.host c.host_bytes)
      ∙ mod_succ (2 ^ p) (free_bits p) (value a.host) (one-le-pow (32 - p) 2 (omega arith))
          c.mask_ones.whole (value-lt a.host c.host_bytes)

  -- Next keeps the network and counts the free part up by one, from all ones back to zero.
  pub value-next_address :
      (e : Endian)
      → value (next e a).host ≡ net_part p a.host + (host_part p a.host + 1) % free_bits p
  value-next_address e =
      let free = ip_and (ip_not a.mask) (Ip4.next e a.host) in
      let free_eq : value free ≡ (host_part p a.host + 1) % free_bits p =
        value-host_bits (Ip4.next e a.host) (next-IsRaw e a.host) ∙ host_part-next e in
      unfold next in
      value-ip_or (net a) free (ip_and-IsRaw a.host a.mask c.mask_ones.bytes)
        (ip_and-IsRaw (ip_not a.mask) (Ip4.next e a.host) (next-IsRaw e a.host))
      ∙ ap₂ bit_or free_eq value-net
      ∙ bit_or_fields' (32 - p) (value a.host / free_bits p)
          ((host_part p a.host + 1) % free_bits p)
          (mod-lt (host_part p a.host + 1) (one-le-pow (32 - p) 2 (omega arith)))

  pub next-IsCidr : (e : Endian) → IsCidr p (next e a)
  next-IsCidr e =
      unfold next in
      record {
        host_bytes =
            ip_or-IsRaw (net a) (ip_and (ip_not a.mask) (Ip4.next e a.host))
              (ip_and-IsRaw a.host a.mask c.mask_ones.bytes)
              (ip_and-IsRaw (ip_not a.mask) (Ip4.next e a.host) (next-IsRaw e a.host));
        mask_ones = c.mask_ones;
      }
