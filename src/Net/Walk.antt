-- ===== src/Net/Walk.antt =====
-- Address::Next and Address::isValid: the walk over the addresses of a network.
use native.Mathlib.Nat.{
  one-le-pow, mod-lt, mod-add-mod, mod-mod, mul-add-mod_self_right, mul-add-div_right, div-eq_of_lt,
}
use candy.Base.{
  ℕ, zero, suc, ◌+◌, ◌-◌, ◌*◌, ◌/◌, ◌%◌, ◌^◌, ◌<◌, ◌≡◌, ◌↔◌, refl, sym, ap, ap₂, ◌∙◌, true, ◌==◌,
  arith,
}
use candy.Net.Order.{Endian, little, big, load}
use candy.Net.Ip4.{Ip4, ip_and, ip_or, ip_not, to_uint32}
use candy.Net.Address.{Address, net, next, is_valid}
use candy.Net.Value.{IsRaw, value, value-injective, value-ip_not}
use candy.Net.Host.{
  IsCidr, free_bits, host_part, net_part, value-Split, sub_one_mul, value-net, value-host_bits,
  value-mask_or, value-next_address, next-IsCidr, ip_or-IsRaw, ip_and-IsRaw,
}

to_uint32-eq-zero : (e : Endian) (ip : Ip4) → (to_uint32 e ip == 0) ≡ (value ip == 0)
unfolding to_uint32 value load
to_uint32-eq-zero little ip = ground arith
to_uint32-eq-zero big ip = ground arith

module _ (e : Endian) (p : ℕ) (a : Address) (c : IsCidr p a) where
  value-broadcast : value (ip_not (ip_or a.mask a.host)) + (host_part p a.host + 1) ≡ free_bits p
  value-broadcast = omega (
    arith,
    value-ip_not (ip_or a.mask a.host) (ip_or-IsRaw a.mask a.host c.mask_ones.bytes c.host_bytes),
    value-mask_or p a c a.host c.host_bytes,
    sub_one_mul (2 ^ p) (free_bits p) (one-le-pow p 2 (omega arith)),
    c.mask_ones.whole,
    (value-Split p a c a.host c.host_bytes).low,
  )

  -- An address is valid exactly when its free part is neither all zeros nor all ones.
  pub is_valid_iff :
      (is_valid e a ≡ true) ↔ ((0 < host_part p a.host) × (host_part p a.host + 1 < free_bits p))
  unfolding is_valid
  is_valid_iff = ground (
    arith,
    to_uint32-eq-zero e (ip_and (ip_not a.mask) a.host),
    to_uint32-eq-zero e (ip_not (ip_or a.mask a.host)),
    value-host_bits p a c a.host c.host_bytes,
    value-broadcast,
  )

  pub host_part-next_address : host_part p (next e a).host ≡ (host_part p a.host + 1) % free_bits p
  host_part-next_address =
      ap (λ v. v % free_bits p) (value-next_address p a c e)
      ∙ mul-add-mod_self_right (value a.host / free_bits p) (free_bits p)
          ((host_part p a.host + 1) % free_bits p)
      ∙ mod-mod (host_part p a.host + 1) (free_bits p)

  pub net-next : net (next e a) ≡ net a
  net-next =
      value-injective (net (next e a)) (net a) (net-IsRaw (next e a) (next-IsCidr p a c e))
        (net-IsRaw a c)
        (value-net p (next e a) (next-IsCidr p a c e) ∙ net_part-next ∙ sym (value-net p a c))
    where
      net-IsRaw : (b : Address) → IsCidr p b → IsRaw (net b)
      net-IsRaw b d = unfold net in ip_and-IsRaw b.host b.mask d.mask_ones.bytes

      above : 0 < free_bits p
      above = one-le-pow (32 - p) 2 (omega arith)

      net_part-next : net_part p (next e a).host ≡ net_part p a.host
      net_part-next =
          ap (λ v. v / free_bits p * free_bits p) (value-next_address p a c e)
          ∙ ap (λ q. q * free_bits p)
              (mul-add-div_right above (value a.host / free_bits p)
                  ((host_part p a.host + 1) % free_bits p)
                ∙ ap (λ t. value a.host / free_bits p + t)
                    (div-eq_of_lt (mod-lt (host_part p a.host + 1) above))
                ∙ omega arith)

abbrev pub steps : Endian → ℕ → Address → Address
steps e zero a = a
steps e (suc n) a = steps e n (next e a)

-- After any number of calls of Next, from an address whose mask has `p` leading ones: the mask and
-- the network are the same, and the free part has been counted up by that number, modulo its size.
-- So Next walks through the whole network before it comes back, on either kind of host.
pub steps_walk :
    (e : Endian) (p n : ℕ) (a : Address)
    → IsCidr p a
    → IsCidr p (steps e n a)
      × (net (steps e n a) ≡ net a)
      × (host_part p (steps e n a).host ≡ (host_part p a.host + n) % free_bits p)
steps_walk e p zero a c =
    (c, refl, sym (mod-mod (value a.host) (free_bits p)) ∙ ap (λ t. t % free_bits p) (omega arith))
steps_walk e p (suc n) a c =
    let ih = steps_walk e p n (next e a) (next-IsCidr p a c e) in
    (
      ih.0,
      ih.1 ∙ net-next e p a c,
      ih.2
          ∙ ap (λ t. (t + n) % free_bits p) (host_part-next_address e p a c)
          ∙ mod-add-mod (host_part p a.host + 1) (free_bits p) n
          ∙ ap (λ t. t % free_bits p) (omega arith),
    )

-- In one network the free part decides the address.
pub host_ext :
    (p : ℕ) (a b : Address)
    → IsCidr p a
    → IsCidr p b
    → net a ≡ net b
    → host_part p a.host ≡ host_part p b.host
    → a.host ≡ b.host
host_ext p a b c d n h = value-injective a.host b.host c.host_bytes d.host_bytes (
    (value-Split p a c a.host c.host_bytes).sum
    ∙ ap₂ ◌+◌ (sym (value-net p a c) ∙ ap value n ∙ value-net p b d) h
    ∙ sym (value-Split p b d b.host d.host_bytes).sum)
