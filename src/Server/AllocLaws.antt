-- ===== src/Server/AllocLaws.antt =====
-- The search for a dynamic address: it ends, and what it does and does not look at.
use native.Mathlib.Nat.{mod_self, mod-eq_of_lt}
use native.Mathlib.Decide.{dec_lt}
use candy.Base.{
  ℕ, zero, suc, ◌+◌, ◌%◌, ◌<◌, ◌≡◌, ◌≢◌, ◌⊎◌, inl, inr, refl, sym, ap, ◌∙◌, true, false, not, ◌&&◌,
  arith, Bool-cases,
}
use candy.Base.Map.{Map}
use candy.Net.Order.{Endian}
use candy.Net.Ip4.{Ip4, ip_eq, ip_eq_iff}
use candy.Net.Address.{Address, net, next, is_valid}
use candy.Net.Host.{IsCidr, free_bits, host_part, value-Split, next-IsCidr}
use candy.Net.Walk.{is_valid_iff, host_part-next_address, net-next, host_ext}
use candy.Server.Alloc.{found, exhausted, no_fuel, choose, taken}

succ_mod :
    (m h : ℕ) → h < m → (((h + 1) % m ≡ h + 1) × (h + 1 < m)) ⊎ (((h + 1) % m ≡ 0) × (h + 1 ≡ m))
succ_mod m h lt = elim (dec_lt (h + 1) m) [
  | yes below ↦ inl (mod-eq_of_lt below, below)
  | no above ↦ let e : h + 1 ≡ m = omega arith in inr (ap (λ t. t % m) e ∙ mod_self m, e)
]

-- A value at an end of the range, and not the starting point.
abbrev IsEnd : ℕ → ℕ → ℕ → Type 0
IsEnd m h x = (x ≢ h) × ((x ≡ 0) ⊎ (x + 1 ≡ m))

-- Three values in a row, modulo `m`, are not all such ends.
three_in_a_row :
    (m h x y z : ℕ)
    → h < m
    → x ≡ (h + 1) % m
    → y ≡ (x + 1) % m
    → z ≡ (y + 1) % m
    → IsEnd m h x
    → IsEnd m h y
    → IsEnd m h z
    → ⊥
three_in_a_row m h x y z lt ex ey ez kx ky kz =
    let px : x < m = omega (arith, succ_mod m h lt) in
    let py : y < m = omega (arith, succ_mod m x px) in
    omega (arith, succ_mod m h lt, succ_mod m x px, succ_mod m y py)

-- A number below `m` that is not strictly inside is an end.
end_of_range : (m x : ℕ) → x < m → ¬ ((0 < x) × (x + 1 < m)) → (x ≡ 0) ⊎ (x + 1 ≡ m)
end_of_range m zero lt h = inl refl
end_of_range m (suc x) lt h = elim (dec_lt (suc x + 1) m) [
  | yes inside ↦ absurd (h (omega arith, inside))
  | no top ↦ inr (omega arith)
]

abbrev EndOf : ℕ → Address → Address → Type 0
EndOf p dhcp a = IsEnd (free_bits p) (host_part p dhcp.host) (host_part p a.host)

module _ (e : Endian) (p : ℕ) (dhcp : Address) (m : Map Ip4 ℕ) where
  choose_exhausted :
      (fuel : ℕ) (a : Address)
      → ip_eq (next e a).host dhcp.host ≡ true
      → choose (suc fuel) e dhcp m a ≡ exhausted
  unfolding choose
  choose_exhausted fuel a same = ground arith

  choose-found :
      (fuel : ℕ) (a : Address)
      → ip_eq (next e a).host dhcp.host ≡ false
      → not (is_valid e (next e a)) && taken (next e a).host m ≡ false
      → choose (suc fuel) e dhcp m a ≡ found (next e a)
  unfolding choose
  choose-found fuel a other stop = ground arith

  choose_more :
      (fuel : ℕ) (a : Address)
      → ip_eq (next e a).host dhcp.host ≡ false
      → not (is_valid e (next e a)) && taken (next e a).host m ≡ true
      → choose (suc fuel) e dhcp m a ≡ choose fuel e dhcp m (next e a)
  unfolding choose
  choose_more fuel a other stop = ground arith

  -- The next address is an end of the network, other than the starting point.
  next-IsEnd :
      (a : Address)
      → IsCidr p dhcp
      → IsCidr p a
      → net a ≡ net dhcp
      → ip_eq (next e a).host dhcp.host ≡ false
      → not (is_valid e (next e a)) && taken (next e a).host m ≡ true
      → IsEnd (free_bits p) (host_part p dhcp.host) (host_part p (next e a).host)
  next-IsEnd a d c n other more =
      let c' = next-IsCidr p a c e in
      (
        (λ h. cc (
            (ip_eq_iff (next e a).host dhcp.host).1
              (host_ext p (next e a) dhcp c' d (net-next e p a c ∙ n) h))),
        end_of_range (free_bits p) (host_part p (next e a).host)
            (value-Split p (next e a) c' (next e a).host c'.host_bytes).low
            (λ inside. ground (arith, (is_valid_iff e p (next e a) c').1 inside)),
      )

  -- One round: the search ends, or it goes on from an end of the network.
  choose_round :
      (fuel : ℕ) (a : Address)
      → IsCidr p dhcp
      → IsCidr p a
      → net a ≡ net dhcp
      → (choose (suc fuel) e dhcp m a ≢ no_fuel)
        ⊎ ((choose (suc fuel) e dhcp m a ≡ choose fuel e dhcp m (next e a))
            × IsEnd (free_bits p) (host_part p dhcp.host) (host_part p (next e a).host))
  choose_round fuel a d c n = elim (Bool-cases (ip_eq (next e a).host dhcp.host)) [
    | inl same ↦ inl (λ h. cc (choose_exhausted fuel a same))
    | inr other ↦ elim (Bool-cases (not (is_valid e (next e a)) && taken (next e a).host m)) [
      | inl more ↦ inr (choose_more fuel a other more, next-IsEnd a d c n other more)
      | inr stop ↦ inl (λ h. cc (choose-found fuel a other stop))
    ]
  ]

  -- The search of the server ends within three rounds, for every network with a prefix mask and
  -- every set of addresses in use: it finds an address or reports that there is none.
  pub choose_total : IsCidr p dhcp → choose 3 e dhcp m dhcp ≢ no_fuel
  choose_total d h0 = elim (choose_round 2 dhcp d d refl) [
    | inl ends ↦ ends h0
    | inr (e1, k1) ↦ second e1 k1
  ]
    where
      a1 : Address
      a1 = next e dhcp

      a2 : Address
      a2 = next e a1

      c1 : IsCidr p a1
      c1 = next-IsCidr p dhcp d e

      c2 : IsCidr p a2
      c2 = next-IsCidr p a1 c1 e

      n1 : net a1 ≡ net dhcp
      n1 = net-next e p dhcp d

      third : choose 1 e dhcp m a2 ≡ no_fuel → EndOf p dhcp a1 → EndOf p dhcp a2 → ⊥
      third h k1 k2 = elim (choose_round 0 a2 d c2 (net-next e p a1 c1 ∙ n1)) [
        | inl ends ↦ ends h
        | inr (e3, k3) ↦
            three_in_a_row (free_bits p) (host_part p dhcp.host) (host_part p a1.host)
              (host_part p a2.host) (host_part p (next e a2).host)
              (value-Split p dhcp d dhcp.host d.host_bytes).low (host_part-next_address e p dhcp d)
              (host_part-next_address e p a1 c1) (host_part-next_address e p a2 c2) k1 k2 k3
      ]

      second : choose 3 e dhcp m dhcp ≡ choose 2 e dhcp m a1 → EndOf p dhcp a1 → ⊥
      second e1 k1 = elim (choose_round 1 a1 d c1 n1) [
        | inl ends ↦ ends (sym e1 ∙ h0)
        | inr (e2, k2) ↦ third (sym e2 ∙ sym e1 ∙ h0) k1 k2
      ]

-- The loop goes on only while an address is both invalid and taken.
pub choose_ignores_taken :
    (fuel : ℕ) (e : Endian) (dhcp : Address) (m : Map Ip4 ℕ)
    → is_valid e (next e dhcp) ≡ true
    → (next e dhcp).host ≢ dhcp.host
    → choose (suc fuel) e dhcp m dhcp ≡ found (next e dhcp)
unfolding choose
choose_ignores_taken fuel e dhcp m v ne = ground (arith, ip_eq_iff (next e dhcp).host dhcp.host)
