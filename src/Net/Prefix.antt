-- ===== src/Net/Prefix.antt =====
-- fromPrefix and toPrefix: masks of leading ones.
use candy.Base.{
  ℕ, zero, suc, ◌+◌, ◌-◌, ◌*◌, ◌/◌, ◌%◌, ◌^◌, ◌≤◌, ◌<◌, ◌≡◌, refl, subst, Bool, true, false, ◌&&◌,
  Option, none, some, ◌==◌, ltb, arith, inl, inr, Option-cases,
}
use mathlib.Core.Bool.{false≢true}
use candy.Base.Int.{pos}
use candy.Base.Table.{passes_below, passed}
use candy.Net.Ip4.{Ip4, any, or_byte, set_prefix, from_prefix, to_prefix}
use candy.Net.Value.{value, IsRaw}

-- `m` is the mask with `p` leading ones.
pub record IsMask (p : ℕ) (m : Ip4) : Type 0 where
  pub short : p ≤ 32
  pub made : from_prefix (pos p) ≡ some m
  pub bytes : IsRaw m
  pub ones : value m ≡ (2 ^ p - 1) * 2 ^ (32 - p)
  pub counted : to_prefix m ≡ p
  pub whole : 2 ^ p * 2 ^ (32 - p) ≡ 2 ^ 32

abbrev mask_row : ℕ → Option Ip4 → Bool
mask_row p none = false
mask_row p (some m) =
    ltb m.raw0 256
    && ltb m.raw1 256
    && ltb m.raw2 256
    && ltb m.raw3 256
    && value m == (2 ^ p - 1) * 2 ^ (32 - p)
    && to_prefix m == p
    && 2 ^ p * 2 ^ (32 - p) == 2 ^ 32

mask_table : passes_below (λ p. mask_row p (from_prefix (pos p))) 33 ≡ true
unfolding passes_below from_prefix to_prefix value
mask_table = refl

mask_row_sound :
    (p : ℕ) (m : Ip4)
    → p ≤ 32
    → from_prefix (pos p) ≡ some m
    → mask_row p (some m) ≡ true
    → IsMask p m
mask_row_sound p m h e t = record {
  short = h;
  made = e;
  bytes = ground arith;
  ones = ground arith;
  counted = ground arith;
  whole = ground arith;
}

row_holds : (p : ℕ) → p ≤ 32 → mask_row p (from_prefix (pos p)) ≡ true
row_holds p h = passed (λ p. mask_row p (from_prefix (pos p))) 33 mask_table p (omega arith)

pub from_prefix-IsMask : (p : ℕ) (m : Ip4) → p ≤ 32 → from_prefix (pos p) ≡ some m → IsMask p m
from_prefix-IsMask p m h e =
    mask_row_sound p m h e (subst (λ o. mask_row p o ≡ true) e (row_holds p h))

pub mask_exists : (p : ℕ) → p ≤ 32 → (m : Ip4) × (from_prefix (pos p) ≡ some m)
mask_exists p h = elim (Option-cases (from_prefix (pos p))) [
  | inl e ↦ absurd (false≢true (subst (λ o. mask_row p o ≡ true) e (row_holds p h)))
  | inr found ↦ found
]

-- For a prefix length up to 32, fromPrefix gives the mask of that many leading ones, and toPrefix
-- of it is the length again.
pub from_prefix-to_prefix :
    (p : ℕ)
    → p ≤ 32
    → (m : Ip4) × (from_prefix (pos p) ≡ some m)
      × (value m ≡ (2 ^ p - 1) * 2 ^ (32 - p))
      × (to_prefix m ≡ p)
from_prefix-to_prefix p h =
    let (m, e) = mask_exists p h in let v = from_prefix-IsMask p m h e in (m, e, v.ones, v.counted)

or_byte-some : (j b : ℕ) (ip ip' : Ip4) → or_byte j b ip ≡ some ip' → j < 4
or_byte-some zero b ip ip' e = omega arith
or_byte-some (suc zero) b ip ip' e = omega arith
or_byte-some (suc (suc zero)) b ip ip' e = omega arith
or_byte-some (suc (suc (suc zero))) b ip ip' e = omega arith
or_byte-some (suc (suc (suc (suc j)))) b ip ip' e = cc

set_prefix-eq-none : (left i : ℕ) (ip : Ip4) → i ≤ 32 → 32 < i + left → set_prefix left i ip ≡ none
unfolding set_prefix
set_prefix-eq-none zero i ip h k = absurd (omega arith)
set_prefix-eq-none (suc left) i ip h k =
    elim (Option-cases (or_byte (i / 8) (0x80 / 2 ^ (i % 8)) ip)) [
      | inl e ↦ rw (e, set_prefix)
      | inr (ip', e) ↦
          rw (e, set_prefix)
            (set_prefix-eq-none left (i + 1) ip'
              (omega (arith, or_byte-some (i / 8) (0x80 / 2 ^ (i % 8)) ip ip' e)) (omega arith))
    ]

-- A longer prefix writes past the four bytes.
pub from_prefix-eq-none : (p : ℕ) → 32 < p → from_prefix (pos p) ≡ none
unfolding from_prefix
from_prefix-eq-none p h = set_prefix-eq-none p 0 any (omega arith) (omega arith)
