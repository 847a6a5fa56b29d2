-- ===== src/Base/Bits.antt =====
-- Bitwise operations of native numbers, as arithmetic at every width.
mod Step
pub mod Xor
use Step.{bit_and-halves, bit_or-halves}
use Prim.Native.Nat.{
  ℕ, zero, suc, ◌+◌, ◌-◌, ◌*◌, ◌/◌, ◌%◌, ◌^◌, ◌≤◌, ◌<◌, bit_and, bit_or, bit_and-bitwise,
  bit_or-bitwise,
}
use mathlib.Core.Path.{◌≡◌, refl, sym, ap, ap₂, ◌∙◌}
use mathlib.Core.WellFounded.{Acc, WellFounded}
use native.Mathlib.Nat.{pow-suc, one-le-pow}
use native.Mathlib.Omega.{arith}

pub zero-bit_and : (b : ℕ) → bit_and 0 b ≡ 0
zero-bit_and b = bit_and-bitwise 0 b

pub zero-bit_or : (b : ℕ) → bit_or 0 b ≡ b
zero-bit_or b = bit_or-bitwise 0 b

acc_below : (k n : ℕ) → n < k → Acc ◌<◌ n
acc_below zero n h = absurd (omega arith)
acc_below (suc k) n h = Acc.intro n (λ m p. acc_below k m (omega arith))

pub lt_wf : WellFounded ◌<◌
lt_wf = record { apply = λ n. acc_below (suc n) n (omega arith) }

bit_and-zero_below : (n a : ℕ) → a < n → bit_and a 0 ≡ 0
bit_and-zero_below zero a h = absurd (omega arith)
bit_and-zero_below (suc n) zero h = refl
bit_and-zero_below (suc n) (suc a) h =
    omega (arith, bit_and-halves (suc a) 0, bit_and-zero_below n (suc a / 2) (omega arith))

pub bit_and-zero : (a : ℕ) → bit_and a 0 ≡ 0
bit_and-zero a = bit_and-zero_below (suc a) a (omega arith)

bit_or-zero_below : (n a : ℕ) → a < n → bit_or a 0 ≡ a
bit_or-zero_below zero a h = absurd (omega arith)
bit_or-zero_below (suc n) zero h = refl
bit_or-zero_below (suc n) (suc a) h =
    omega (arith, bit_or-halves (suc a) 0, bit_or-zero_below n (suc a / 2) (omega arith))

pub bit_or-zero : (a : ℕ) → bit_or a 0 ≡ a
bit_or-zero a = bit_or-zero_below (suc a) a (omega arith)

bit_and_comm_below : (n a b : ℕ) → a < n → bit_and a b ≡ bit_and b a
bit_and_comm_below zero a b h = absurd (omega arith)
bit_and_comm_below (suc n) zero b h = zero-bit_and b ∙ sym (bit_and-zero b)
bit_and_comm_below (suc n) (suc a) b h = omega (
  arith,
  bit_and-halves (suc a) b,
  bit_and-halves b (suc a),
  bit_and_comm_below n (suc a / 2) (b / 2) (omega arith),
)

pub bit_and_comm : (a b : ℕ) → bit_and a b ≡ bit_and b a
bit_and_comm a b = bit_and_comm_below (suc a) a b (omega arith)

-- One digit more doubles a shifted number.
shift-suc : (k m : ℕ) → m * 2 ^ suc k ≡ m * 2 ^ k + m * 2 ^ k
shift-suc k m = let double = pow-suc 2 k in rw double (omega arith)

-- The operations work on high and low parts apart.
module _ (q q' : ℕ) where
  pub bit_and_split :
      (k r r' : ℕ)
      → r < 2 ^ k
      → r' < 2 ^ k
      → bit_and (q * 2 ^ k + r) (q' * 2 ^ k + r') ≡ bit_and q q' * 2 ^ k + bit_and r r'
  bit_and_split zero zero zero h h' = ground (arith, bit_and-zero 0)
  bit_and_split zero _ _ h h' = absurd (omega arith)
  bit_and_split (suc k) r r' h h' = ground (
    arith,
    bit_and-halves (q * 2 ^ suc k + r) (q' * 2 ^ suc k + r'),
    bit_and-halves r r',
    shift-suc k q,
    shift-suc k q',
    shift-suc k (bit_and q q'),
    bit_and_split k (r / 2) (r' / 2) (omega (arith, pow-suc 2 k)) (omega (arith, pow-suc 2 k)),
  )

  pub bit_or_split :
      (k r r' : ℕ)
      → r < 2 ^ k
      → r' < 2 ^ k
      → bit_or (q * 2 ^ k + r) (q' * 2 ^ k + r') ≡ bit_or q q' * 2 ^ k + bit_or r r'
  bit_or_split zero zero zero h h' = ground (arith, bit_or-zero 0)
  bit_or_split zero _ _ h h' = absurd (omega arith)
  bit_or_split (suc k) r r' h h' = ground (
    arith,
    bit_or-halves (q * 2 ^ suc k + r) (q' * 2 ^ suc k + r'),
    bit_or-halves r r',
    shift-suc k q,
    shift-suc k q',
    shift-suc k (bit_or q q'),
    bit_or_split k (r / 2) (r' / 2) (omega (arith, pow-suc 2 k)) (omega (arith, pow-suc 2 k)),
  )

bit_and_ones : (k r : ℕ) → r < 2 ^ k → bit_and r (2 ^ k - 1) ≡ r
bit_and_ones zero r h = rw bit_and-zero (omega arith)
bit_and_ones (suc k) r h = ground (
  arith,
  bit_and-halves r (2 ^ suc k - 1),
  pow-suc 2 k,
  one-le-pow k 2,
  bit_and_ones k (r / 2) (omega (arith, pow-suc 2 k)),
)

-- A mask of `k` low ones keeps the low field.
pub bit_and_low_field : (k q r : ℕ) → r < 2 ^ k → bit_and (q * 2 ^ k + r) (2 ^ k - 1) ≡ r
bit_and_low_field k q r h =
    ap (bit_and (q * 2 ^ k + r)) (omega (arith, one-le-pow k 2))
    ∙ bit_and_split q 0 k r (2 ^ k - 1) h (omega (arith, one-le-pow k 2))
    ∙ rw (bit_and-zero, bit_and_ones k r h) (omega arith)

-- A mask of `m` ones above `k` zeros keeps the high field.
pub bit_and_high_field :
    (m k q r : ℕ)
    → q < 2 ^ m
    → r < 2 ^ k
    → bit_and (q * 2 ^ k + r) ((2 ^ m - 1) * 2 ^ k) ≡ q * 2 ^ k
bit_and_high_field m k q r hq hr =
    ap (bit_and (q * 2 ^ k + r)) (omega arith)
    ∙ bit_and_split q (2 ^ m - 1) k r 0 hr (one-le-pow k 2 (omega arith))
    ∙ rw (bit_and-zero, bit_and_ones m q hq) (omega arith)

-- Fields that do not overlap add up.
pub bit_or_fields : (k q r : ℕ) → r < 2 ^ k → bit_or (q * 2 ^ k) r ≡ q * 2 ^ k + r
bit_or_fields k q r h =
    ap₂ bit_or (omega arith) (omega arith)
    ∙ bit_or_split q 0 k 0 r (one-le-pow k 2 (omega arith)) h
    ∙ rw (bit_or-zero, zero-bit_or)

bit_or_ones : (k r : ℕ) → r < 2 ^ k → bit_or r (2 ^ k - 1) ≡ 2 ^ k - 1
bit_or_ones zero r h = rw bit_or-zero (omega arith)
bit_or_ones (suc k) r h = ground (
  arith,
  bit_or-halves r (2 ^ suc k - 1),
  pow-suc 2 k,
  one-le-pow k 2,
  bit_or_ones k (r / 2) (omega (arith, pow-suc 2 k)),
)

-- Setting `m` ones above `k` low digits leaves those digits.
pub bit_or_high_field :
    (m k q r : ℕ)
    → q < 2 ^ m
    → r < 2 ^ k
    → bit_or (q * 2 ^ k + r) ((2 ^ m - 1) * 2 ^ k) ≡ (2 ^ m - 1) * 2 ^ k + r
bit_or_high_field m k q r hq hr =
    ap (bit_or (q * 2 ^ k + r)) (omega arith)
    ∙ bit_or_split q (2 ^ m - 1) k r 0 hr (one-le-pow k 2 (omega arith))
    ∙ rw (bit_or-zero, bit_or_ones m q hq)

bit_and-le_below : (n a b : ℕ) → a < n → bit_and a b ≤ a
bit_and-le_below zero a b h = absurd (omega arith)
bit_and-le_below (suc n) zero b h = omega (arith, zero-bit_and b)
bit_and-le_below (suc n) (suc a) b h =
    omega (arith, bit_and-halves (suc a) b, bit_and-le_below n (suc a / 2) (b / 2) (omega arith))

pub bit_and-le : (a b : ℕ) → bit_and a b ≤ a
bit_and-le a b = bit_and-le_below (suc a) a b (omega arith)

pub bit_or-lt : (k a b : ℕ) → a < 2 ^ k → b < 2 ^ k → bit_or a b < 2 ^ k
bit_or-lt zero a b h h' = let e : a ≡ 0 = omega arith in rw (e, zero-bit_or) h'
bit_or-lt (suc k) a b h h' = omega (
  arith,
  pow-suc 2 k,
  bit_or-halves a b,
  bit_or-lt k (a / 2) (b / 2) (omega (arith, pow-suc 2 k)) (omega (arith, pow-suc 2 k)),
)

pub bit_or_fields' : (k q r : ℕ) → r < 2 ^ k → bit_or r (q * 2 ^ k) ≡ q * 2 ^ k + r
bit_or_fields' k q r h =
    ap₂ bit_or (omega arith) (omega arith)
    ∙ bit_or_split 0 q k r 0 h (one-le-pow k 2 (omega arith))
    ∙ rw (bit_or-zero, zero-bit_or)
