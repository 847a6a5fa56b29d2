-- ===== src/Base/Bits/Xor.antt =====
-- bit_xor as arithmetic: parts of a number apart, and twice the same number.
use candy.Base.Bits.Step.{bit_xor-halves}
use candy.Base.Bits.{shift-suc}
use Prim.Native.Nat.{ℕ, zero, suc, ◌+◌, ◌*◌, ◌/◌, ◌%◌, ◌^◌, ◌≤◌, ◌<◌, bit_xor}
use mathlib.Core.Path.{◌≡◌, refl, ap, ◌∙◌}
use native.Mathlib.Nat.{pow-suc}
use native.Mathlib.Omega.{arith}

-- Half of the result is the result of the halves.
half : (a b : ℕ) → bit_xor a b / 2 ≡ bit_xor (a / 2) (b / 2)
half a b = omega (arith, bit_xor-halves a b)

low : (a b : ℕ) → bit_xor a b % 2 ≡ (a % 2 + b % 2) % 2
low a b = omega (arith, bit_xor-halves a b)

cancel_below : (n a b : ℕ) → a ≤ n → b ≤ n → bit_xor (bit_xor a b) b ≡ a
cancel_below zero a b h k =
    let e : a ≡ 0 = omega arith in let e' : b ≡ 0 = omega arith in rw (e, e') refl
cancel_below (suc n) a b h k =
    let halved =
      ap (λ t. bit_xor t (b / 2)) (half a b)
      ∙ cancel_below n (a / 2) (b / 2) (omega arith) (omega arith) in
    omega (arith, low a b, bit_xor-halves (bit_xor a b) b, halved)

-- What is combined with the same number twice is as before.
pub bit_xor_cancel : (a b : ℕ) → bit_xor (bit_xor a b) b ≡ a
bit_xor_cancel a b = cancel_below (a + b) a b (omega arith) (omega arith)

pub bit_xor-lt : (k a b : ℕ) → a < 2 ^ k → b < 2 ^ k → bit_xor a b < 2 ^ k
bit_xor-lt zero a b h h' =
    let e : a ≡ 0 = omega arith in let e' : b ≡ 0 = omega arith in rw (e, e') (omega arith)
bit_xor-lt (suc k) a b h h' = omega (
  arith,
  pow-suc 2 k,
  bit_xor-halves a b,
  bit_xor-lt k (a / 2) (b / 2) (omega (arith, pow-suc 2 k)) (omega (arith, pow-suc 2 k)),
)

-- The high and the low part apart.
module _ (q q' : ℕ) where
  pub bit_xor_split :
      (k r r' : ℕ)
      → r < 2 ^ k
      → r' < 2 ^ k
      → bit_xor (q * 2 ^ k + r) (q' * 2 ^ k + r') ≡ bit_xor q q' * 2 ^ k + bit_xor r r'
  bit_xor_split zero zero zero h h' = ground arith
  bit_xor_split zero _ _ h h' = absurd (omega arith)
  bit_xor_split (suc k) r r' h h' = ground (
    arith,
    bit_xor-halves (q * 2 ^ suc k + r) (q' * 2 ^ suc k + r'),
    bit_xor-halves r r',
    shift-suc k q,
    shift-suc k q',
    shift-suc k (bit_xor q q'),
    bit_xor_split k (r / 2) (r' / 2) (omega (arith, pow-suc 2 k)) (omega (arith, pow-suc 2 k)),
  )
