-- ===== src/Base/Bits/Step.antt =====
-- The native operations bit by bit: what one does to a number's lowest bit and to its other half.
-- They are defined by a recursion on fuel, of which more than enough makes no difference.
use Prim.Native.Nat.{
  ℕ, zero, suc, ◌+◌, ◌*◌, ◌/◌, ◌%◌, ◌≤◌, ◌<◌, min, max, bit_and, bit_or, digits, bitwise,
  bit_and-bitwise, bit_or-bitwise, bit_xor, bit_xor-bitwise, differ,
}
use mathlib.Core.Path.{◌≡◌, refl, sym, ap, ◌∙◌}
use native.Mathlib.Decide.{dec_lt}
use native.Mathlib.Omega.{arith}

module _ (rest : ℕ → ℕ) (op : ℕ → ℕ → ℕ) where
  -- One more unit of fuel.
  digits-spare : (fuel x y : ℕ) → x ≤ fuel → digits rest op (suc fuel) x y ≡ digits rest op fuel x y
  digits-spare zero zero y h = refl
  digits-spare zero (suc x) y h = absurd (omega arith)
  digits-spare (suc fuel) zero y h = refl
  digits-spare (suc fuel) (suc x) y h =
      ap (λ t. t * 2 + op (suc x % 2) (y % 2)) (digits-spare fuel (suc x / 2) (y / 2) (omega arith))

  -- The number itself is enough fuel.
  digits-enough : (fuel x y : ℕ) → x ≤ fuel → digits rest op fuel x y ≡ digits rest op x x y
  digits-enough zero zero y h = refl
  digits-enough zero (suc x) y h = absurd (omega arith)
  digits-enough (suc fuel) x y h = elim (dec_lt fuel x) [
    | yes top ↦ let e : suc fuel ≡ x = omega arith in ap (λ t. digits rest op t x y) e
    | no spare ↦ digits-spare fuel x y (omega arith) ∙ digits-enough fuel x y (omega arith)
  ]

  halves_of :
      (x y : ℕ)
      → bitwise rest op (suc x) y ≡ op (suc x % 2) (y % 2) + 2 * bitwise rest op (suc x / 2) (y / 2)
  halves_of x y = omega (arith, digits-enough x (suc x / 2) (y / 2) (omega arith))

pub bit_and-halves : (x y : ℕ) → bit_and x y ≡ min (x % 2) (y % 2) + 2 * bit_and (x / 2) (y / 2)
bit_and-halves zero y = rw (bit_and-bitwise 0 y, bit_and-bitwise 0 (y / 2)) (omega arith)
bit_and-halves (suc x) y =
    bit_and-bitwise (suc x) y
    ∙ halves_of (λ t. 0) min x y
    ∙ ap (λ t. min (suc x % 2) (y % 2) + 2 * t) (sym (bit_and-bitwise (suc x / 2) (y / 2)))

pub bit_or-halves : (x y : ℕ) → bit_or x y ≡ max (x % 2) (y % 2) + 2 * bit_or (x / 2) (y / 2)
bit_or-halves zero y = rw (bit_or-bitwise 0 y, bit_or-bitwise 0 (y / 2)) (omega arith)
bit_or-halves (suc x) y =
    bit_or-bitwise (suc x) y
    ∙ halves_of (λ t. t) max x y
    ∙ ap (λ t. max (suc x % 2) (y % 2) + 2 * t) (sym (bit_or-bitwise (suc x / 2) (y / 2)))

differ_bits : (a b : ℕ) → a < 2 → b < 2 → differ a b ≡ (a + b) % 2
differ_bits zero b h k = omega arith
differ_bits (suc zero) zero h k = refl
differ_bits (suc zero) (suc zero) h k = refl
differ_bits (suc zero) (suc (suc b)) h k = absurd (omega arith)
differ_bits (suc (suc a)) b h k = absurd (omega arith)

pub bit_xor-halves : (x y : ℕ) → bit_xor x y ≡ (x % 2 + y % 2) % 2 + 2 * bit_xor (x / 2) (y / 2)
bit_xor-halves zero y = rw (bit_xor-bitwise 0 y, bit_xor-bitwise 0 (y / 2)) (omega arith)
bit_xor-halves (suc x) y =
    bit_xor-bitwise (suc x) y
    ∙ halves_of (λ t. t) differ x y
    ∙ ap (λ t. t + 2 * bitwise (λ t. t) differ (suc x / 2) (y / 2))
        (differ_bits (suc x % 2) (y % 2) (omega arith) (omega arith))
    ∙ ap (λ t. (suc x % 2 + y % 2) % 2 + 2 * t) (sym (bit_xor-bitwise (suc x / 2) (y / 2)))
