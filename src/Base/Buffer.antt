-- ===== src/Base/Buffer.antt =====
-- Byte buffers: fields at fixed offsets, as the packed structs of the source read and write them.
use candy.Base.Keys.{Eq}
use candy.Base.Lists.{length, take, drop, length-take, length-drop}
use candy.Base.Tests.{◌==◌ as nat_beq}
use Prim.Native.Nat.{ℕ, zero, suc, ◌+◌, ◌≤◌}
use mathlib.Core.Path.{◌≡◌, refl, ap}
use mathlib.Core.Logic.{◌↔◌}
use mathlib.Core.Bool.{Bool, true, false, ◌&&◌}
use mathlib.Core.List.{List, [], ◌∷◌}
use native.Mathlib.Omega.{arith}

module _ {ℓ} {A : Type ℓ} where
  -- `n` items from index `i` on.
  abbrev pub slice : ℕ → ℕ → List A → List A
  slice i n b = take n (drop i b)

  -- Overwrites the front; what does not fit is dropped.
  abbrev pub overlay : List A → List A → List A
  overlay [] b = b
  overlay (v ∷ vs) [] = []
  overlay (v ∷ vs) (x ∷ b) = v ∷ overlay vs b

  -- Overwrites from index `i` on.
  abbrev pub put : ℕ → List A → List A → List A
  put zero vs b = overlay vs b
  put (suc i) vs [] = []
  put (suc i) vs (x ∷ b) = x ∷ put i vs b

  length-overlay : (vs b : List A) → length (overlay vs b) ≡ length b
  length-overlay [] b = refl
  length-overlay (v ∷ vs) [] = refl
  length-overlay (v ∷ vs) (x ∷ b) = ap suc (length-overlay vs b)

  pub length-put : (i : ℕ) (vs b : List A) → length (put i vs b) ≡ length b
  length-put zero vs b = length-overlay vs b
  length-put (suc i) vs [] = refl
  length-put (suc i) vs (x ∷ b) = ap suc (length-put i vs b)

  pub length-slice : (i n : ℕ) (b : List A) → i + n ≤ length b → length (slice i n b) ≡ n
  length-slice i n b h = omega (arith, length-take n (drop i b), length-drop i b)

  take-overlay : (vs b : List A) → length vs ≤ length b → take (length vs) (overlay vs b) ≡ vs
  take-overlay [] b h = refl
  take-overlay (v ∷ vs) [] h = absurd (omega arith)
  take-overlay (v ∷ vs) (x ∷ b) h = ap (◌∷◌ v) (take-overlay vs b (omega arith))

  -- What was written is read back.
  pub slice-put_self :
      (i : ℕ) (vs b : List A) → i + length vs ≤ length b → slice i (length vs) (put i vs b) ≡ vs
  slice-put_self zero vs b h = take-overlay vs b (omega arith)
  slice-put_self (suc i) vs [] h = absurd (omega arith)
  slice-put_self (suc i) vs (x ∷ b) h = slice-put_self i vs b (omega arith)

  -- A field in front of the written one is unchanged.
  pub slice-put_before :
      (j n i : ℕ) (vs b : List A) → j + n ≤ i → slice j n (put i vs b) ≡ slice j n b
  slice-put_before zero zero i vs b h = refl
  slice-put_before zero (suc n) zero vs b h = absurd (omega arith)
  slice-put_before zero (suc n) (suc i) vs [] h = refl
  slice-put_before zero (suc n) (suc i) vs (x ∷ b) h =
      ap (◌∷◌ x) (slice-put_before zero n i vs b (omega arith))
  slice-put_before (suc j) n zero vs b h = absurd (omega arith)
  slice-put_before (suc j) n (suc i) vs [] h = refl
  slice-put_before (suc j) n (suc i) vs (x ∷ b) h = slice-put_before j n i vs b (omega arith)

  drop-overlay : (j : ℕ) (vs b : List A) → length vs ≤ j → drop j (overlay vs b) ≡ drop j b
  drop-overlay j [] b h = refl
  drop-overlay zero (v ∷ vs) b h = absurd (omega arith)
  drop-overlay (suc j) (v ∷ vs) [] h = refl
  drop-overlay (suc j) (v ∷ vs) (x ∷ b) h = drop-overlay j vs b (omega arith)

  drop-put : (j i : ℕ) (vs b : List A) → i + length vs ≤ j → drop j (put i vs b) ≡ drop j b
  drop-put j zero vs b h = drop-overlay j vs b (omega arith)
  drop-put zero (suc i) vs b h = absurd (omega arith)
  drop-put (suc j) (suc i) vs [] h = refl
  drop-put (suc j) (suc i) vs (x ∷ b) h = drop-put j i vs b (omega arith)

  -- So is a field behind it.
  pub slice-put_after :
      (j n i : ℕ) (vs b : List A) → i + length vs ≤ j → slice j n (put i vs b) ≡ slice j n b
  slice-put_after j n i vs b h = ap (take n) (drop-put j i vs b h)

  overlay-take : (n : ℕ) (b : List A) → overlay (take n b) b ≡ b
  overlay-take zero b = refl
  overlay-take (suc n) [] = refl
  overlay-take (suc n) (x ∷ b) = ap (◌∷◌ x) (overlay-take n b)

  -- Writing what is there changes nothing.
  pub put-slice : (i n : ℕ) (b : List A) → put i (slice i n b) b ≡ b
  put-slice zero n b = overlay-take n b
  put-slice (suc i) n [] = refl
  put-slice (suc i) n (x ∷ b) = ap (◌∷◌ x) (put-slice i n b)

-- memcmp of two buffers of the same length is 0.
unfoldable pub same : List ℕ → List ℕ → Bool
same [] [] = true
same [] (y ∷ ys) = false
same (x ∷ xs) [] = false
same (x ∷ xs) (y ∷ ys) = nat_beq x y && same xs ys

pub same_iff : (xs ys : List ℕ) → (same xs ys ≡ true) ↔ (xs ≡ ys)
unfolding same
same_iff [] [] = ground arith
same_iff [] (y ∷ ys) = ground arith
same_iff (x ∷ xs) [] = ground arith
same_iff (x ∷ xs) (y ∷ ys) = ground (arith, same_iff xs ys)

instance abbrev pub bytes_eq : Eq (List ℕ)
bytes_eq = record { beq = same; beq_iff = same_iff }
