-- ===== src/Base/Map.antt =====
-- Maps as association lists, for the hash maps of the source. The order of the entries stands for
-- the order in which the source's loops meet them.
use Prim.Native.Nat.{suc, ◌≤◌}
use mathlib.Core.Path.{◌≡◌, refl, subst}
use mathlib.Core.Logic.{◌≢◌, inl, inr}
use mathlib.Core.Bool.{true}
use mathlib.Core.Option.{Option, none, some}
use mathlib.Core.List.{List, [], ◌∷◌}
use native.Mathlib.Omega.{arith}
use candy.Base.Keys.{Eq}
use candy.Base.Lists.{All, length}
use candy.Base.Tests.{if◌then◌else◌, Bool-cases}

abbrev pub Map {ℓ κ} : Type ℓ → Type κ → Type (ℓ ⊔ κ)
Map K V = List (K × V)

pub beq_self {ℓ} : {K : Type ℓ} ⦃e : Eq K⦄ → (k : K) → e.beq k k ≡ true
beq_self ⦃e⦄ k = (e.beq_iff k k).1 refl

module _ {ℓ κ} {K : Type ℓ} {V : Type κ} ⦃e : Eq K⦄ where
  -- find
  unfoldable pub lookup : K → Map K V → Option V
  lookup k [] = none
  lookup k ((j, v) ∷ m) = if e.beq j k then some v else lookup k m

  -- m[k] = v
  unfoldable pub assign : K → V → Map K V → Map K V
  assign k v [] = (k, v) ∷ []
  assign k v ((j, w) ∷ m) = if e.beq j k then (k, v) ∷ m else (j, w) ∷ assign k v m

  -- erase
  unfoldable pub erase : K → Map K V → Map K V
  erase k [] = []
  erase k ((j, w) ∷ m) = if e.beq j k then erase k m else (j, w) ∷ erase k m

  pub lookup-assign :
      (k j : K) (v : V) (m : Map K V)
      → lookup j (assign k v m) ≡ (if e.beq k j then some v else lookup j m)
  unfolding lookup assign
  lookup-assign k j v [] = refl
  lookup-assign k j v ((i, w) ∷ m) =
      ground (arith, e.beq_iff k j, e.beq_iff i k, e.beq_iff i j, lookup-assign k j v m)

  pub lookup-assign_self : (k : K) (v : V) (m : Map K V) → lookup k (assign k v m) ≡ some v
  lookup-assign_self k v m = ground (arith, lookup-assign k k v m, beq_self k)

  pub lookup-assign_ne :
      (k j : K) (v : V) (m : Map K V) → k ≢ j → lookup j (assign k v m) ≡ lookup j m
  lookup-assign_ne k j v m h = ground (arith, lookup-assign k j v m, e.beq_iff k j)

  pub lookup-erase :
      (k j : K) (m : Map K V) → lookup j (erase k m) ≡ (if e.beq k j then none else lookup j m)
  unfolding lookup erase
  lookup-erase k j [] = ground arith
  lookup-erase k j ((i, w) ∷ m) =
      ground (arith, e.beq_iff k j, e.beq_iff i k, e.beq_iff i j, lookup-erase k j m)

  pub length-assign : (k : K) (v : V) (m : Map K V) → length (assign k v m) ≤ suc (length m)
  unfolding assign
  length-assign k v [] = omega arith
  length-assign k v ((j, w) ∷ m) = ground (arith, length-assign k v m)

  pub length-erase_le : (k : K) (m : Map K V) → length (erase k m) ≤ length m
  unfolding erase
  length-erase_le k [] = omega arith
  length-erase_le k ((j, w) ∷ m) = ground (arith, length-erase_le k m)

  -- No key has two entries.
  abbrev pub Distinct : Map K V → Type κ
  Distinct [] = Unit
  Distinct ((j, v) ∷ m) = (lookup j m ≡ none) × Distinct m

  pub Distinct-assign : (k : K) (v : V) (m : Map K V) → Distinct m → Distinct (assign k v m)
  unfolding assign lookup
  Distinct-assign k v [] d = (refl, tt)
  Distinct-assign k v ((j, w) ∷ m) d = elim (Bool-cases (e.beq j k)) [
    | inl here ↦ rw here (subst (λ i. lookup i m ≡ none) ((e.beq_iff j k).0 here) d.0, d.1)
    | inr other ↦ rw other (
      ground (arith, lookup-assign k j v m, e.beq_iff k j, e.beq_iff j k, d.0),
      Distinct-assign k v m d.1,
    )
  ]

  pub Distinct-erase : (k : K) (m : Map K V) → Distinct m → Distinct (erase k m)
  unfolding erase lookup
  Distinct-erase k [] d = d
  Distinct-erase k ((j, w) ∷ m) d = elim (Bool-cases (e.beq j k)) [
    | inl here ↦ rw here (Distinct-erase k m d.1)
    | inr other ↦ rw other (ground (arith, lookup-erase k j m, d.0), Distinct-erase k m d.1)
  ]

  module _ {μ} (P : K → V → Type μ) where
    -- A property of every entry.
    abbrev pub Every : Map K V → Type μ
    Every = All (λ kv. P kv.0 kv.1)

    pub Every-assign : (k : K) (v : V) (m : Map K V) → P k v → Every m → Every (assign k v m)
    unfolding assign
    Every-assign k v [] p h = (p, h)
    Every-assign k v ((j, w) ∷ m) p h = elim (Bool-cases (e.beq j k)) [
      | inl same ↦ rw same (p, h.1)
      | inr other ↦ rw other (h.0, Every-assign k v m p h.1)
    ]

    pub Every-erase : (k : K) (m : Map K V) → Every m → Every (erase k m)
    unfolding erase
    Every-erase k [] h = h
    Every-erase k ((j, w) ∷ m) h = elim (Bool-cases (e.beq j k)) [
      | inl same ↦ rw same (Every-erase k m h.1)
      | inr other ↦ rw other (h.0, Every-erase k m h.1)
    ]

    pub Every-lookup :
        (k : K) (m : Map K V) (v : V) → Every m → lookup k m ≡ some v → (j : K) × (j ≡ k) × P j v
    unfolding lookup
    Every-lookup k [] v h q = cc
    Every-lookup k ((j, w) ∷ m) v h q = elim (Bool-cases (e.beq j k)) [
      | inl same ↦ (j, (e.beq_iff j k).0 same, let wv : w ≡ v = ground arith in subst (P j) wv h.0)
      | inr other ↦ Every-lookup k m v h.1 (ground arith)
    ]
