-- ===== src/Base/Results.antt =====
-- Chains of calls that may have no result.
use candy.Base.Tests.{if◌then◌else◌}
use mathlib.Core.Bool.{Bool, true, false}
use mathlib.Core.Path.{◌≡◌, refl, subst}
use mathlib.Core.Option.{Option, none, some}
use native.Mathlib.Omega.{arith}

infixl 5 ◌>>=◌
abbrev pub ◌>>=◌ {ℓ κ} : {A : Type ℓ} {B : Type κ} → Option A → (A → Option B) → Option B
none >>= f = none
some a >>= f = f a

-- What holds of a result, if there is one.
pub record Leaves {ℓ κ} {A : Type ℓ} (P : A → Type κ) (o : Option A) : Type (ℓ ⊔ κ) where
  pub holds : (a : A) → o ≡ some a → P a

module _ {ℓ κ} {A : Type ℓ} (P : A → Type κ) where
  pub Leaves-none : Leaves P none
  Leaves-none = record { holds = λ a e. cc }

  pub Leaves-some : (a : A) → P a → Leaves P (some a)
  Leaves-some a h = record { holds = λ b e. subst P (ground arith) h }

  pub Leaves-if :
      (b : Bool) (o q : Option A) → Leaves P o → Leaves P q → Leaves P (if b then o else q)
  Leaves-if true o q h k = h
  Leaves-if false o q h k = k

module _ {ℓ κ μ} {A : Type ℓ} {B : Type κ} (P : A → Type μ) (Q : B → Type μ) where
  pub Leaves-bind :
      (o : Option A) (f : A → Option B)
      → Leaves P o
      → ((a : A) → P a → Leaves Q (f a))
      → Leaves Q (o >>= f)
  Leaves-bind none f h k = Leaves-none Q
  Leaves-bind (some a) f h k = k a (h.holds a refl)
