-- ===== src/Common/Base.antt =====
-- Library names passed on, the conditional, and equality tests by an instance.
use mathlib.Core.Logic.{ite}
pub use Prim.Native.Nat.{ℕ, zero, suc, ◌+◌, ◌-◌, ◌*◌, ◌/◌, ◌%◌, ◌^◌, ◌≤◌, ◌<◌}
pub use mathlib.Core.Path.{◌≡◌, refl, sym, ap, ◌∙◌, subst}
pub use mathlib.Core.Logic.{◌≢◌, ◌↔◌, ◌⊎◌, inl, inr}
pub use mathlib.Core.Bool.{Bool, true, false, not, cond, ◌&&◌, ◌||◌}
pub use mathlib.Core.Option.{Option, none, some}
pub use mathlib.Core.List.{List, [], ◌∷◌, ◌++◌, map, reverse}
pub use native.Mathlib.Omega.{arith}
pub use native.Mathlib.Decide.{ℕ_discrete, dec_lt, dec_le}

infix 1 if◌then◌else◌
abbrev pub if◌then◌else◌ {ℓ} : {A : Type ℓ} → Bool → A → A → A
if b then x else y = cond b x y

pub Bool-cases : (b : Bool) → (b ≡ true) ⊎ (b ≡ false)
Bool-cases true = inl refl
Bool-cases false = inr refl

pub Option-cases {ℓ} : {A : Type ℓ} (o : Option A) → (o ≡ none) ⊎ ((a : A) × (o ≡ some a))
Option-cases none = inl refl
Option-cases (some a) = inr (a, refl)

-- Rust's `PartialEq`.
pub record Eq {ℓ} (A : Type ℓ) : Type ℓ where
  pub dec : Discrete A

module _ {ℓ} {A : Type ℓ} ⦃e : Eq A⦄ where
  infix 50 ◌==◌
  abbrev pub ◌==◌ : A → A → Bool
  a == b = ite (e.dec a b) true false

  pub eq_of_test : (a b : A) → (a == b) ≡ true → a ≡ b
  eq_of_test a b h = ground arith

  pub ne_of_test : (a b : A) → (a == b) ≡ false → a ≢ b
  ne_of_test a b h = ground arith

  pub test_self : (a : A) → (a == a) ≡ true
  test_self a = ground arith

  pub test_ne : (a b : A) → a ≢ b → (a == b) ≡ false
  test_ne a b h = ground arith

instance abbrev pub nat_eq : Eq ℕ
nat_eq = record { dec = ℕ_discrete }

-- `a > b` on instants and the like.
abbrev pub ltb : ℕ → ℕ → Bool
ltb a b = ite (dec_lt a b) true false

abbrev pub leb : ℕ → ℕ → Bool
leb a b = ite (dec_le a b) true false
