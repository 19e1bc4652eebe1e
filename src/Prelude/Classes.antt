-- ===== src/Prelude/Classes.antt =====
-- Equality of keys as an interface: what Go calls a comparable type.
use Prim.Native.Nat.{ℕ}
use Prim.Native.String.{String}
use mathlib.Core.Path.{◌≡◌, refl}
use mathlib.Core.Logic.{◌↔◌}
use mathlib.Core.Bool.{Bool, true, false, ◌||◌}
use mathlib.Core.List.{List, [], ◌∷◌}
use text.Mathlib.Text.{◌==◌ as str_eq}
use text.Mathlib.TextEquality.{eq_iff}
use anycable.Prelude.Tests.{nat_beq, nat_beq_iff}

pub record Eq {κ} (Key : Type κ) : Type κ where
  pub beq : Key → Key → Bool
  -- The test is right.
  pub beq_iff : (x y : Key) → ((beq x y ≡ true) ↔ (x ≡ y))

instance abbrev pub string_eq : Eq String
string_eq = record { beq = λ s t. str_eq s t; beq_iff = λ s t. eq_iff s t }

instance abbrev pub nat_eq : Eq ℕ
nat_eq = record { beq = nat_beq; beq_iff = nat_beq_iff }

infix 50 ◌==◌
abbrev pub ◌==◌ {κ} : {A : Type κ} ⦃e : Eq A⦄ → A → A → Bool
◌==◌ ⦃e⦄ = e.beq

module _ {ℓ} {A : Type ℓ} ⦃e : Eq A⦄ where
  pub ==_refl : (a : A) → (a == a) ≡ true
  ==_refl a = (e.beq_iff a a).1 refl

  -- slices.Contains
  unfoldable pub contains : A → List A → Bool
  contains a [] = false
  contains a (x ∷ xs) = x == a || contains a xs
