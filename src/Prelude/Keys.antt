-- ===== src/Prelude/Keys.antt =====
-- Equality tests of the program's key types, as an interface with its law.
use mathlib.Core.Path.{◌≡◌, refl}
use mathlib.Core.Logic.{◌↔◌}
use mathlib.Core.Bool.{Bool, true, false, ◌&&◌}
use mathlib.Core.List.{List, [], ◌∷◌}
use Prim.Native.Nat.{ℕ}
use native.Mathlib.Omega.{arith}
use http.Prelude.Tests.{◌==◌, ==_iff}

pub record Eq {ℓ} (A : Type ℓ) : Type ℓ where
  pub beq : A → A → Bool
  pub beq_iff : (a b : A) → (beq a b ≡ true) ↔ (a ≡ b)

abbrev pub same {ℓ} : {A : Type ℓ} ⦃e : Eq A⦄ → A → A → Bool
same ⦃e⦄ = e.beq

pub same_iff {ℓ} : {A : Type ℓ} ⦃e : Eq A⦄ (a b : A) → (same a b ≡ true) ↔ (a ≡ b)
same_iff ⦃e⦄ a b = e.beq_iff a b

pub same_refl {ℓ} : {A : Type ℓ} ⦃e : Eq A⦄ (a : A) → same a a ≡ true
same_refl ⦃e⦄ a = (e.beq_iff a a).1 refl

unfoldable pub list_beq : List ℕ → List ℕ → Bool
list_beq [] [] = true
list_beq (x ∷ xs) (y ∷ ys) = (x == y) && list_beq xs ys
list_beq _ _ = false

pub list_beq_iff : (a b : List ℕ) → (list_beq a b ≡ true) ↔ (a ≡ b)
unfolding list_beq
list_beq_iff [] [] = ground arith
list_beq_iff [] (y ∷ ys) = ground arith
list_beq_iff (x ∷ xs) [] = ground arith
list_beq_iff (x ∷ xs) (y ∷ ys) = ground (arith, list_beq_iff xs ys)

instance abbrev pub text_eq : Eq (List ℕ)
text_eq = record { beq = list_beq; beq_iff = list_beq_iff }

instance abbrev pub nat_eq : Eq ℕ
nat_eq = record { beq = λ a b. a == b; beq_iff = ==_iff }
