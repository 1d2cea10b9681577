-- ===== src/Common/Equality.antt =====
-- Go's `==` on the types that the program compares.
use Prim.Native.Nat.{ℕ}
use Prim.Native.String.{String}
use mathlib.Core.Path.{◌≡◌, refl, sym}
use mathlib.Core.Logic.{◌↔◌, inl, inr}
use mathlib.Core.Bool.{Bool, true, false, ◌&&◌, ◌||◌}
use mathlib.Core.List.{List, [], ◌∷◌, Memᴰ}
use native.Mathlib.Omega.{arith}
use text.Mathlib.Text.{◌==◌ as str_beq}
use text.Mathlib.TextEquality.{eq_iff}
use utlsproxy.Common.Tests.{nat_beq, nat_beq_iff, Bool-cases}

-- A Boolean test that decides equality.
pub record Eq {ℓ} (A : Type ℓ) : Type ℓ where
  pub beq : (x y : A) → Bool
  pub beq_iff : (x y : A) → (beq x y ≡ true) ↔ (x ≡ y)

module _ {ℓ} {A : Type ℓ} ⦃e : Eq A⦄ where
  infix 50 ◌==◌
  abbrev pub ◌==◌ : (x y : A) → Bool
  x == y = e.beq x y

  pub beq_refl : (x : A) → (x == x) ≡ true
  beq_refl x = (e.beq_iff x x).1 refl

  unfoldable pub list_beq : (xs ys : List A) → Bool
  list_beq (x ∷ xs) (y ∷ ys) = x == y && list_beq xs ys
  list_beq [] [] = true
  list_beq _ _ = false

  pub list_beq_iff : (xs ys : List A) → (list_beq xs ys ≡ true) ↔ (xs ≡ ys)
  unfolding list_beq
  list_beq_iff (x ∷ xs) (y ∷ ys) = ground (arith, list_beq_iff xs ys, e.beq_iff x y)
  list_beq_iff [] [] = ground arith
  list_beq_iff _ _ = ground arith

  -- `slices.Contains`
  unfoldable pub contains : List A → A → Bool
  contains (x ∷ xs) v = x == v || contains xs v
  contains [] v = false

  pub contains_mem : (xs : List A) (v : A) → contains xs v ≡ true → Memᴰ v xs
  unfolding contains
  contains_mem [] v h = ground (arith, h)
  contains_mem (x ∷ xs) v h = elim (Bool-cases (x == v)) [
    | inl same ↦ Memᴰ.head (sym ((e.beq_iff x v).0 same))
    | inr other ↦ Memᴰ.tail (contains_mem xs v (rw other at h))
  ]

  pub mem_contains : (xs : List A) (v : A) → Memᴰ v xs → contains xs v ≡ true
  unfolding contains
  mem_contains [] v m = elim m [ ]
  mem_contains (x ∷ xs) v (Memᴰ.head same) = ground (arith, (e.beq_iff x v).1 (sym same))
  mem_contains (x ∷ xs) v (Memᴰ.tail m) = ground (arith, mem_contains xs v m)

  instance abbrev pub list_eq : Eq (List A)
  list_eq = record { beq = list_beq; beq_iff = list_beq_iff }

instance abbrev pub string_eq : Eq String
string_eq = record { beq = str_beq; beq_iff = eq_iff }

instance abbrev pub nat_eq : Eq ℕ
nat_eq = record { beq = nat_beq; beq_iff = nat_beq_iff }
