-- ===== src/Prelude/Equality.antt =====
-- `PartialEq` as an interface, its instances for numbers and lists, and `Vec::contains`.
use Prim.Native.Nat.{ℕ}
use mathlib.Core.Path.{◌≡◌, refl, sym}
use mathlib.Core.Logic.{◌↔◌, inl, inr}
use mathlib.Core.Bool.{Bool, true, false, ◌&&◌, ◌||◌}
use mathlib.Core.List.{List, [], ◌∷◌, ◌++◌, Memᴰ}
use native.Mathlib.Omega.{arith}
use arona_os.Prelude.Tests.{nat_eq, nat_eq_iff, ||-eq-true}

pub record PartialEq {ℓ} (A : Type ℓ) : Type ℓ where
  pub eq : A → A → Bool
  pub eq_iff : (a b : A) → (eq a b ≡ true) ↔ (a ≡ b)

infix 50 ◌==◌
abbrev pub ◌==◌ {ℓ} : {A : Type ℓ} ⦃e : PartialEq A⦄ → A → A → Bool
◌==◌ ⦃e⦄ = e.eq

instance abbrev pub nat_partial_eq : PartialEq ℕ
nat_partial_eq = record { eq = nat_eq; eq_iff = nat_eq_iff }

-- Text is the list of its Unicode scalar values.
abbrev pub Text : Type 0
Text = List ℕ

unfoldable pub text_eq : Text → Text → Bool
text_eq [] [] = true
text_eq [] (b ∷ bs) = false
text_eq (a ∷ as_) [] = false
text_eq (a ∷ as_) (b ∷ bs) = nat_eq a b && text_eq as_ bs

pub text_eq_iff : (s t : Text) → (text_eq s t ≡ true) ↔ (s ≡ t)
unfolding text_eq
text_eq_iff [] [] = ground arith
text_eq_iff [] (b ∷ bs) = ground arith
text_eq_iff (a ∷ as_) [] = ground arith
text_eq_iff (a ∷ as_) (b ∷ bs) = ground (arith, text_eq_iff as_ bs, nat_eq_iff a b)

instance abbrev pub text_partial_eq : PartialEq Text
text_partial_eq = record { eq = text_eq; eq_iff = text_eq_iff }

module _ {ℓ} {A : Type ℓ} ⦃e : PartialEq A⦄ where
  abbrev pub contains : List A → A → Bool
  contains [] a = false
  contains (x ∷ xs) a = (x == a) || contains xs a

  pub contains→Memᴰ : (xs : List A) (a : A) → contains xs a ≡ true → Memᴰ a xs
  contains→Memᴰ [] a h = cc
  contains→Memᴰ (x ∷ xs) a h = elim (||-eq-true (x == a) (contains xs a) h) [
    | inl here ↦ Memᴰ.head (sym ((e.eq_iff x a).0 here))
    | inr there ↦ Memᴰ.tail (contains→Memᴰ xs a there)
  ]

  pub contains-append :
      (xs ys : List A) (a : A) → contains (xs ++ ys) a ≡ (contains xs a || contains ys a)
  contains-append [] ys a = refl
  contains-append (x ∷ xs) ys a = ground (arith, contains-append xs ys a)

  pub eq_refl : (a : A) → (a == a) ≡ true
  eq_refl a = (e.eq_iff a a).1 refl

  pub eq_comm : (a b : A) → (a == b) ≡ (b == a)
  eq_comm a b = ground (arith, e.eq_iff a b, e.eq_iff b a)

  pub contains_self : (xs ys : List A) (a : A) → contains (xs ++ a ∷ ys) a ≡ true
  contains_self [] ys a = ground (arith, eq_refl a)
  contains_self (x ∷ xs) ys a = ground (arith, contains_self xs ys a)

  pub Memᴰ→contains : (xs : List A) (a : A) → Memᴰ a xs → contains xs a ≡ true
  Memᴰ→contains [] a m = elim m [ ]
  Memᴰ→contains (x ∷ xs) a (Memᴰ.head h) = ground (arith, (e.eq_iff x a).1 (sym h))
  Memᴰ→contains (x ∷ xs) a (Memᴰ.tail m) = ground (arith, Memᴰ→contains xs a m)

  -- Nothing stands in the list twice.
  abbrev pub IsUnique : List A → Type 0
  IsUnique [] = Unit
  IsUnique (x ∷ xs) = (contains xs x ≡ false) × IsUnique xs

  pub IsUnique-append :
      (xs : List A) (a : A) → IsUnique xs → contains xs a ≡ false → IsUnique (xs ++ a ∷ [])
  IsUnique-append [] a u h = (refl, tt)
  IsUnique-append (x ∷ xs) a (fresh, u) h = (
    ground (arith, contains-append xs (a ∷ []) x, eq_comm a x),
    IsUnique-append xs a u (ground arith),
  )
