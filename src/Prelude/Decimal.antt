-- ===== src/Prelude/Decimal.antt =====
-- `Display` of an unsigned integer, and the number that a decimal text stands for.
use Prim.Native.Nat.{ℕ, zero, suc, ◌+◌, ◌-◌, ◌*◌, ◌/◌, ◌%◌, ◌<◌}
use mathlib.Core.Path.{◌≡◌, ap, sym, ◌∙◌}
use mathlib.Core.Bool.{true}
use mathlib.Core.Logic.{inl, inr}
use mathlib.Core.List.{[], ◌∷◌}
use native.Mathlib.Omega.{arith}
use arona_os.Prelude.Tests.{ltb, if◌then◌else◌, Bool-cases}
use arona_os.Prelude.Equality.{Text}

digits : ℕ → ℕ → Text → Text
digits zero n acc = acc
digits (suc fuel) n acc =
    let more = digits fuel (n / 10) ((48 + n % 10) ∷ acc) in
    if ltb n 10 then (48 + n % 10) ∷ acc else more

unfoldable pub decimal : ℕ → Text
unfolding digits
decimal n = digits (suc n) n []

pub number_of : ℕ → Text → ℕ
number_of v [] = v
number_of v (c ∷ cs) = number_of (v * 10 + (c - 48)) cs

number_of-digits :
    (fuel n : ℕ) (acc : Text) → n < fuel → number_of 0 (digits fuel n acc) ≡ number_of n acc
unfolding digits number_of
number_of-digits zero n acc h = elim h [ ]
number_of-digits (suc fuel) n acc h = elim (Bool-cases (ltb n 10)) [
  | inl small ↦ rw small (ap (λ v. number_of v acc) (last_digit small))
  | inr large ↦ rw large (
      number_of-digits fuel (n / 10) ((48 + n % 10) ∷ acc) (ground arith)
      ∙ ap (λ v. number_of v acc) step)
]
  where
    last_digit : ltb n 10 ≡ true → 0 * 10 + (48 + n % 10 - 48) ≡ n
    last_digit small = ground arith

    step : n / 10 * 10 + (48 + n % 10 - 48) ≡ n
    step = omega arith

-- Reading a printed number gives the number back.
pub number_of-decimal : (n : ℕ) → number_of 0 (decimal n) ≡ n
unfolding decimal number_of
number_of-decimal n = number_of-digits (suc n) n [] (omega arith)

pub decimal-injective : (m n : ℕ) → decimal m ≡ decimal n → m ≡ n
decimal-injective m n e = sym (number_of-decimal m) ∙ (ap (number_of 0) e ∙ number_of-decimal n)
