-- ===== src/Prelude/Words.antt =====
-- Machine integers, binary64 numbers by their bit patterns, and text literals.
use Prim.Native.Nat.{ℕ, ◌+◌, ◌-◌, ◌%◌, ◌^◌}
use Prim.Native.Char.{code}
use Prim.Native.String.{String}
use mathlib.Core.Bool.{Bool, ◌&&◌, not}
use mathlib.Core.List.{[], ◌∷◌}
use arona_os.Prelude.Tests.{ltb, leb, if◌then◌else◌}
use arona_os.Prelude.Equality.{Text}

abbrev pub u32 : ℕ → ℕ
u32 n = n % 2 ^ 32

-- An `f64` is its bit pattern, below 2 ^ 64: sign, 11 bits of exponent, 52 bits of fraction.
abbrev pub F64 : Type 0
F64 = ℕ

abbrev magnitude : F64 → ℕ
magnitude x = x % 2 ^ 63

abbrev is_negative : F64 → Bool
is_negative x = leb (2 ^ 63) x

-- The patterns above those of the infinities are the NaNs.
abbrev is_nan : F64 → Bool
is_nan x = ltb 0x7ff0_0000_0000_0000 (magnitude x)

-- The place of a number that is no NaN among all of them; both zeros stand at 2 ^ 63.
abbrev place : F64 → ℕ
place x = if is_negative x then 2 ^ 63 - magnitude x else 2 ^ 63 + magnitude x

-- The operator `>` of `f64`: false as soon as one side is a NaN.
unfoldable pub f64_gt : F64 → F64 → Bool
f64_gt x y = not (is_nan x) && (not (is_nan y) && ltb (place y) (place x))

-- The text of a literal of the source.
abbrev pub codes : String → Text
codes String.[] = []
codes (String.◌∷◌ c s) = code c ∷ codes s
