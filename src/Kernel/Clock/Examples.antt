-- ===== src/Kernel/Clock/Examples.antt =====
-- Tests of the clock.
use arona_os.Prelude.{ℕ, ◌≡◌, refl, nat_eq, if◌then◌else◌, arith}
use arona_os.Kernel.Clock.{DateTime, now, now-to_bcd}

-- The registers at noon of 15 August 2026.
abbrev at_noon : ℕ → ℕ
at_noon register =
    if nat_eq register 0x09
    then 0x26
    else if nat_eq register 0x08
    then 0x08
    else if nat_eq register 0x07
    then 0x15
    else if nat_eq register 0x04
    then 0x12
    else 0

abbrev noon : DateTime
noon = record { year = 2026; month = 8; day = 15; hour = 12; minute = 0; second = 0 }

now-to_bcd_example : now at_noon ≡ noon
now-to_bcd_example =
    now-to_bcd noon at_noon (omega arith) (omega arith) (omega arith) (omega arith) (omega arith)
      (omega arith) (omega arith) refl refl refl refl refl refl
