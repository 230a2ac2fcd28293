-- ===== src/Kernel/Boot/Examples.antt =====
-- Tests of what the kernel prints, on a disk that is a function.
use arona_os.Prelude.{◌≡◌, refl, codes, ◌∷◌, ◌++◌, some, decimal}
use arona_os.Kernel.Clock.{DateTime}
use arona_os.Kernel.Fat32.Examples.{Disk, device, lawful, blank}
use arona_os.Kernel.Fat32.SpaceExamples.{reliable}
use arona_os.Kernel.Boot.{pad, hex, time_line, random_line, kernel_lines}
use arona_os.Kernel.Boot.Lines.{demo_lines, working_disk, kernel_lines-working}

abbrev evening : DateTime
evening = record { year = 2026; month = 7; day = 12; hour = 22; minute = 5; second = 9 }

evening_line : time_line evening ≡ codes "RTC time: 2026-07-12 22:05:09"
unfolding time_line pad decimal
evening_line = refl

random_4242 : random_line 4242 ≡ codes "Random u64: 0x0000000000001092"
unfolding random_line hex
random_4242 = refl

kernel_lines-working_example :
    (d' : Disk) × (kernel_lines device
        (λ f. decimal f)
        (λ n. n)
        (λ n. evening)
        1
        2
        7
        evening
        4242
        blank
      ≡ some (d', time_line evening ∷ random_line 4242 ∷ (demo_lines ++ working_disk)))
kernel_lines-working_example =
    kernel_lines-working device lawful reliable (λ f. decimal f) (λ n. n) (λ n. evening) 1 2 7 4242
      evening blank
