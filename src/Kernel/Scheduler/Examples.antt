-- ===== src/Kernel/Scheduler/Examples.antt =====
-- Tests of the scheduler, with three tasks.
use arona_os.Prelude.{ℕ, ◌<◌, ◌≡◌, arith, [], ◌∷◌, some}
use arona_os.Kernel.Scheduler.{Scheduler, ticks, ticks_reach}

abbrev three : Scheduler ℕ
three = record { contexts = 10 ∷ 20 ∷ 30 ∷ []; current = 1 }

ticks_reach_example :
    (n : ℕ) × (n < 3) × (ticks n (some three) ≡ some (record three { current = 0 }))
ticks_reach_example = ticks_reach three 0 (omega arith) (omega arith) (omega arith)
