-- ===== src/Kernel/Frames/Examples.antt =====
-- Tests of the frame allocator.
use arona_os.Prelude.{◌+◌, ◌≤◌, ◌≡◌, refl, true, false, List, [], ◌∷◌, some, arith}
use arona_os.Kernel.Frames.{MemoryRegion, init, usable_frames, allocate_frame, answer}
use arona_os.Kernel.Frames.Apart.{IsInside, answers_apart}

-- Two usable frames, a reserved region, and a usable frame.
abbrev memory : List MemoryRegion
memory =
    record { start_addr = 4096; end_addr = 12288; is_usable = true }
    ∷ record { start_addr = 12288; end_addr = 20480; is_usable = false }
    ∷ record { start_addr = 20480; end_addr = 24576; is_usable = true }
    ∷ []

second : answer 1 (init memory) ≡ some 8192
unfolding answer allocate_frame usable_frames
second = refl

third : answer 2 (init memory) ≡ some 20480
unfolding answer allocate_frame usable_frames
third = refl

answers_apart_example : (8192 + 4096 ≤ 20480) × IsInside memory 8192 × IsInside memory 20480
answers_apart_example =
    answers_apart memory 1 2 8192 20480
      (
        omega arith,
        omega arith,
        refl,
        (omega arith, omega arith, refl, (omega arith, omega arith, refl, tt)),
      )
      (omega arith) (omega arith) second third
