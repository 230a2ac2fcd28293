-- ===== src/Kernel/Adaptive/Examples.antt =====
-- Tests of the kernel's trust model.
use arona_os.Prelude.{codes, [], ◌∷◌}
use arona_os.Kernel.Adaptive.{immediate, hesitant}
use arona_os.Kernel.Adaptive.Port.{Answers}

abbrev answers : Answers
answers =
    (1, codes "file", immediate) ∷ (2, codes "net", hesitant) ∷ (3, codes "file", hesitant) ∷ []
