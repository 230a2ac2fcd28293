-- ===== src/Kernel/Guardian/Examples.antt =====
-- Tests of the kernel's guardian.
use arona_os.Prelude.{ℕ, ◌≡◌, refl, Text, codes, F64, true, List, [], ◌∷◌, map, some, get_elem?}
use arona_os.Guardian
use arona_os.Guardian.Engine
use arona_os.Guardian.Governance
use arona_os.Kernel.Clock.{DateTime}
use arona_os.Kernel.Guardian.{
  GuardianRule, SystemEvent, file_operation, ransomware, signature, new_predefined,
}
use arona_os.Kernel.Guardian.Engine.{GuardianEngine, evaluate, with_default_rules}
use arona_os.Kernel.Guardian.Port.{report, report_of, event_of, engine_of}
use arona_os.Kernel.Guardian.Calls.{
  Op, relax_by_id, false_positive, run, op_of, evaluate-run, run-protected,
}

abbrev boot : DateTime
boot = record { year = 2026; month = 8; day = 15; hour = 12; minute = 0; second = 0 }

abbrev booted : GuardianEngine
booted = with_default_rules (λ i. i) (λ _. boot)

abbrev calls : List Op
calls = relax_by_id 2 ∷ relax_by_id 0 ∷ false_positive 4 ∷ []

abbrev locking : SystemEvent
locking = file_operation (codes "a.locked") (codes "write") 200

abbrev show_nothing : F64 → Text
show_nothing _ = []

abbrev years : DateTime → ℕ
years t = t.year

evaluate-run_example :
    map report (
      Guardian.Engine.evaluate show_nothing
        (λ _. 9)
        (event_of locking)
        (Guardian.Governance.run (map (op_of years) calls) (engine_of years booted)))
    ≡ map report_of (evaluate show_nothing locking (run calls booted))
evaluate-run_example = evaluate-run years show_nothing (λ _. 9) locking calls booted

abbrev locked_rule : GuardianRule
locked_rule = new_predefined 0 boot ransomware (signature (codes ".locked")) true

run-protected_example :
    (r' : GuardianRule) × (get_elem? (run calls booted).rules 0 ≡ some r')
    × (r'.id ≡ 0)
    × (r'.protected ≡ true)
    × (r'.active ≡ true)
run-protected_example = run-protected calls booted 0 locked_rule refl refl refl
