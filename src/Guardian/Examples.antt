-- ===== src/Guardian/Examples.antt =====
-- Tests of the guardian: an engine with a signature, a protected checksum rule and a heartbeat.
use mathlib.Core.List.{Memᴰ}
use arona_os.Prelude.{
  ◌≡◌, refl, Text, F64, codes, true, false, [], ◌∷◌, some, ok, arith, subst, sym, get_elem?,
}
use arona_os.Guardian.{
  DateTime, ransomware, data_corruption, system_corruption, signature, checksum_verification,
  heartbeat, GuardianRule, new_predefined, SystemEvent, checksum_check,
}
use arona_os.Guardian.Engine.{
  GuardianEngine, Intervention, find, modify, relax_rule, record_false_positive, action_for,
  match_event, evaluate, block, checksum_reason,
}
use arona_os.Guardian.Governance.{add, relax_by_id, false_positive, run, run-Evolves, Evolves}
use arona_os.Guardian.FalsePositives.{repeat, find-repeat, record_false_positive-repeat}
use arona_os.Guardian.Fires.{mismatch}
use arona_os.Guardian.Evaluation.{IsDistinct, Reports, Cause, evaluate_sound, evaluate_complete}

abbrev locked : GuardianRule
locked = new_predefined 1 0 ransomware (signature (codes ".locked")) false

abbrev checksum : GuardianRule
checksum = new_predefined 2 0 data_corruption checksum_verification true

abbrev beats : GuardianRule
beats = new_predefined 3 0 system_corruption (heartbeat 3) false

abbrev engine : GuardianEngine
engine = record { rules = locked ∷ checksum ∷ [] }

abbrev show : F64 → Text
show _ = codes "?"

abbrev stamp : GuardianRule → DateTime
stamp _ = 7

abbrev failed_check : SystemEvent
failed_check = checksum_check (codes "/etc") false

abbrev report : Intervention
report = record {
  rule_id = 2;
  category = data_corruption;
  action = block (checksum_reason (codes "/etc"));
  triggered_by = failed_check;
  timestamp = 7;
}

evaluate-engine : evaluate show stamp failed_check engine ≡ report ∷ []
unfolding evaluate match_event action_for
evaluate-engine = refl

find-locked : find 1 engine.rules ≡ some locked
unfolding find
find-locked = refl

find-checksum : find 2 engine.rules ≡ some checksum
unfolding find
find-checksum = refl

relax_locked : (relax_rule 1 engine).1 ≡ ok tt
unfolding relax_rule find modify
relax_locked = refl

engine-IsDistinct : IsDistinct engine.rules
engine-IsDistinct = ((λ e. omega (arith, e), tt), (tt, tt))

run-Evolves_example :
    (r' : GuardianRule) × (get_elem?
        (run (add beats ∷ relax_by_id 2 ∷ false_positive 1 ∷ relax_by_id 1 ∷ []) engine).rules
        1
      ≡ some r')
    × Evolves checksum r'
run-Evolves_example =
    run-Evolves (add beats ∷ relax_by_id 2 ∷ false_positive 1 ∷ relax_by_id 1 ∷ []) engine 1
      checksum refl

find-repeat_example :
    (r' : GuardianRule) × (find 1 (repeat 6 1 engine).rules ≡ some r')
    × (r'.protected ≡ false)
    × (r'.false_positive_count ≡ 6)
    × (r'.active ≡ false)
find-repeat_example =
    find-repeat 6 1 engine locked find-locked refl (omega arith) (λ _. omega arith)

record_false_positive-repeat_example : (record_false_positive 1 (repeat 6 1 engine)).1 ≡ ok true
record_false_positive-repeat_example =
    record_false_positive-repeat 6 1 engine locked find-locked refl (omega arith) (λ _. omega arith)

evaluate_sound_example : Cause show stamp failed_check report engine.rules
evaluate_sound_example =
    evaluate_sound show stamp failed_check engine report
      (subst (λ ivs. Memᴰ report ivs) (sym evaluate-engine) (Memᴰ.head refl))

evaluate_complete_example :
    (iv : Intervention) × Memᴰ iv (evaluate show stamp failed_check engine)
    × Reports show stamp failed_check checksum iv
evaluate_complete_example =
    evaluate_complete show stamp failed_check engine checksum (Memᴰ.tail (Memᴰ.head refl)) refl
      (mismatch refl)
