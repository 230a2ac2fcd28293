-- ===== src/Kernel/Guardian/Calls.antt =====
-- Any sequence of calls on the kernel's guardian, as calls on the crate's.
use arona_os.Prelude.{
  ℕ, zero, suc, ◌≡◌, refl, sym, ap, ◌∙◌, inl, inr, Text, F64, true, List, [], ◌∷◌, ◌++◌, map,
  Option, none, some, arith, get_elem?, Bool-cases, Option-cases, keep, keep_on, filter_map,
}
use arona_os.Guardian
use arona_os.Guardian.Engine
use arona_os.Guardian.Governance
use arona_os.Kernel.Clock.{DateTime}
use arona_os.Kernel.Guardian.{GuardianRule, SystemEvent}
use arona_os.Kernel.Guardian.Engine.{
  GuardianEngine, add_rule, find, relax, relax_rule, after_false_positive, record_false_positive,
  match_event, evaluate,
}
use arona_os.Kernel.Guardian.Port.{
  report, report_of, event_of, result_of, option_map, rule_of, engine_of, find-rule_of,
  modify-rule_of, match_event-rule_of,
}

-- The calls of a client.
pub data Op : Type 0 where
  add : GuardianRule → Op
  relax_by_id : ℕ → Op
  false_positive : ℕ → Op

unfoldable pub apply : Op → GuardianEngine → GuardianEngine
apply (add rule) engine = (add_rule rule engine).0
apply (relax_by_id id) engine = (relax_rule id engine).0
apply (false_positive id) engine = (record_false_positive id engine).0

unfoldable pub run : List Op → GuardianEngine → GuardianEngine
run [] engine = engine
run (op ∷ ops) engine = run ops (apply op engine)

map-append : {A B : Type 0} (f : A → B) (xs ys : List A) → map f (xs ++ ys) ≡ map f xs ++ map f ys
map-append f [] ys = refl
map-append f (x ∷ xs) ys = ap (λ zs. f x ∷ zs) (map-append f xs ys)

abbrev prepend : {B : Type 0} → Option B → List B → List B
prepend none ys = ys
prepend (some y) ys = y ∷ ys

map-filter_map :
    {A B C : Type 0} (f : A → Option B) (g : B → C) (x : A) (xs : List A)
    → map g (filter_map f (x ∷ xs)) ≡ prepend (option_map g (f x)) (map g (filter_map f xs))
map-filter_map f g x xs = elim (Option-cases (f x)) [
  | inl nothing ↦ rw (nothing, filter_map) refl
  | inr (b, kept) ↦ rw (kept, filter_map) refl
]

get_elem?-map :
    {A B : Type 0} (f : A → B) (xs : List A) (i : ℕ) {x : A}
    → get_elem? xs i ≡ some x
    → get_elem? (map f xs) i ≡ some (f x)
get_elem?-map f [] i h = absurd (cc h)
get_elem?-map f (x ∷ xs) zero h = cc h
get_elem?-map f (x ∷ xs) (suc i) h = get_elem?-map f xs i h

get_elem?-map_inverse :
    {A B : Type 0} (f : A → B) (xs : List A) (i : ℕ) {y : B}
    → get_elem? (map f xs) i ≡ some y
    → (x : A) × (get_elem? xs i ≡ some x) × (y ≡ f x)
get_elem?-map_inverse f [] i h = absurd (cc h)
get_elem?-map_inverse f (x ∷ xs) zero h = (x, refl, cc h)
get_elem?-map_inverse f (x ∷ xs) (suc i) h = get_elem?-map_inverse f xs i h

-- A number for each time, such as the seconds since an epoch.
module _ (stamp : DateTime → ℕ) where
  abbrev pub op_of : Op → Guardian.Governance.Op
  op_of (add rule) = Guardian.Governance.add (rule_of stamp rule)
  op_of (relax_by_id id) = Guardian.Governance.relax_by_id id
  op_of (false_positive id) = Guardian.Governance.false_positive id

  -- `relax_rule` and `record_false_positive` answer the same as the crate's, errors included, and
  -- leave the rules that the crate's leave, read with any reading of the kernel's times.
  pub answers-engine_of :
      (id : ℕ) (engine : GuardianEngine)
      → (Guardian.Engine.relax_rule id (engine_of stamp engine)
          ≡ (engine_of stamp (relax_rule id engine).0, result_of (relax_rule id engine).1))
        × (Guardian.Engine.record_false_positive id (engine_of stamp engine) ≡ (
          engine_of stamp (record_false_positive id engine).0,
          result_of (record_false_positive id engine).1,
        ))
  unfolding relax_rule record_false_positive Guardian.Engine.relax_rule
      Guardian.Engine.record_false_positive
  answers-engine_of id engine =
      let there = find-rule_of stamp id engine.rules in
      elim (Option-cases (find id engine.rules)) [
        | inl missing ↦
            let gone = there ∙ ap (option_map (rule_of stamp)) missing in
            (
              (rw (gone, missing, Guardian.Engine.relax_rule, relax_rule) refl),
              (rw (gone, missing, Guardian.Engine.record_false_positive, record_false_positive)
                  refl),
            )
        | inr (rule, found) ↦
            let here = there ∙ ap (option_map (rule_of stamp)) found in
            let relaxed =
              modify-rule_of stamp id relax Guardian.Engine.relax engine.rules (λ r. refl) in
            let counted =
              modify-rule_of stamp id after_false_positive Guardian.Engine.after_false_positive
                engine.rules (λ r. ground arith) in
            elim (Bool-cases rule.protected) [
              | inl p ↦ (
                (rw (here, found, Guardian.Engine.relax_rule, relax_rule) (rw p refl)),
                (rw (here, found, Guardian.Engine.record_false_positive, record_false_positive)
                    (rw counted refl)),
              )
              | inr n ↦ (
                (rw (here, found, Guardian.Engine.relax_rule, relax_rule) (rw n (rw relaxed refl))),
                (rw (here, found, Guardian.Engine.record_false_positive, record_false_positive)
                    (rw counted refl)),
              )
            ]
      ]

  apply-engine_of :
      (op : Op) (engine : GuardianEngine)
      → Guardian.Governance.apply (op_of op) (engine_of stamp engine)
        ≡ engine_of stamp (apply op engine)
  unfolding apply Guardian.Governance.apply add_rule Guardian.Engine.add_rule
  apply-engine_of (add rule) engine =
      ap (λ rules. record { rules = rules })
        (sym (map-append (rule_of stamp) engine.rules (rule ∷ [])))
  apply-engine_of (relax_by_id id) engine = ap (λ r. r.0) (answers-engine_of id engine).0
  apply-engine_of (false_positive id) engine = ap (λ r. r.0) (answers-engine_of id engine).1

  run-engine_of :
      (ops : List Op) (engine : GuardianEngine)
      → Guardian.Governance.run (map op_of ops) (engine_of stamp engine)
        ≡ engine_of stamp (run ops engine)
  unfolding run Guardian.Governance.run
  run-engine_of [] engine = refl
  run-engine_of (op ∷ ops) engine =
      ap (Guardian.Governance.run (map op_of ops)) (apply-engine_of op engine)
      ∙ run-engine_of ops (apply op engine)

  reports :
      (show : F64 → Text) (now : Guardian.GuardianRule → ℕ) (event : SystemEvent)
      (rs : List GuardianRule)
      → map report (
          filter_map
            (Guardian.Engine.match_event show now (event_of event))
            (keep (λ rule. rule.active) (map (rule_of stamp) rs)))
        ≡ map report_of (filter_map (match_event show event) (keep (λ rule. rule.active) rs))
  reports show now event [] = refl
  reports show now event (r ∷ rs) = elim (Bool-cases r.active) [
    | inr off ↦ rw off (reports show now event rs)
    | inl on ↦
        let crate_match = Guardian.Engine.match_event show now (event_of event) in
        let crate_rest = keep (λ rule. rule.active) (map (rule_of stamp) rs) in
        let rest = keep (λ rule. rule.active) rs in
        ap (λ ys. map report (filter_map crate_match ys))
          (keep_on (λ rule. rule.active) (rule_of stamp r) (map (rule_of stamp) rs) on)
        ∙ (map-filter_map crate_match report (rule_of stamp r) crate_rest
            ∙ (ap (λ o. prepend o (map report (filter_map crate_match crate_rest)))
                  (match_event-rule_of stamp show now event r)
                ∙ (ap (prepend (option_map report_of (match_event show event r)))
                      (reports show now event rs)
                    ∙ (sym (map-filter_map (match_event show event) report_of r rest)
                        ∙ sym (
                            ap (λ ys. map report_of (filter_map (match_event show event) ys))
                              (keep_on (λ rule. rule.active) r rs on))))))
  ]

  -- After the same calls in the same order, the kernel's engine reports for every event what the
  -- crate's does: interventions of the same rules, categories and reasons in the same order.
  pub evaluate-run :
      (show : F64 → Text) (now : Guardian.GuardianRule → ℕ) (event : SystemEvent) (ops : List Op)
      (engine : GuardianEngine)
      → map report (
          Guardian.Engine.evaluate show now
            (event_of event)
            (Guardian.Governance.run (map op_of ops) (engine_of stamp engine)))
        ≡ map report_of (evaluate show event (run ops engine))
  unfolding evaluate Guardian.Engine.evaluate
  evaluate-run show now event ops engine =
      ap (λ e. map report (Guardian.Engine.evaluate show now (event_of event) e))
        (run-engine_of ops engine)
      ∙ reports show now event (run ops engine).rules

-- Whatever calls a client of the kernel's guardian makes, in any order, a protected rule that is
-- active stays at its place, active and protected.
pub run-protected :
    (ops : List Op) (engine : GuardianEngine) (i : ℕ) (r : GuardianRule)
    → get_elem? engine.rules i ≡ some r
    → r.protected ≡ true
    → r.active ≡ true
    → (r' : GuardianRule) × (get_elem? (run ops engine).rules i ≡ some r')
      × (r'.id ≡ r.id)
      × (r'.protected ≡ true)
      × (r'.active ≡ true)
run-protected ops engine i r at protected active =
    let stamp : DateTime → ℕ = λ t. 0 in
    let (s, there, evolves) =
      Guardian.Governance.run-Evolves (map (op_of stamp) ops) (engine_of stamp engine) i
        (rule_of stamp r) (get_elem?-map (rule_of stamp) engine.rules i at) in
    let there' = ap (λ e. get_elem? e.rules i) (sym (run-engine_of stamp ops engine)) ∙ there in
    let (r', found, same) = get_elem?-map_inverse (rule_of stamp) (run ops engine).rules i there' in
    (
      r',
      found,
      sym (ap (λ x. x.id) same) ∙ evolves.same_id,
      sym (ap (λ x. x.protected) same) ∙ (evolves.same_protected ∙ protected),
      sym (ap (λ x. x.active) same) ∙ elim evolves.sanctuary [
        | inl kept ↦ kept ∙ active
        | inr (off, open_) ↦ absurd (cc (protected, open_))
      ],
    )
