-- ===== src/Guardian/Governance.antt =====
-- What the engine's operations may do to a rule, over any sequence of them.
use arona_os.Prelude.{
  ℕ, ◌≡◌, refl, ◌⊎◌, inl, inr, true, false, List, [], ◌∷◌, none, some, ok, err, arith, Bool-cases,
  Option-cases, get_elem?, get_elem?-append_left,
}
use arona_os.Guardian.{Uuid, GuardianRule}
use arona_os.Guardian.Engine.{
  GuardianEngine, rule_not_found, protected_rule, find, modify, relax, add_rule, relax_rule,
  record_false_positive, after_false_positive,
}
use arona_os.Guardian.Rules.{get_elem?-modify, find-modify_self}

-- The calls of a client.
pub data Op : Type 0 where
  add : GuardianRule → Op
  relax_by_id : Uuid → Op
  false_positive : Uuid → Op

unfoldable pub apply : Op → GuardianEngine → GuardianEngine
apply (add rule) engine = (add_rule rule engine).0
apply (relax_by_id id) engine = (relax_rule id engine).0
apply (false_positive id) engine = (record_false_positive id engine).0

unfoldable pub run : List Op → GuardianEngine → GuardianEngine
run [] engine = engine
run (op ∷ ops) engine = run ops (apply op engine)

-- What becomes of one rule: all that describes it stays, and so does its activity, unless it is an
-- unprotected rule that was switched off.
pub record Evolves (r r' : GuardianRule) : Type 0 where
  pub same_id : r'.id ≡ r.id
  pub same_category : r'.category ≡ r.category
  pub same_method : r'.method ≡ r.method
  pub same_origin : r'.origin ≡ r.origin
  pub same_protected : r'.protected ≡ r.protected
  pub sanctuary : (r'.active ≡ r.active) ⊎ ((r'.active ≡ false) × (r.protected ≡ false))

Evolves-refl : (r : GuardianRule) → Evolves r r
Evolves-refl r = ground arith

Evolves-trans : {r s t : GuardianRule} → Evolves r s → Evolves s t → Evolves r t
Evolves-trans a b = record {
  same_id = cc (a.same_id, b.same_id);
  same_category = cc (a.same_category, b.same_category);
  same_method = cc (a.same_method, b.same_method);
  same_origin = cc (a.same_origin, b.same_origin);
  same_protected = cc (a.same_protected, b.same_protected);
  sanctuary = ground (arith, a.sanctuary, b.sanctuary, a.same_protected);
}

Evolves-relax : (r : GuardianRule) → r.protected ≡ false → Evolves r (relax r)
Evolves-relax r h = ground arith

Evolves-after_false_positive : (r : GuardianRule) → Evolves r (after_false_positive r)
Evolves-after_false_positive r = ground arith

-- The rule at place `i` has a successor at place `i`.
abbrev Successor : GuardianRule → ℕ → List GuardianRule → Type 0
Successor r i rs = (r' : GuardianRule) × (get_elem? rs i ≡ some r') × Evolves r r'

module _ (e : GuardianEngine) (i : ℕ) (r : GuardianRule) (at : get_elem? e.rules i ≡ some r) where
  modify-Successor :
      (id : Uuid) (f : GuardianRule → GuardianRule)
      → (find id e.rules ≡ some r → Evolves r (f r))
      → Successor r i (modify id f e.rules)
  modify-Successor id f good = elim (get_elem?-modify id f e.rules i at) [
    | inl same ↦ (r, same, Evolves-refl r)
    | inr (changed, found) ↦ (f r, changed, good found)
  ]

  add_rule-Successor : (rule : GuardianRule) → Successor r i (add_rule rule e).0.rules
  unfolding add_rule
  add_rule-Successor rule = (r, get_elem?-append_left e.rules (rule ∷ []) i at, Evolves-refl r)

  relax_rule-Successor : (id : Uuid) → Successor r i (relax_rule id e).0.rules
  unfolding relax_rule
  relax_rule-Successor id = elim (Option-cases (find id e.rules)) [
    | inl missing ↦ rw (missing, relax_rule) (r, at, Evolves-refl r)
    | inr (rule, found) ↦
        rw (found, relax_rule)
          (elim (Bool-cases rule.protected) [
            | inl p ↦ rw p (r, at, Evolves-refl r)
            | inr n ↦
                rw n (
                  modify-Successor id relax
                    λ here. Evolves-relax r (ground (arith, found, here, n)))
          ])
  ]

  record_false_positive-Successor : (id : Uuid) → Successor r i (record_false_positive id e).0.rules
  unfolding record_false_positive
  record_false_positive-Successor id = elim (Option-cases (find id e.rules)) [
    | inl missing ↦ rw (missing, record_false_positive) (r, at, Evolves-refl r)
    | inr (rule, found) ↦
        rw (found, record_false_positive)
          (modify-Successor id after_false_positive λ here. Evolves-after_false_positive r)
  ]

apply-Successor :
    (op : Op) (e : GuardianEngine) (i : ℕ) (r : GuardianRule)
    → get_elem? e.rules i ≡ some r
    → Successor r i (apply op e).rules
unfolding apply
apply-Successor (add rule) e i r at = add_rule-Successor e i r at rule
apply-Successor (relax_by_id id) e i r at = relax_rule-Successor e i r at id
apply-Successor (false_positive id) e i r at = record_false_positive-Successor e i r at id

-- Whatever calls a client makes, in any order, the rule at place `i` of the engine is still at
-- place `i` afterwards, with the id, category, method, origin and protection that it had;
-- and it is as active as before, or it is unprotected and switched off.
pub run-Evolves :
    (ops : List Op) (e : GuardianEngine) (i : ℕ) (r : GuardianRule)
    → get_elem? e.rules i ≡ some r
    → (r' : GuardianRule) × (get_elem? (run ops e).rules i ≡ some r') × Evolves r r'
unfolding run
run-Evolves [] e i r at = (r, at, Evolves-refl r)
run-Evolves (op ∷ ops) e i r at =
    let (s, at', first) = apply-Successor op e i r at in
    let (t, at'', later) = run-Evolves ops (apply op e) i s at' in
    (t, at'', Evolves-trans first later)

-- What `relax_rule` answers and does is decided by the first rule with the id: none is an error, a
-- protected one is an error, and neither changes the engine; else that rule alone is switched off.
pub relax_rule-outcomes :
    (id : Uuid) (e : GuardianEngine)
    → ((find id e.rules ≡ none) × (relax_rule id e ≡ (e, err (rule_not_found id))))
      ⊎ ((r : GuardianRule) × (find id e.rules ≡ some r)
          × (((r.protected ≡ true) × (relax_rule id e ≡ (e, err (protected_rule id))))
              ⊎ ((r.protected ≡ false)
                  × ((relax_rule id e).1 ≡ ok tt)
                  × (find id (relax_rule id e).0.rules ≡ some (relax r)))))
unfolding relax_rule
relax_rule-outcomes id e = elim (Option-cases (find id e.rules)) [
  | inl missing ↦ inl (missing, rw (missing, relax_rule))
  | inr (r, found) ↦ inr (
    r,
    found,
    elim (Bool-cases r.protected) [
      | inl p ↦ inl (p, rw (found, relax_rule, p))
      | inr n ↦
          inr (n, ground arith, ground (arith, find-modify_self id relax (λ x. refl) e.rules found))
    ],
  )
]
