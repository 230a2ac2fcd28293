-- ===== src/Guardian/Evaluation.antt =====
-- What `evaluate` reports: soundness, completeness, and how the operations change its answer.
use mathlib.Core.List.{Memᴰ}
use arona_os.Prelude.{
  ◌≡◌, refl, sym, subst, Memᴰ-cons, ◌≢◌, ◌⊎◌, inl, inr, Text, F64, Bool, true, false, not, List, [],
  ◌∷◌, ◌++◌, none, ok, arith, nat_eq, nat_eq_iff, Bool-cases, Option-cases, keep, keep-append,
  filter_map, filter_map-append, All, text_partial_eq,
}
use arona_os.Guardian.{Uuid, DateTime, GuardianRule, SystemEvent}
use arona_os.Guardian.Engine.{
  GuardianEngine, Intervention, modify, relax, add_rule, relax_rule, action_for, match_event,
  evaluate,
}
use arona_os.Guardian.Fires.{Fires, Fires→action_for, action_for→Fires}

-- No two rules share an id.
abbrev pub IsDistinct : List GuardianRule → Type 0
IsDistinct [] = Unit
IsDistinct (r ∷ rs) = All (λ x. x.id ≢ r.id) rs × IsDistinct rs

-- The intervention is not of the rule with this id.
abbrev pub other : Uuid → Intervention → Bool
other id iv = not (nat_eq iv.rule_id id)

module _ (show : F64 → Text) (now : GuardianRule → DateTime) (ev : SystemEvent) where
  abbrev report : List GuardianRule → List Intervention
  report rs = filter_map (match_event show now ev) (keep (λ rule. rule.active) rs)

  -- The intervention names its rule and the event.
  pub record Reports (r : GuardianRule) (iv : Intervention) : Type 0 where
    pub of_rule : iv.rule_id ≡ r.id
    pub of_category : iv.category ≡ r.category
    pub of_event : iv.triggered_by ≡ ev

  -- A rule adds one intervention at the front if it is active and fires, and else none.
  report-cases :
      (r : GuardianRule) (rs : List GuardianRule)
      → ((report (r ∷ rs) ≡ report rs)
          × ((r.active ≡ false) ⊎ (action_for show r.method ev ≡ none)))
        ⊎ ((iv : Intervention) × (report (r ∷ rs) ≡ iv ∷ report rs)
            × (r.active ≡ true)
            × Fires r.method ev
            × Reports r iv)
  unfolding match_event
  report-cases r rs = elim (Bool-cases r.active) [
    | inr off ↦ inl (ground arith, inl off)
    | inl on ↦ elim (Option-cases (action_for show r.method ev)) [
      | inl quiet ↦ inl (ground arith, inr quiet)
      | inr (a, acts) ↦ inr (
        record {
          rule_id = r.id;
          category = r.category;
          action = a;
          triggered_by = ev;
          timestamp = now r;
        },
        ground arith,
        on,
        action_for→Fires show r.method ev acts,
        record { of_rule = refl; of_category = refl; of_event = refl },
      )
    ]
  ]

  -- A rule that is active, fires, and is the one that `iv` reports.
  abbrev pub Cause : Intervention → List GuardianRule → Type 0
  Cause iv rs =
      (r : GuardianRule) × Memᴰ r rs × (r.active ≡ true) × Fires r.method ev × Reports r iv

  Cause-tail :
      (x : GuardianRule) (rs : List GuardianRule) (iv : Intervention)
      → Cause iv rs
      → Cause iv (x ∷ rs)
  Cause-tail x rs iv (r, at, on, fires, about) = (r, Memᴰ.tail at, on, fires, about)

  report_sound : (rs : List GuardianRule) (iv : Intervention) → Memᴰ iv (report rs) → Cause iv rs
  report_sound [] iv m = elim m [ ]
  report_sound (r ∷ rs) iv m =
      let deeper = λ (m' : Memᴰ iv (report rs)). Cause-tail r rs iv (report_sound rs iv m') in
      elim (report-cases r rs) [
        | inl (e, _) ↦ deeper (subst (λ l. Memᴰ iv l) e m)
        | inr (iv', e, on, fires, about) ↦
            elim (Memᴰ-cons iv iv' (report rs) (subst (λ l. Memᴰ iv l) e m)) [
              | inl same ↦ (r, Memᴰ.head refl, on, fires, subst (Reports r) (sym same) about)
              | inr m' ↦ deeper m'
            ]
      ]

  report-tail :
      (x : GuardianRule) (rs : List GuardianRule) (iv : Intervention)
      → Memᴰ iv (report rs)
      → Memᴰ iv (report (x ∷ rs))
  report-tail x rs iv at = elim (report-cases x rs) [
    | inl (e, _) ↦ subst (λ l. Memᴰ iv l) (sym e) at
    | inr (iv', e, _, _, _) ↦ subst (λ l. Memᴰ iv l) (sym e) (Memᴰ.tail at)
  ]

  report_complete :
      (rs : List GuardianRule) (r : GuardianRule)
      → Memᴰ r rs
      → r.active ≡ true
      → Fires r.method ev
      → (iv : Intervention) × Memᴰ iv (report rs) × Reports r iv
  report_complete [] r m on fires = elim m [ ]
  report_complete (x ∷ rs) r (Memᴰ.head e) on fires = elim (report-cases x rs) [
    | inl (_, inl off) ↦ absurd (cc (e, on, off))
    | inl (_, inr quiet) ↦ absurd (
        let (a, acts) = Fires→action_for show (subst (λ y. Fires y.method ev) e fires) in
        cc (acts, quiet))
    | inr (iv, e', _, _, about) ↦ (
      iv,
      subst (λ l. Memᴰ iv l) (sym e') (Memᴰ.head refl),
      subst (λ y. Reports y iv) (sym e) about,
    )
  ]
  report_complete (x ∷ rs) r (Memᴰ.tail m) on fires =
      let (iv, at, about) = report_complete rs r m on fires in (iv, report-tail x rs iv at, about)

  -- Every intervention comes from an active rule of the engine whose method responds to the event,
  -- and names that rule's id and category and the event.
  pub evaluate_sound :
      (e : GuardianEngine) (iv : Intervention) → Memᴰ iv (evaluate show now ev e) → Cause iv e.rules
  unfolding evaluate
  evaluate_sound e iv m = report_sound e.rules iv m

  -- Every active rule whose method responds to the event is reported by an intervention.
  pub evaluate_complete :
      (e : GuardianEngine) (r : GuardianRule)
      → Memᴰ r e.rules
      → r.active ≡ true
      → Fires r.method ev
      → (iv : Intervention) × Memᴰ iv (evaluate show now ev e) × Reports r iv
  unfolding evaluate
  evaluate_complete e r m on fires = report_complete e.rules r m on fires

  -- A rule that is added is in force at once: its interventions come behind those of the others,
  -- which do not change.
  pub evaluate-add_rule :
      (rule : GuardianRule) (e : GuardianEngine)
      → evaluate show now ev (add_rule rule e).0
        ≡ evaluate show now ev e ++ evaluate show now ev (record { rules = rule ∷ [] })
  unfolding evaluate add_rule
  evaluate-add_rule rule e =
      rw (keep-append (λ (r : GuardianRule). r.active) e.rules (rule ∷ []))
        (filter_map-append (match_event show now ev) _ _)

  report-other :
      (id : Uuid) (rs : List GuardianRule)
      → All (λ x. x.id ≢ id) rs
      → keep (other id) (report rs) ≡ report rs
  report-other id [] h = refl
  report-other id (x ∷ rs) (ne, h) = elim (report-cases x rs) [
    | inl (e, _) ↦ rw e (report-other id rs h)
    | inr (iv, e, _, _, about) ↦
        rw e (ground (arith, report-other id rs h, about.of_rule, nat_eq_iff iv.rule_id id, ne))
  ]

  report-relax :
      (id : Uuid) (rs : List GuardianRule)
      → IsDistinct rs
      → report (modify id relax rs) ≡ keep (other id) (report rs)
  unfolding modify match_event
  report-relax id [] d = refl
  report-relax id (x ∷ rs) (fresh, d) = elim (Bool-cases (nat_eq x.id id)) [
    | inl same ↦
        let fresh' : All (λ y. y.id ≢ id) rs =
          subst (λ k. All (λ (y : GuardianRule). y.id ≢ k) rs) ((nat_eq_iff x.id id).0 same)
            fresh in
        ground (arith, report-other id rs fresh')
    | inr differs ↦ ground (arith, report-relax id rs d)
  ]

  -- Where the ids are distinct and `relax_rule` succeeds, what the engine reports afterwards is
  -- what it reported before, less the interventions of the relaxed rule.
  pub evaluate-relax_rule :
      (id : Uuid) (e : GuardianEngine)
      → IsDistinct e.rules
      → (relax_rule id e).1 ≡ ok tt
      → evaluate show now ev (relax_rule id e).0 ≡ keep (other id) (evaluate show now ev e)
  unfolding evaluate relax_rule
  evaluate-relax_rule id e d done = ground (arith, report-relax id e.rules d)
