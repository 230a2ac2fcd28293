-- ===== src/Orchestrator/Gate.antt =====
-- What the guardian holds against a capability, said without the event that stands for it.
use mathlib.Core.List.{Memᴰ}
use arona_os.Prelude.{
  ◌≡◌, refl, Text, F64, codes, true, List, [], ◌∷◌, none, some, All, All-of-Memᴰ,
}
use arona_os.Guardian.{DateTime, GuardianRule, file_operation}
use arona_os.Guardian.Engine.{GuardianEngine, Intervention}
use arona_os.Guardian.Fires.{Fires}
use arona_os.Guardian.Evaluation.{evaluate_sound, evaluate_complete}
use arona_os.Permissions.{
  Capability, file_system_access, network_port, process_execution, environment_variable, read_only,
  read_write,
}
use arona_os.Orchestrator.GuardianGate.{derive_event_for_capability}
use arona_os.Orchestrator.Turn.{first_intervention, next}

-- The rule is in force and fires on the reading, or the writing, of the path.
abbrev pub Forbids : GuardianRule → Capability → Type 0
Forbids r (file_system_access path read_only) =
    (r.active ≡ true) × Fires r.method (file_operation path (codes "read") 0)
Forbids r (file_system_access path read_write) =
    (r.active ≡ true) × Fires r.method (file_operation path (codes "write") 0)
Forbids r _ = ⊥

-- No rule of the guardian forbids the capability.
abbrev pub IsAllowed : GuardianEngine → Capability → Type 0
IsAllowed guardian c = All (λ r. ¬ Forbids r c) guardian.rules

next-some :
    (ivs : List Intervention) (iv : Intervention)
    → Memᴰ iv ivs
    → (first : Intervention) × (next ivs ≡ some first)
next-some [] iv m = elim m [ ]
next-some (x ∷ xs) iv m = (x, refl)

Memᴰ-next : (ivs : List Intervention) (iv : Intervention) → next ivs ≡ some iv → Memᴰ iv ivs
Memᴰ-next [] iv e = absurd (cc)
Memᴰ-next (x ∷ xs) iv e = Memᴰ.head (cc)

module _ (show : F64 → Text) (stamp : GuardianRule → DateTime) (guardian : GuardianEngine) where
  pub first_intervention-Forbids :
      (r : GuardianRule) (c : Capability)
      → Memᴰ r guardian.rules
      → Forbids r c
      → (iv : Intervention) × (first_intervention show stamp guardian c ≡ some iv)
  unfolding first_intervention derive_event_for_capability
  first_intervention-Forbids r (file_system_access path read_only) m (on, fires) =
      let ev = file_operation path (codes "read") 0 in
      let (iv, at, _) = evaluate_complete show stamp ev guardian r m on fires in next-some _ iv at
  first_intervention-Forbids r (file_system_access path read_write) m (on, fires) =
      let ev = file_operation path (codes "write") 0 in
      let (iv, at, _) = evaluate_complete show stamp ev guardian r m on fires in next-some _ iv at
  first_intervention-Forbids r (network_port _ _) m v = absurd v
  first_intervention-Forbids r (process_execution _) m v = absurd v
  first_intervention-Forbids r (environment_variable _) m v = absurd v

  -- Silence means that nothing is forbidden.
  pub IsAllowed-of-silence :
      (c : Capability) → first_intervention show stamp guardian c ≡ none → IsAllowed guardian c
  IsAllowed-of-silence c silent =
      All-of-Memᴰ (λ r. ¬ Forbids r c) guardian.rules
        (λ r m v. let (iv, speaks) = first_intervention-Forbids r c m v in cc (silent, speaks))

  -- The rule that an intervention names.
  abbrev pub Blamed : Capability → Intervention → Type 0
  Blamed c iv = (r : GuardianRule) × Memᴰ r guardian.rules × Forbids r c × (iv.rule_id ≡ r.id)

  pub first_intervention-Blamed :
      (c : Capability) (iv : Intervention)
      → first_intervention show stamp guardian c ≡ some iv
      → Blamed c iv
  unfolding first_intervention derive_event_for_capability
  first_intervention-Blamed (file_system_access path read_only) iv e =
      let ev = file_operation path (codes "read") 0 in
      let (r, m, on, fires, about) = evaluate_sound show stamp ev guardian iv (Memᴰ-next _ iv e) in
      (r, m, (on, fires), about.of_rule)
  first_intervention-Blamed (file_system_access path read_write) iv e =
      let ev = file_operation path (codes "write") 0 in
      let (r, m, on, fires, about) = evaluate_sound show stamp ev guardian iv (Memᴰ-next _ iv e) in
      (r, m, (on, fires), about.of_rule)
  first_intervention-Blamed (network_port _ _) iv e = absurd (cc)
  first_intervention-Blamed (process_execution _) iv e = absurd (cc)
  first_intervention-Blamed (environment_variable _) iv e = absurd (cc)
