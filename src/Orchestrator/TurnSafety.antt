-- ===== src/Orchestrator/TurnSafety.antt =====
-- The safety of arona_agy/arona_orchestrator/src/turn.rs: the guardian comes before the trust
-- model, and only the trust model opens the way to the grant.
use mathlib.Core.List.{Memᴰ}
use arona_os.Prelude.{
  ℕ, ◌≡◌, refl, sym, ◌∙◌, ◌⊎◌, inl, inr, Text, F64, true, Result, ok, err, arith, subst, ap,
  Bool-cases, Option-cases, Result-cases,
}
use arona_os.Guardian.{DateTime, GuardianRule}
use arona_os.Guardian.Engine.{GuardianEngine}
use arona_os.Permissions.{Capability, capability_partial_eq, PermissionTemplate}
use arona_os.Permissions.Grant.{PurposeGrant, ExpandError, expand}
use arona_os.Adaptive.{TrustModel, should_skip_confirmation}
use arona_os.Memory.{MemoryRecord, Arithmetic}
use arona_os.Memory.Store.{Sled, Serde}
use arona_os.Memory.Search.{Tokenizer}
use arona_os.Memory.Context.{build_context_block}
use arona_os.Cognition.{new_config, CognitionBackend}
use arona_os.Orchestrator.Confirmation.{ExpansionOutcome, decide, expand_with_trust_check}
use arona_os.Orchestrator.Gate.{
  Forbids, IsAllowed, IsAllowed-of-silence, first_intervention-Forbids, first_intervention-Blamed,
}
use arona_os.Orchestrator.Turn.{
  TurnError, TurnOutcome, guardian_blocked, TurnResult, World, context_budget, first_intervention,
  reason_of, answer, permit, decide_and_answer, handle_permission_request,
}

-- What a turn may do to the grant: nothing, or, where no rule forbids the capability and the
-- category is trusted, what `expand` does.
abbrev pub Justified :
    DateTime
    → GuardianEngine
    → TrustModel
    → PermissionTemplate
    → Capability
    → Text
    → PurposeGrant
    → PurposeGrant
    → Type 0
Justified now guardian gate template c category before after =
    (after ≡ before)
    ⊎ (IsAllowed guardian c
        × (should_skip_confirmation category gate ≡ true)
        × (after ≡ (expand now template c before).0))

-- The result is a failure, or an answer whose outcome satisfies `P`.
abbrev pub Ends :
    {E F : Type 0} → Result TurnResult (TurnError E F) → (TurnOutcome → Type 0) → Type 0
Ends {E} {F} r P =
    ((e : TurnError E F) × (r ≡ err e)) ⊎ ((res : TurnResult) × (r ≡ ok res) × P res.outcome)

-- The outcome is a block in the name of a rule of the guardian that forbids the capability.
abbrev pub IsBlocked : GuardianEngine → Capability → TurnOutcome → Type 0
IsBlocked guardian c o =
    (r : GuardianRule) × (reason : Text) × Memᴰ r guardian.rules
    × Forbids r c
    × (o ≡ guardian_blocked r.id reason)

module _ {D V E F S : Type 0} (sled : Sled D V E) (serde : Serde V F) (tok : Tokenizer)
    (ar : Arithmetic) (model : CognitionBackend S) (show : F64 → Text)
    (debug : Capability → Text) where
  abbrev Answer : Type 0
  Answer = World D S × Result TurnResult (TurnError E F)

  abbrev say : Text → ℕ → TurnOutcome → World D S → Answer
  say = answer sled serde tok ar model show debug

  answer-grant :
      (prompt : Text) (n : ℕ) (o : TurnOutcome) (w : World D S)
      → (say prompt n o w).0.grant ≡ w.grant
  unfolding answer
  answer-grant prompt n o w =
      elim (Result-cases
        (model.generate prompt (new_config (model.max_supported_context w.backend) n)
          w.backend).1) [
            | inl (text, said) ↦ ground (arith, said)
            | inr (e, failed) ↦ ground (arith, failed)
          ]

  answer-outcome :
      (prompt : Text) (n : ℕ) (o : TurnOutcome) (w : World D S) (res : TurnResult)
      → (say prompt n o w).1 ≡ ok res
      → res.outcome ≡ o
  unfolding answer
  answer-outcome prompt n o w res h =
      elim (Result-cases
        (model.generate prompt (new_config (model.max_supported_context w.backend) n)
          w.backend).1) [
            | inl (text, said) ↦ ground (arith, said, h)
            | inr (e, failed) ↦ ground (arith, failed, h)
          ]

  module _ (now : DateTime) (gate : TrustModel) (template : PermissionTemplate) (c : Capability)
      (category : Text) where
    abbrev trusted : World D S → PurposeGrant × Result ExpansionOutcome ExpandError
    trusted w = expand_with_trust_check now gate w.grant template c category

    permit-grant :
        (utterance context : Text) (w : World D S)
        → (permit sled serde tok ar model show debug now gate template c category utterance context
            w).0.grant
          ≡ (trusted w).0
    unfolding permit expand_with_trust_check
    permit-grant utterance context w = elim (Result-cases (trusted w).1) [
      | inl (o, passed) ↦ rw (passed, permit) (answer-grant _ _ _ _)
      | inr (e, failed) ↦ rw (failed, permit) refl
    ]

    trusted-grant :
        (w : World D S)
        → ((trusted w).0 ≡ w.grant)
          ⊎ ((should_skip_confirmation category gate ≡ true)
              × ((trusted w).0 ≡ (expand now template c w.grant).0))
    unfolding expand_with_trust_check decide
    trusted-grant w = elim (Bool-cases (should_skip_confirmation category gate)) [
      | inl skip ↦ inr (skip, ground (arith, skip))
      | inr ask ↦ inl (ground (arith, ask))
    ]

    decide_and_answer-grant :
        (guardian : GuardianEngine) (stamp : GuardianRule → DateTime) (utterance context : Text)
        (w : World D S)
        → Justified now guardian gate template c category w.grant
            (decide_and_answer sled serde tok ar model show debug stamp now guardian gate template c
              category utterance context w).0.grant
    unfolding decide_and_answer
    decide_and_answer-grant guardian stamp utterance context w =
        elim (Option-cases (first_intervention show stamp guardian c)) [
          | inr (iv, stops) ↦ inl (rw (stops, decide_and_answer) (answer-grant _ _ _ _))
          | inl quiet ↦ elim (trusted-grant w) [
            | inl same ↦
                inl (rw (quiet, decide_and_answer) (permit-grant utterance context w ∙ same))
            | inr (skip, grown) ↦ inr (
              IsAllowed-of-silence show stamp guardian c quiet,
              skip,
              rw (quiet, decide_and_answer) (permit-grant utterance context w ∙ grown),
            )
          ]
        ]

    -- A turn, whatever fails in it, leaves the grant as it was unless no active rule of the
    -- guardian fires on the access that the capability is for, and the trust model lets the
    -- category skip confirmation; then it changes the grant exactly as `expand` does.
    pub handle_permission_request-grant :
        (guardian : GuardianEngine) (stamp : GuardianRule → DateTime)
        (scored_at : MemoryRecord → DateTime) (utterance : Text) (w : World D S)
        → Justified now guardian gate template c category w.grant
            (handle_permission_request sled serde tok ar model show debug scored_at stamp now
              guardian gate template c category utterance w).0.grant
    unfolding handle_permission_request
    handle_permission_request-grant guardian stamp scored_at utterance w =
        elim (Result-cases
          (build_context_block sled serde tok ar now scored_at utterance
            (context_budget (model.max_supported_context w.backend)) w.database).1) [
              | inl (context, found) ↦
                  rw (found, handle_permission_request)
                    (decide_and_answer-grant guardian stamp utterance context _)
              | inr (e, failed) ↦ rw (failed, handle_permission_request) (inl refl)
            ]

    answer-Ends :
        (prompt : Text) (n : ℕ) (o : TurnOutcome) (w : World D S) (P : TurnOutcome → Type 0)
        → P o
        → Ends (say prompt n o w).1 P
    answer-Ends prompt n o w P h = elim (Result-cases (say prompt n o w).1) [
      | inl (res, said) ↦ inr (res, said, subst P (sym (answer-outcome prompt n o w res said)) h)
      | inr (e, failed) ↦ inl (e, failed)
    ]

    -- When a rule in force fires on the access that the capability is for, the turn leaves the grant
    -- as it was, and it fails or ends blocked in the name of such a rule.
    pub handle_permission_request-IsBlocked :
        (guardian : GuardianEngine) (stamp : GuardianRule → DateTime)
        (scored_at : MemoryRecord → DateTime) (utterance : Text) (w : World D S) (r : GuardianRule)
        → Memᴰ r guardian.rules
        → Forbids r c
        → ((handle_permission_request sled serde tok ar model show debug scored_at stamp now
              guardian gate template c category utterance w).0.grant
            ≡ w.grant)
          × Ends
              (handle_permission_request sled serde tok ar model show debug scored_at stamp now
                guardian gate template c category utterance w).1
              (IsBlocked guardian c)
    unfolding handle_permission_request decide_and_answer
    handle_permission_request-IsBlocked guardian stamp scored_at utterance w r m forbids =
        let (iv, stops) = first_intervention-Forbids show stamp guardian r c m forbids in
        let (s, at, cause, named) = first_intervention-Blamed show stamp guardian c iv stops in
        elim (Result-cases
          (build_context_block sled serde tok ar now scored_at utterance
            (context_budget (model.max_supported_context w.backend)) w.database).1) [
              | inl (context, found) ↦
                  rw (found, handle_permission_request, stops, decide_and_answer)
                    (
                      answer-grant _ _ _ _,
                      answer-Ends _ _ _ _ (IsBlocked guardian c) (
                        s,
                        reason_of iv,
                        at,
                        cause,
                        ap (λ i. guardian_blocked i (reason_of iv)) named,
                      ),
                    )
              | inr (e, failed) ↦ rw (failed, handle_permission_request) (refl, inl (_, refl))
            ]
