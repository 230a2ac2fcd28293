-- ===== src/Orchestrator/Confirmation.antt =====
-- arona_agy/arona_orchestrator/src/confirmation.rs: the gate that asks the trust model. The gate
-- holds a `&mut TrustModel` and nothing else, so it is the model.
use arona_os.Prelude.{
  ◌≡◌, ◌⊎◌, inl, inr, Text, true, false, Result, ok, err, ◌>>=◌, arith, if◌then◌else◌, contains,
  Bool-cases,
}
use arona_os.Guardian.{DateTime}
use arona_os.Permissions.{Capability, capability_partial_eq, PermissionTemplate}
use arona_os.Permissions.Grant.{PurposeGrant, ExpandError, not_in_template, expand}
use arona_os.Adaptive.{
  ApprovalManner, TrustModel, record_approval, declare_no_confirmation_needed,
  should_skip_confirmation,
}

pub data ConfirmationDecision : Type 0 where
  auto_approved needs_user_confirmation : ConfirmationDecision

pub data ExpansionOutcome : Type 0 where
  expanded awaiting_user_confirmation : ExpansionOutcome

unfoldable pub decide : Text → TrustModel → ConfirmationDecision
decide category gate =
    if should_skip_confirmation category gate then auto_approved else needs_user_confirmation

abbrev pub record_user_response : DateTime → Text → ApprovalManner → TrustModel → TrustModel
record_user_response = record_approval

abbrev pub record_explicit_declaration : DateTime → Text → TrustModel → TrustModel
record_explicit_declaration = declare_no_confirmation_needed

-- The grant is `&mut`, so it comes back beside the result.
unfoldable pub expand_with_trust_check :
    DateTime
    → TrustModel
    → PurposeGrant
    → PermissionTemplate
    → Capability
    → Text
    → PurposeGrant × Result ExpansionOutcome ExpandError
expand_with_trust_check now gate grant template capability trust_category =
    elim (decide trust_category gate) [
      | auto_approved ↦
          let (grant', answer) = expand now template capability grant in
          (grant', answer >>= λ _. ok expanded)
      | needs_user_confirmation ↦ (grant, ok awaiting_user_confirmation)
    ]

-- The grant is changed only for a category whose confirmation may be skipped, and then exactly as
-- `expand` changes it, with its error passed on; for any other the grant stays and the user is
-- asked.
pub expand_with_trust_check-outcomes :
    (now : DateTime) (gate : TrustModel) (grant : PurposeGrant) (template : PermissionTemplate)
    (c : Capability) (category : Text)
    → ((should_skip_confirmation category gate ≡ false)
        × (expand_with_trust_check now gate grant template c category
            ≡ (grant, ok awaiting_user_confirmation)))
      ⊎ ((should_skip_confirmation category gate ≡ true)
          × ((expand_with_trust_check now gate grant template c category).0
              ≡ (expand now template c grant).0)
          × ((expand_with_trust_check now gate grant template c category).1 ≡ (
              if contains template.full_capabilities c then ok expanded else err not_in_template)))
unfolding expand_with_trust_check decide expand
expand_with_trust_check-outcomes now gate grant template c category =
    elim (Bool-cases (should_skip_confirmation category gate)) [
      | inl skip ↦ inr (skip, ground arith, ground arith)
      | inr ask ↦ inl (ask, ground arith)
    ]
