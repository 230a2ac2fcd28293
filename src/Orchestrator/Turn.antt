-- ===== src/Orchestrator/Turn.antt =====
-- arona_agy/arona_orchestrator/src/turn.rs: one turn of the conversation about a permission. The
-- database, the state of the model and the grant are `&`-references that a turn changes, so a
-- turn is a function on the three. The `{:?}` text of a capability is a parameter.
use arona_os.Prelude.{
  ℕ, Text, F64, codes, List, [], ◌∷◌, ◌++◌, Option, none, some, Result, ok, err, ◌/◌, ltb,
  if◌then◌else◌,
}
use arona_os.Guardian.{Uuid, DateTime, GuardianRule}
use arona_os.Guardian.Engine.{GuardianEngine, Intervention, block, evaluate}
use arona_os.Permissions.{Capability, capability_partial_eq, PermissionTemplate}
use arona_os.Permissions.Grant.{PurposeGrant, ExpandError}
use arona_os.Adaptive.{TrustModel}
use arona_os.Memory.{MemoryRecord, Arithmetic}
use arona_os.Memory.Store.{Sled, Serde, MemoryStoreError}
use arona_os.Memory.Search.{Tokenizer}
use arona_os.Memory.Context.{build_context_block}
use arona_os.Cognition.{CognitionError, new_config, CognitionBackend}
use arona_os.Orchestrator.Prompts.{blocked_prompt, response_prompt}
use arona_os.Orchestrator.Confirmation.{
  ExpansionOutcome, expanded, awaiting_user_confirmation, expand_with_trust_check,
}
use arona_os.Orchestrator.GuardianGate.{derive_event_for_capability}

pub data TurnError (E F : Type 0) : Type 0 where
  memory : MemoryStoreError E F → TurnError E F
  cognition : CognitionError → TurnError E F
  expand_error : ExpandError → TurnError E F

pub data TurnOutcome : Type 0 where
  guardian_blocked : Uuid → Text → TurnOutcome
  permission : ExpansionOutcome → TurnOutcome

pub record TurnResult : Type 0 where
  pub outcome : TurnOutcome
  pub response_text : Text

-- What a turn may change.
pub record World (D S : Type 0) : Type 0 where
  pub database : D
  pub backend : S
  pub grant : PurposeGrant

abbrev pub reason_of : Intervention → Text
reason_of iv = elim iv.action [ block reason ↦ reason ]

abbrev situation_note : (Capability → Text) → ExpansionOutcome → Capability → Text
situation_note debug expanded capability =
    codes "信頼関係が十分に築かれているカテゴリのため、確認なしで即座に権限を 付与した("
    ++ (debug capability ++ codes ")。少し誇らしげに、その旨を伝えてください。")
situation_note debug awaiting_user_confirmation capability =
    codes "このカテゴリはまだ信頼スコアが十分でないため、権限はまだ付与していない。本当に許可してよいか、r4giさんに確認を取る必要がある("
    ++ (debug capability ++ codes ")。")

-- `min(4096) / 2`
abbrev pub context_budget : ℕ → ℕ
context_budget window = (if ltb window 4096 then window else 4096) / 2

-- `into_iter().next()`
abbrev pub next : List Intervention → Option Intervention
next [] = none
next (iv ∷ _) = some iv

-- The first intervention that the guardian reports on the event of the capability.
unfoldable pub first_intervention :
    (F64 → Text) → (GuardianRule → DateTime) → GuardianEngine → Capability → Option Intervention
first_intervention show stamp guardian capability = elim (derive_event_for_capability capability) [
  | none ↦ none
  | some event ↦ next (evaluate show stamp event guardian)
]

module _ {D V E F S : Type 0} (sled : Sled D V E) (serde : Serde V F) (tok : Tokenizer)
    (ar : Arithmetic) (model : CognitionBackend S) (show : F64 → Text)
    (debug : Capability → Text) where
  -- A call of the model, and the answer of the turn if the model succeeds.
  unfoldable pub answer :
      Text → ℕ → TurnOutcome → World D S → World D S × Result TurnResult (TurnError E F)
  answer prompt max_new_tokens outcome w =
      let config = new_config (model.max_supported_context w.backend) max_new_tokens in
      let (s, generated) = model.generate prompt config w.backend in
      elim generated [
        | ok text ↦
            (record w { backend = s }, ok (record { outcome = outcome; response_text = text }))
        | err e ↦ (record w { backend = s }, err (cognition e))
      ]

  -- Steps 3 and 4: the trust model is asked, and then the model answers.
  unfoldable pub permit :
      DateTime
      → TrustModel
      → PermissionTemplate
      → Capability
      → Text
      → Text
      → Text
      → World D S
      → World D S × Result TurnResult (TurnError E F)
  permit now gate template capability trust_category user_utterance memory_context w =
      let (grant, checked) =
        expand_with_trust_check now gate w.grant template capability trust_category in
      elim checked [
        | err e ↦ (record w { grant = grant }, err (expand_error e))
        | ok outcome ↦
            answer
              (response_prompt memory_context user_utterance
                (situation_note debug outcome capability))
              200 (permission outcome) (record w { grant = grant })
      ]

  -- Steps 2 to 4, with the memories in hand.
  unfoldable pub decide_and_answer :
      (GuardianRule → DateTime)
      → DateTime
      → GuardianEngine
      → TrustModel
      → PermissionTemplate
      → Capability
      → Text
      → Text
      → Text
      → World D S
      → World D S × Result TurnResult (TurnError E F)
  unfolding answer
  decide_and_answer stamp now guardian gate template capability trust_category user_utterance
        memory_context w =
      elim (first_intervention show stamp guardian capability) [
        | some iv ↦
            answer (blocked_prompt memory_context user_utterance (reason_of iv)) 150
              (guardian_blocked iv.rule_id (reason_of iv)) w
        | none ↦ permit now gate template capability trust_category user_utterance memory_context w
      ]

  unfoldable pub handle_permission_request :
      (MemoryRecord → DateTime)
      → (GuardianRule → DateTime)
      → DateTime
      → GuardianEngine
      → TrustModel
      → PermissionTemplate
      → Capability
      → Text
      → Text
      → World D S
      → World D S × Result TurnResult (TurnError E F)
  unfolding decide_and_answer permit answer
  handle_permission_request scored_at stamp now guardian gate template capability trust_category
        user_utterance w =
      let (d, found) =
        build_context_block sled serde tok ar now scored_at user_utterance
          (context_budget (model.max_supported_context w.backend)) w.database in
      elim found [
        | err e ↦ (record w { database = d }, err (memory e))
        | ok memory_context ↦
            decide_and_answer stamp now guardian gate template capability trust_category
              user_utterance memory_context (record w { database = d })
      ]
