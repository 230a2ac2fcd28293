-- ===== src/Audit.antt =====
-- The audit logs arona_agy/arona_guardian/src/audit.rs, arona_agy/arona_permissions/src/audit.rs and
-- arona_agy/arona_adaptive/src/audit.rs. The id of a record and the time are arguments, and what
-- other libraries print is a parameter.
pub mod Logged
mod Examples
use arona_os.Prelude.{
  ℕ, Text, codes, Bool, true, false, List, [], ◌∷◌, ◌++◌, some, none, ok, if◌then◌else◌, map,
}
use arona_os.Guardian.{
  Uuid, DateTime, ThreatCategory, ransomware, hardware_failure, data_corruption, system_corruption,
}
use arona_os.Guardian.Engine.{Intervention, InterventionAction, block}
use arona_os.Permissions.{Capability}
use arona_os.Permissions.Grant.{PurposeGrant, GrantStatus, active, dormant, revoked}
use arona_os.Adaptive.{ApprovalManner, immediate, hesitant, TrustScore}
use arona_os.Memory.{
  MemoryCategory, system, arona, F32, RecallScore, apply_importance, MemoryRecord, new_record,
}
use arona_os.Memory.Store.{Sled, Serde, MemoryStoreError, put, Action}

-- `{}` of a `Uuid`, `to_rfc3339`, the day of a time, `{:.1}` of a number of halves, and `{:?}` of a
-- capability, which escapes its text.
pub record Formats : Type 0 where
  pub show_uuid : Uuid → Text
  pub to_rfc3339 : DateTime → Text
  pub show_day : DateTime → Text
  pub show_tenths : ℕ → Text
  pub debug_capability : Capability → Text

-- The derived `{:?}` of enumerations, and `{}` of a `bool`.
abbrev pub debug_category : ThreatCategory → Text
debug_category ransomware = codes "Ransomware"
debug_category hardware_failure = codes "HardwareFailure"
debug_category data_corruption = codes "DataCorruption"
debug_category system_corruption = codes "SystemCorruption"

abbrev pub debug_status : GrantStatus → Text
debug_status active = codes "Active"
debug_status dormant = codes "Dormant"
debug_status revoked = codes "Revoked"

abbrev pub debug_manner : ApprovalManner → Text
debug_manner immediate = codes "Immediate"
debug_manner hesitant = codes "Hesitant"

abbrev pub show_bool : Bool → Text
show_bool b = if b then codes "true" else codes "false"

abbrev pub reason_of : InterventionAction → Text
reason_of (block reason) = reason

-- 0.8 and 0.6 as an `f32`.
abbrev pub intervention_importance : F32
intervention_importance = 0x3f4c_cccd

abbrev pub declaration_importance : F32
declaration_importance = 0x3f19_999a

abbrev pub weigh : F32 → MemoryRecord → MemoryRecord
weigh importance r = record r { recall = apply_importance importance r.recall }

pub data GrantEvent : Type 0 where
  created : GrantEvent
  expanded : Capability → GrantEvent
  became_dormant : GrantEvent
  was_revoked : GrantEvent

-- `join` of a vector of strings.
unfoldable pub join : Text → List Text → Text
join separator [] = []
join separator (line ∷ []) = line
join separator (line ∷ next ∷ rest) = line ++ (separator ++ join separator (next ∷ rest))

module _ (formats : Formats) where
  unfoldable pub intervention_text : Intervention → Text
  intervention_text i =
      codes "[Guardian介入] カテゴリ="
      ++ (debug_category i.category
          ++ (codes " ルールID="
              ++ (formats.show_uuid i.rule_id
                  ++ (codes " 理由="
                      ++ (reason_of i.action
                          ++ (codes " 発生日時=" ++ formats.to_rfc3339 i.timestamp))))))

  unfoldable pub event_label : GrantEvent → Text
  event_label created = codes "権限付与を作成"
  event_label (expanded added) = codes "権限を拡張: " ++ formats.debug_capability added
  event_label became_dormant = codes "休眠判定(ユーザー確認待ち)"
  event_label was_revoked = codes "ユーザー承認により失効"

  unfoldable pub grant_text : PurposeGrant → GrantEvent → Text
  grant_text grant event =
      codes "[権限付与] 目的="
      ++ (grant.purpose
          ++ (codes " 状態="
              ++ (debug_status grant.status
                  ++ (codes " イベント="
                      ++ (event_label event ++ (codes " 付与ID=" ++ formats.show_uuid grant.id))))))

  unfoldable pub approval_text : TrustScore → ApprovalManner → Text
  approval_text score manner =
      codes "[信頼スコア] カテゴリ="
      ++ (score.category
          ++ (codes " 承認方法="
              ++ (debug_manner manner
                  ++ (codes " 現在の重み付き承認数="
                      ++ (formats.show_tenths score.weighted_approval_count
                          ++ (codes " 確認不要宣言=" ++ show_bool score.explicitly_confirmed))))))

  abbrev pub dormancy_line : PurposeGrant → Text
  dormancy_line grant =
      codes "- 「"
      ++ (grant.purpose ++ (codes "」(最終利用: " ++ (formats.show_day grant.last_used_at ++ codes ")")))

  unfoldable pub build_dormancy_notification : List PurposeGrant → Text
  build_dormancy_notification [] = []
  build_dormancy_notification (grant ∷ grants) =
      join (codes "\n")
        (codes "以下の目的について、しばらく利用がないようです。権限を終了してもよろしいですか?" ∷ map dormancy_line (grant ∷ grants))

  module _ {D V E F : Type 0} (sled : Sled D V E) (serde : Serde V F) where
    -- The assertion of `MemoryRecord::new`, `none`, holds for the two categories used here.
    unfoldable pub put_new :
        (MemoryRecord → MemoryRecord)
        → Uuid
        → DateTime
        → MemoryCategory
        → Text
        → List Text
        → Action D (MemoryStoreError E F) (Unit {0})
    put_new adapt id now category content tags d = elim (new_record id now category content tags) [
      | some r ↦ put sled serde (adapt r) d
      | none ↦ (d, ok tt)
    ]

    unfoldable pub log_intervention :
        Uuid → DateTime → Intervention → Action D (MemoryStoreError E F) (Unit {0})
    log_intervention id now i =
        put_new (weigh intervention_importance) id now arona (intervention_text i)
          (codes "Guardian" ∷ codes "介入ログ" ∷ debug_category i.category ∷ [])

    unfoldable pub log_grant_event :
        Uuid → DateTime → PurposeGrant → GrantEvent → Action D (MemoryStoreError E F) (Unit {0})
    log_grant_event id now grant event =
        put_new (λ r. r) id now system (grant_text grant event) (codes "権限付与" ∷ grant.purpose ∷ [])

    unfoldable pub log_approval :
        Uuid → DateTime → TrustScore → ApprovalManner → Action D (MemoryStoreError E F) (Unit {0})
    log_approval id now score manner =
        put_new (λ r. r) id now arona (approval_text score manner)
          (codes "信頼モデル" ∷ score.category ∷ [])

    unfoldable pub log_explicit_declaration :
        Uuid → DateTime → TrustScore → Action D (MemoryStoreError E F) (Unit {0})
    log_explicit_declaration id now score =
        put_new (weigh declaration_importance) id now arona
          (codes "[信頼スコア] カテゴリ=" ++ (score.category ++ codes " ユーザーが明示的に「今後は確認不要」と宣言"))
          (codes "信頼モデル" ∷ score.category ∷ codes "明示的宣言" ∷ [])
