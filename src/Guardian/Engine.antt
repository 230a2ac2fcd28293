-- ===== src/Guardian/Engine.antt =====
-- arona_agy/arona_guardian/src/engine.rs: the rule engine.
use arona_os.Prelude.{
  ℕ, ◌+◌, Text, F64, f64_gt, u32, codes, decimal, contains_text, Bool, true, false, ◌&&◌, not, List,
  [], ◌∷◌, ◌++◌, Option, none, some, Result, ok, err, ◌==◌, text_partial_eq, ltb, leb, nat_eq,
  if◌then◌else◌, keep, filter_map,
}
use arona_os.Guardian.{
  Uuid, DateTime, ThreatCategory, ransomware, hardware_failure, data_corruption, system_corruption,
  DetectionMethod, signature, behavioral_anomaly, sensor_threshold, checksum_verification,
  event_log, abnormal_process_event, heartbeat, GuardianRule, new_predefined, SystemEvent,
  file_operation, sensor_reading, checksum_check, write_failure, process_abnormal, heartbeat_missed,
}

pub data GuardianError : Type 0 where
  rule_not_found : Uuid → GuardianError
  protected_rule : Uuid → GuardianError

pub data InterventionAction : Type 0 where
  block : Text → InterventionAction

pub record Intervention : Type 0 where
  pub rule_id : Uuid
  pub category : ThreatCategory
  pub action : InterventionAction
  pub triggered_by : SystemEvent
  pub timestamp : DateTime

abbrev pub false_positive_auto_relax_threshold : ℕ
false_positive_auto_relax_threshold = 5

pub record GuardianEngine : Type 0 where
  pub rules : List GuardianRule

abbrev pub new : GuardianEngine
new = record { rules = [] }

-- The rule is pushed at the end; the id is handed back.
unfoldable pub add_rule : GuardianRule → GuardianEngine → GuardianEngine × Uuid
add_rule rule engine = (record { rules = engine.rules ++ rule ∷ [] }, rule.id)

-- `iter().find(|r| r.id == id)`: the first rule with the id.
unfoldable pub find : Uuid → List GuardianRule → Option GuardianRule
find id [] = none
find id (r ∷ rs) = if nat_eq r.id id then some r else find id rs

-- A write through the reference that `iter_mut().find(…)` returns.
unfoldable pub modify : Uuid → (GuardianRule → GuardianRule) → List GuardianRule → List GuardianRule
modify id f [] = []
modify id f (r ∷ rs) = if nat_eq r.id id then f r ∷ rs else r ∷ modify id f rs

abbrev pub relax : GuardianRule → GuardianRule
relax rule = record rule { active = false }

unfoldable pub relax_rule : Uuid → GuardianEngine → GuardianEngine × Result (Unit {0}) GuardianError
relax_rule id engine = elim (find id engine.rules) [
  | none ↦ (engine, err (rule_not_found id))
  | some rule ↦
      if rule.protected
      then (engine, err (protected_rule id))
      else (record { rules = modify id relax engine.rules }, ok tt)
]

-- The count is a `u32`, and `+= 1` wraps in a release build.
abbrev pub count_up : GuardianRule → GuardianRule
count_up rule = record rule { false_positive_count = u32 (rule.false_positive_count + 1) }

-- The test that stands behind the increment.
abbrev pub relaxes : GuardianRule → Bool
relaxes rule =
    not rule.protected && leb false_positive_auto_relax_threshold rule.false_positive_count

abbrev pub after_false_positive : GuardianRule → GuardianRule
after_false_positive rule = if relaxes (count_up rule) then relax (count_up rule) else count_up rule

unfoldable pub record_false_positive :
    Uuid → GuardianEngine → GuardianEngine × Result Bool GuardianError
record_false_positive id engine = elim (find id engine.rules) [
  | none ↦ (engine, err (rule_not_found id))
  | some rule ↦
      (record { rules = modify id after_false_positive engine.rules }, ok (relaxes (count_up rule)))
]

-- The texts that `format!` builds. Printing an `f64` is the standard library's.
unfoldable pub signature_reason : Text → Text
signature_reason pattern = codes "既知のランサムウェアパターン(" ++ (pattern ++ codes ")に一致するファイル操作")

unfoldable pub anomaly_reason : ℕ → Text
anomaly_reason count = codes "短時間に" ++ (decimal count ++ codes "件のファイル書き換えを検知(いつもと違う挙動)")

unfoldable pub sensor_reason : (F64 → Text) → Text → F64 → F64 → Text
sensor_reason show_f64 sensor limit value =
    codes "センサー「"
    ++ (sensor ++ (codes "」がしきい値(" ++ (show_f64 limit ++ (codes ")を超過: " ++ show_f64 value))))

unfoldable pub checksum_reason : Text → Text
checksum_reason path = codes "チェックサム不一致を検知: " ++ path

unfoldable pub event_log_reason : Text → Text
event_log_reason reason = codes "データ破損の兆候となるイベントを検知: " ++ reason

unfoldable pub abnormal_process_reason : Text → Text
abnormal_process_reason actual = codes "システム破損の兆候となる異常イベントを検知: " ++ actual

unfoldable pub heartbeat_reason : Text → ℕ → Text
heartbeat_reason process missed =
    codes "重要プロセス「" ++ (process ++ (codes "」のハートビートが" ++ (decimal missed ++ codes "回連続で欠落")))

-- The `match` of `match_event`: a guard that fails falls through to `_ => None`.
unfoldable pub action_for : (F64 → Text) → DetectionMethod → SystemEvent → Option InterventionAction
action_for show (signature pattern) (file_operation path _ _) =
    if contains_text path pattern then some (block (signature_reason pattern)) else none
action_for show (behavioral_anomaly _) (file_operation _ _ recent_write_count) =
    if ltb 100 recent_write_count then some (block (anomaly_reason recent_write_count)) else none
action_for show (sensor_threshold sensor_name limit) (sensor_reading name value) =
    if (name == sensor_name) && f64_gt value limit
    then some (block (sensor_reason show sensor_name limit value))
    else none
action_for show checksum_verification (checksum_check path matched) =
    if not matched then some (block (checksum_reason path)) else none
action_for show (event_log event_type) (write_failure _ reason) =
    if reason == event_type then some (block (event_log_reason reason)) else none
action_for show (abnormal_process_event event_type) (process_abnormal _ actual) =
    if actual == event_type then some (block (abnormal_process_reason actual)) else none
action_for show (heartbeat max_missed_beats) (heartbeat_missed process_name missed_count) =
    if leb max_missed_beats missed_count
    then some (block (heartbeat_reason process_name missed_count))
    else none
action_for _ _ _ = none

-- `now rule` is the reading of `Utc::now()` when the rule is matched.
unfoldable pub match_event :
    (F64 → Text) → (GuardianRule → DateTime) → SystemEvent → GuardianRule → Option Intervention
match_event show now event rule = elim (action_for show rule.method event) [
  | none ↦ none
  | some action ↦ some (record {
    rule_id = rule.id;
    category = rule.category;
    action = action;
    triggered_by = event;
    timestamp = now rule;
  })
]

unfoldable pub evaluate :
    (F64 → Text) → (GuardianRule → DateTime) → SystemEvent → GuardianEngine → List Intervention
evaluate show now event engine =
    filter_map (match_event show now event) (keep (λ rule. rule.active) engine.rules)

-- 95.0 as an `f64`.
abbrev pub cpu_temp_limit : F64
cpu_temp_limit = 0x4057_c000_0000_0000

-- The five rules take their ids and times in order from `ids` and `times`.
abbrev pub default_rule_set : (ℕ → Uuid) → (ℕ → DateTime) → List GuardianRule
default_rule_set ids times =
    new_predefined (ids 0) (times 0) ransomware (signature (codes ".locked")) true
    ∷ new_predefined (ids 1) (times 1) ransomware (behavioral_anomaly (codes "短時間の大量ファイル書き換え")) true
    ∷ new_predefined (ids 2) (times 2) hardware_failure
        (sensor_threshold (codes "cpu_temp_celsius") cpu_temp_limit) false
    ∷ new_predefined (ids 3) (times 3) data_corruption checksum_verification true
    ∷ new_predefined (ids 4) (times 4) system_corruption (heartbeat 3) false
    ∷ []

-- The loop that pushes each rule of the set.
abbrev pub push_all : List GuardianRule → GuardianEngine → GuardianEngine
push_all [] engine = engine
push_all (rule ∷ rest) engine = push_all rest (record { rules = engine.rules ++ rule ∷ [] })

abbrev pub with_default_rules : (ℕ → Uuid) → (ℕ → DateTime) → GuardianEngine
with_default_rules ids times = push_all (default_rule_set ids times) new
