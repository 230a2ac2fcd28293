-- ===== src/Kernel/Guardian/Port.antt =====
-- The kernel's guardian and arona_agy/arona_guardian: what the crate's engine is for the kernel's.
use arona_os.Prelude.{
  ℕ, ◌≡◌, refl, ap, inl, inr, Text, F64, List, [], ◌∷◌, map, Option, none, some, Result, ok, err,
  arith, nat_eq, Bool-cases, Option-cases,
}
use arona_os.Guardian
use arona_os.Guardian.Engine
use arona_os.Kernel.Clock.{DateTime}
use arona_os.Kernel.Guardian.{
  ThreatCategory, ransomware, hardware_failure, data_corruption, system_corruption, DetectionMethod,
  signature, behavioral_anomaly, sensor_threshold, checksum_verification, event_log,
  abnormal_process_event, heartbeat, RuleOrigin, predefined, proposed_by_cognition_core,
  GuardianRule, InterventionAction, block, Intervention, SystemEvent, file_operation,
  sensor_reading, checksum_check, write_failure, process_abnormal, heartbeat_missed, GuardianError,
  rule_not_found, protected_rule,
}
use arona_os.Kernel.Guardian.Engine.{GuardianEngine, find, modify, action_for, match_event}

abbrev pub category_of : ThreatCategory → Guardian.ThreatCategory
category_of ransomware = Guardian.ransomware
category_of hardware_failure = Guardian.hardware_failure
category_of data_corruption = Guardian.data_corruption
category_of system_corruption = Guardian.system_corruption

abbrev pub method_of : DetectionMethod → Guardian.DetectionMethod
method_of (signature p) = Guardian.signature p
method_of (behavioral_anomaly d) = Guardian.behavioral_anomaly d
method_of (sensor_threshold s l) = Guardian.sensor_threshold s l
method_of checksum_verification = Guardian.checksum_verification
method_of (event_log t) = Guardian.event_log t
method_of (abnormal_process_event t) = Guardian.abnormal_process_event t
method_of (heartbeat n) = Guardian.heartbeat n

abbrev pub origin_of : RuleOrigin → Guardian.RuleOrigin
origin_of predefined = Guardian.predefined
origin_of (proposed_by_cognition_core reasoning) = Guardian.proposed_by_cognition_core reasoning

abbrev pub event_of : SystemEvent → Guardian.SystemEvent
event_of (file_operation p o n) = Guardian.file_operation p o n
event_of (sensor_reading s v) = Guardian.sensor_reading s v
event_of (checksum_check p m) = Guardian.checksum_check p m
event_of (write_failure p r) = Guardian.write_failure p r
event_of (process_abnormal p t) = Guardian.process_abnormal p t
event_of (heartbeat_missed p n) = Guardian.heartbeat_missed p n

abbrev pub action_of : InterventionAction → Guardian.Engine.InterventionAction
action_of (block reason) = Guardian.Engine.block reason

abbrev pub error_of : GuardianError → Guardian.Engine.GuardianError
error_of (rule_not_found id) = Guardian.Engine.rule_not_found id
error_of (protected_rule id) = Guardian.Engine.protected_rule id

-- What both kinds of interventions tell.
abbrev pub Report : Type 0
Report = ℕ × Guardian.ThreatCategory × Guardian.Engine.InterventionAction

abbrev pub report : Guardian.Engine.Intervention → Report
report i = (i.rule_id, i.category, i.action)

abbrev pub report_of : Intervention → Report
report_of i = (i.rule_id, category_of i.category, action_of i.action)

abbrev pub option_map : {A B : Type 0} → (A → B) → Option A → Option B
option_map f none = none
option_map f (some a) = some (f a)

abbrev pub result_of :
    {A : Type 0} → Result A GuardianError → Result A Guardian.Engine.GuardianError
result_of (ok a) = ok a
result_of (err e) = err (error_of e)

action_for-action_of :
    (show : F64 → Text) (method : DetectionMethod) (event : SystemEvent)
    → Guardian.Engine.action_for show (method_of method) (event_of event)
      ≡ option_map action_of (action_for show method event)
unfolding action_for Guardian.Engine.action_for Guardian.Engine.signature_reason
    Guardian.Engine.anomaly_reason Guardian.Engine.sensor_reason Guardian.Engine.checksum_reason
    Guardian.Engine.event_log_reason Guardian.Engine.abnormal_process_reason
    Guardian.Engine.heartbeat_reason
action_for-action_of show method event = ground arith

-- A number for each time, such as the seconds since an epoch.
module _ (stamp : DateTime → ℕ) where
  abbrev pub rule_of : GuardianRule → Guardian.GuardianRule
  rule_of rule = record {
    id = rule.id;
    category = category_of rule.category;
    method = method_of rule.method;
    origin = origin_of rule.origin;
    protected = rule.protected;
    created_at = stamp rule.created_at;
    active = rule.active;
    false_positive_count = rule.false_positive_count;
  }

  abbrev pub engine_of : GuardianEngine → Guardian.Engine.GuardianEngine
  engine_of engine = record { rules = map rule_of engine.rules }

  pub find-rule_of :
      (id : ℕ) (rs : List GuardianRule)
      → Guardian.Engine.find id (map rule_of rs) ≡ option_map rule_of (find id rs)
  unfolding find Guardian.Engine.find
  find-rule_of id [] = refl
  find-rule_of id (r ∷ rs) = elim (Bool-cases (nat_eq r.id id)) [
    | inl here ↦ rw here refl
    | inr away ↦ rw away (find-rule_of id rs)
  ]

  pub modify-rule_of :
      (id : ℕ) (f : GuardianRule → GuardianRule) (g : Guardian.GuardianRule → Guardian.GuardianRule)
      (rs : List GuardianRule)
      → ((r : GuardianRule) → g (rule_of r) ≡ rule_of (f r))
      → Guardian.Engine.modify id g (map rule_of rs) ≡ map rule_of (modify id f rs)
  unfolding modify Guardian.Engine.modify
  modify-rule_of id f g [] same = refl
  modify-rule_of id f g (r ∷ rs) same = elim (Bool-cases (nat_eq r.id id)) [
    | inl here ↦ rw here (ap (λ x. x ∷ map rule_of rs) (same r))
    | inr away ↦ rw away (ap (λ xs. rule_of r ∷ xs) (modify-rule_of id f g rs same))
  ]

  pub match_event-rule_of :
      (show : F64 → Text) (now : Guardian.GuardianRule → ℕ) (event : SystemEvent)
      (rule : GuardianRule)
      → option_map report (Guardian.Engine.match_event show now (event_of event) (rule_of rule))
        ≡ option_map report_of (match_event show event rule)
  unfolding match_event Guardian.Engine.match_event
  match_event-rule_of show now event rule =
      rw (action_for-action_of show rule.method event, Guardian.Engine.match_event)
        (elim (Option-cases (action_for show rule.method event)) [
          | inl quiet ↦ rw (quiet, match_event) refl
          | inr (action, fires) ↦ rw (fires, match_event) refl
        ])
