-- ===== src/Guardian.antt =====
-- arona_agy/arona_guardian/src/schema.rs: threats, detection methods, rules and system events.
-- Ids (`Uuid::new_v4`) and the time (`Utc::now`) come from outside and are arguments.
pub mod Engine
pub mod Rules
pub mod Governance
pub mod FalsePositives
pub mod Fires
pub mod Evaluation
pub mod Defaults
mod Examples
use arona_os.Prelude.{ℕ, Text, F64, Bool, true}

abbrev pub Uuid : Type 0
Uuid = ℕ

abbrev pub DateTime : Type 0
DateTime = ℕ

pub data ThreatCategory : Type 0 where
  ransomware hardware_failure data_corruption system_corruption : ThreatCategory

pub data DetectionMethod : Type 0 where
  signature : Text → DetectionMethod
  behavioral_anomaly : Text → DetectionMethod
  sensor_threshold : Text → F64 → DetectionMethod
  checksum_verification : DetectionMethod
  event_log : Text → DetectionMethod
  abnormal_process_event : Text → DetectionMethod
  heartbeat : ℕ → DetectionMethod

pub data RuleOrigin : Type 0 where
  predefined : RuleOrigin
  proposed_by_cognition_core : Text → RuleOrigin

pub record GuardianRule : Type 0 where
  pub id : Uuid
  pub category : ThreatCategory
  pub method : DetectionMethod
  pub origin : RuleOrigin
  pub protected : Bool
  pub created_at : DateTime
  pub active : Bool
  pub false_positive_count : ℕ

abbrev pub new_predefined : Uuid → DateTime → ThreatCategory → DetectionMethod → Bool → GuardianRule
new_predefined id now category method protected = record {
  id = id;
  category = category;
  method = method;
  origin = predefined;
  protected = protected;
  created_at = now;
  active = true;
  false_positive_count = 0;
}

abbrev pub new_proposed :
    Uuid → DateTime → ThreatCategory → DetectionMethod → Bool → Text → GuardianRule
new_proposed id now category method protected reasoning = record {
  id = id;
  category = category;
  method = method;
  origin = proposed_by_cognition_core reasoning;
  protected = protected;
  created_at = now;
  active = true;
  false_positive_count = 0;
}

pub data SystemEvent : Type 0 where
  file_operation : Text → Text → ℕ → SystemEvent
  sensor_reading : Text → F64 → SystemEvent
  checksum_check : Text → Bool → SystemEvent
  write_failure : Text → Text → SystemEvent
  process_abnormal : Text → Text → SystemEvent
  heartbeat_missed : Text → ℕ → SystemEvent
