-- ===== src/Kernel/Guardian.antt =====
-- arona_kernel/src/guardian.rs: the data of the kernel's port of the guardian. The random ids and
-- the time of the clock are arguments.
pub mod Engine
pub mod Port
pub mod Calls
mod Examples
use arona_os.Prelude.{ℕ, Text, F64, Bool, true}
use arona_os.Kernel.Clock.{DateTime}

pub data ThreatCategory : Type 0 where
  ransomware hardware_failure data_corruption system_corruption : ThreatCategory

pub data DetectionMethod : Type 0 where
  signature : Text → DetectionMethod
  behavioral_anomaly : Text → DetectionMethod
  sensor_threshold : Text → F64 → DetectionMethod
  checksum_verification : DetectionMethod
  event_log : Text → DetectionMethod
  abnormal_process_event : Text → DetectionMethod
  heartbeat : ℕ → DetectionMethod

pub data RuleOrigin : Type 0 where
  predefined : RuleOrigin
  proposed_by_cognition_core : Text → RuleOrigin

-- The id is a random `u64`.
pub record GuardianRule : Type 0 where
  pub id : ℕ
  pub category : ThreatCategory
  pub method : DetectionMethod
  pub origin : RuleOrigin
  pub protected : Bool
  pub created_at : DateTime
  pub active : Bool
  pub false_positive_count : ℕ

abbrev pub new_predefined : ℕ → DateTime → ThreatCategory → DetectionMethod → Bool → GuardianRule
new_predefined id now category method protected = record {
  id = id;
  category = category;
  method = method;
  origin = predefined;
  protected = protected;
  created_at = now;
  active = true;
  false_positive_count = 0;
}

pub data InterventionAction : Type 0 where
  block : Text → InterventionAction

pub record Intervention : Type 0 where
  pub rule_id : ℕ
  pub category : ThreatCategory
  pub action : InterventionAction

pub data SystemEvent : Type 0 where
  file_operation : Text → Text → ℕ → SystemEvent
  sensor_reading : Text → F64 → SystemEvent
  checksum_check : Text → Bool → SystemEvent
  write_failure : Text → Text → SystemEvent
  process_abnormal : Text → Text → SystemEvent
  heartbeat_missed : Text → ℕ → SystemEvent

pub data GuardianError : Type 0 where
  rule_not_found : ℕ → GuardianError
  protected_rule : ℕ → GuardianError
