-- ===== src/Guardian/Fires.antt =====
-- When a detection method responds to an event, said without the code's tests; and that the code's
-- `match` responds exactly then.
use arona_os.Prelude.{
  ℕ, ◌<◌, ◌≤◌, ◌≡◌, Text, F64, f64_gt, Bool, true, false, some, arith, text_partial_eq, text_eq_iff,
  Bool-cases, inl, inr, contains_text, contains_text→Occurs, Occurs, Occurs→contains_text,
}
use arona_os.Guardian.{
  DetectionMethod, signature, behavioral_anomaly, sensor_threshold, checksum_verification,
  event_log, abnormal_process_event, heartbeat, SystemEvent, file_operation, sensor_reading,
  checksum_check, write_failure, process_abnormal, heartbeat_missed,
}
use arona_os.Guardian.Engine.{
  InterventionAction, block, action_for, signature_reason, anomaly_reason, sensor_reason,
  checksum_reason, event_log_reason, abnormal_process_reason, heartbeat_reason,
}

-- The signature of ransomware occurs in the path; more than 100 files were written; the sensor of
-- that name reads above the limit; and so on.
pub data Fires : DetectionMethod → SystemEvent → Type 0 where
  known_pattern :
      {pattern path operation : Text} {count : ℕ}
      → Occurs pattern path
      → Fires (signature pattern) (file_operation path operation count)
  burst :
      {description path operation : Text} {count : ℕ}
      → 100 < count
      → Fires (behavioral_anomaly description) (file_operation path operation count)
  over_limit :
      {sensor name : Text} {limit value : F64}
      → name ≡ sensor
      → f64_gt value limit ≡ true
      → Fires (sensor_threshold sensor limit) (sensor_reading name value)
  mismatch :
      {path : Text} {matched : Bool}
      → matched ≡ false
      → Fires checksum_verification (checksum_check path matched)
  corrupting :
      {event_type path reason : Text}
      → reason ≡ event_type
      → Fires (event_log event_type) (write_failure path reason)
  abnormal :
      {event_type process actual : Text}
      → actual ≡ event_type
      → Fires (abnormal_process_event event_type) (process_abnormal process actual)
  silent :
      {process : Text} {max_missed missed : ℕ}
      → max_missed ≤ missed
      → Fires (heartbeat max_missed) (heartbeat_missed process missed)

module _ (show : F64 → Text) where
  -- What fires gets an action.
  pub Fires→action_for :
      {m : DetectionMethod} {ev : SystemEvent}
      → Fires m ev
      → (a : InterventionAction) × (action_for show m ev ≡ some a)
  unfolding action_for
  Fires→action_for (known_pattern {pattern = p} {path = s} o) =
      (block (signature_reason p), ground (arith, Occurs→contains_text s p o))
  Fires→action_for (burst {count = n} h) = (block (anomaly_reason n), ground arith)
  Fires→action_for (over_limit {sensor = s} {name = n} {limit = l} {value = v} e gt) =
      (block (sensor_reason show s l v), ground (arith, (text_eq_iff n s).1 e))
  Fires→action_for (mismatch {path = p} e) = (block (checksum_reason p), ground arith)
  Fires→action_for (corrupting {event_type = t} {reason = r} e) =
      (block (event_log_reason r), ground (arith, (text_eq_iff r t).1 e))
  Fires→action_for (abnormal {event_type = t} {actual = a} e) =
      (block (abnormal_process_reason a), ground (arith, (text_eq_iff a t).1 e))
  Fires→action_for (silent {process = p} {missed = n} h) =
      (block (heartbeat_reason p n), ground arith)

  -- What gets an action fires.
  pub action_for→Fires :
      (m : DetectionMethod) (ev : SystemEvent) {a : InterventionAction}
      → action_for show m ev ≡ some a
      → Fires m ev
  unfolding action_for
  action_for→Fires (signature p) (file_operation s _ _) h = elim (Bool-cases (contains_text s p)) [
    | inl t ↦ known_pattern (contains_text→Occurs s p t)
    | inr f ↦ absurd (ground arith)
  ]
  action_for→Fires (behavioral_anomaly _) (file_operation _ _ n) h = burst (ground arith)
  action_for→Fires (sensor_threshold s l) (sensor_reading n v) h =
      over_limit (ground (arith, text_eq_iff n s)) (ground arith)
  action_for→Fires checksum_verification (checksum_check _ b) h = mismatch (ground arith)
  action_for→Fires (event_log t) (write_failure _ r) h =
      corrupting (ground (arith, text_eq_iff r t))
  action_for→Fires (abnormal_process_event t) (process_abnormal _ a) h =
      abnormal (ground (arith, text_eq_iff a t))
  action_for→Fires (heartbeat k) (heartbeat_missed _ n) h = silent (ground arith)
  action_for→Fires _ _ h = absurd (cc)
